-- ===== src/Execution/Client/Fees/History.antt =====
-- What a fee history holds.
use forcerelay_verifier.Prelude.{
  ℕ, zero, suc, ◌+◌, ◌-◌, ◌≤◌, ◌<◌, ◌^◌, min, ◌≡◌, refl, sym, ◌∙◌, ap, subst, some, List, [], ◌∷◌,
  map, BTreeMap, lookup, last_key_value, first_key_value, get_elem?, length, leb, true, false,
  if◌then◌else◌, ok, ok_or, ok_or-eq-ok, guard, guard-eq-ok, >>=-eq-ok, ok-injective,
  some-injective, Bool-cases, inl, inr, arith,
}
use forcerelay_verifier.Consensus.Blocks.{ExecutionPayload, fields}
use forcerelay_verifier.Execution.Errors.{empty_execution_payload}
use forcerelay_verifier.Execution.Primitives.{Primitives}
use forcerelay_verifier.Execution.Types.{FeeHistory}
use forcerelay_verifier.Execution.Client.Fees.{
  request_latest, request_oldest, collect_fees, get_fee_history,
}

module _ (block_count oldest top : ℕ) where
  in_range :
      oldest ≤ top
      → top < 2 ^ 64
      → block_count ≤ top
      → top + 1 - request_oldest block_count top oldest ≡ min block_count (top - oldest) + 1
  unfolding request_oldest
  in_range h bound few = ground arith

  wrapped :
      oldest ≤ top
      → block_count < 2 ^ 64
      → top < block_count
      → top + 1 - request_oldest block_count top oldest ≡ 0
  unfolding request_oldest
  wrapped h bound many = ground arith

  range_length :
      oldest ≤ top
      → top < 2 ^ 64
      → block_count < 2 ^ 64
      → top + 1 - request_oldest block_count top oldest
        ≡ (if leb block_count top then min block_count (top - oldest) + 1 else 0)
  range_length h bound bound' = elim (Bool-cases (leb block_count top)) [
    | inl e ↦ rw e (in_range h bound (few e))
    | inr e ↦ rw e (wrapped h bound' (many e))
  ]
    where
      few : leb block_count top ≡ true → block_count ≤ top
      few e = ground arith

      many : leb block_count top ≡ false → top < block_count
      many e = ground arith

request_latest-min :
    (last_block latest : ℕ) → request_latest last_block latest ≡ min last_block latest
unfolding request_latest
request_latest-min last_block latest = ground arith

length-map : {A B : Type 0} (f : A → B) (xs : List A) → length (map f xs) ≡ length xs
length-map f [] = refl
length-map f (x ∷ xs) = ap suc (length-map f xs)

module _ ⦃lib : Primitives⦄ (payloads : BTreeMap ExecutionPayload) where
  -- The entries are those of the payload.
  abbrev pub IsFeeOf : ExecutionPayload → ℕ × lib.Float → Type 0
  IsFeeOf payload (fee, ratio) =
      (fee ≡ (fields payload).base_fee_per_gas)
      × (ratio ≡ lib.gas_ratio (fields payload).gas_used (fields payload).gas_limit)

  collect_fees_sound :
      (n block_id : ℕ) {fees : List (ℕ × lib.Float)}
      → collect_fees n block_id payloads ≡ ok fees
      → (i : ℕ) {entry : ℕ × lib.Float} → get_elem? fees i ≡ some entry
      → (payload : ExecutionPayload) × (lookup (block_id + i) payloads ≡ some payload)
        × IsFeeOf payload entry
  unfolding collect_fees
  collect_fees_sound zero block_id {fees} e i {entry} p =
      let q : get_elem? [] i ≡ some entry =
        subst (λ f. get_elem? f i ≡ some entry) (sym (ok-injective e)) p in
      cc
  collect_fees_sound (suc n) block_id {fees} e i {entry} p =
      let (payload, q, e1) =
        >>=-eq-ok (ok_or (lookup block_id payloads) empty_execution_payload) _ e in
      let (rest, r, e2) = >>=-eq-ok (collect_fees n (block_id + 1) payloads) _ e1 in
      split payload (ok_or-eq-ok _ _ q) rest (λ j f h. collect_fees_sound n (block_id + 1) r j h) i
        (subst (λ f. get_elem? f i ≡ some entry) (sym (ok-injective e2)) p)
    where
      first : ExecutionPayload → ℕ × lib.Float
      first payload = (
        (fields payload).base_fee_per_gas,
        lib.gas_ratio (fields payload).gas_used (fields payload).gas_limit,
      )

      split :
          (payload : ExecutionPayload)
          → lookup block_id payloads ≡ some payload
          → (rest : List (ℕ × lib.Float))
          → ((j : ℕ) (f : ℕ × lib.Float)
              → get_elem? rest j ≡ some f
              → (found : ExecutionPayload) × (lookup (block_id + 1 + j) payloads ≡ some found)
                × IsFeeOf found f)
          → (i : ℕ) → get_elem? (first payload ∷ rest) i ≡ some entry
          → (found : ExecutionPayload) × (lookup (block_id + i) payloads ≡ some found)
            × IsFeeOf found entry
      split payload q rest ih zero p =
          let same : first payload ≡ entry = some-injective p in
          let at : block_id ≡ block_id + 0 = omega arith in
          (
            payload,
            subst (λ b. lookup b payloads ≡ some payload) at q,
            (ap (λ f. f.0) (sym same), ap (λ f. f.1) (sym same)),
          )
      split payload q rest ih (suc i) p =
          let at : block_id + 1 + i ≡ block_id + suc i = omega arith in
          let (found, r, fee) = ih i entry p in
          (found, subst (λ b. lookup b payloads ≡ some found) at r, fee)

  length-collect_fees :
      (n block_id : ℕ) {fees : List (ℕ × lib.Float)}
      → collect_fees n block_id payloads ≡ ok fees
      → length fees ≡ n
  unfolding collect_fees
  length-collect_fees zero block_id e = ap length (sym (ok-injective e))
  length-collect_fees (suc n) block_id e =
      let (payload, p, e1) =
        >>=-eq-ok (ok_or (lookup block_id payloads) empty_execution_payload) _ e in
      let (rest, q, e2) = >>=-eq-ok (collect_fees n (block_id + 1) payloads) _ e1 in
      ap length (sym (ok-injective e2)) ∙ ap suc (length-collect_fees n (block_id + 1) q)

  get_elem?-map :
      {A : Type 0} (f : ℕ × lib.Float → A) (xs : List (ℕ × lib.Float)) (i : ℕ) {a : A}
      → get_elem? (map f xs) i ≡ some a
      → (x : ℕ × lib.Float) × (get_elem? xs i ≡ some x) × (f x ≡ a)
  get_elem?-map f [] i e = cc
  get_elem?-map f (x ∷ xs) zero e = (x, refl, some-injective e)
  get_elem?-map f (x ∷ xs) (suc i) e = get_elem?-map f xs i e

  module _ (block_count last_block : ℕ) (reward_percentiles : List lib.Float) where
    -- How a history that is returned is made.
    abbrev Parts : FeeHistory → Type 0
    Parts history =
        (latest : ℕ × ExecutionPayload) × (oldest : ℕ × ExecutionPayload) × (fees : List
          (ℕ × lib.Float))
        × (last_key_value payloads ≡ some latest)
        × (first_key_value payloads ≡ some oldest)
        × (leb oldest.0 last_block ≡ true)
        × (collect_fees
              (request_latest last_block latest.0
                + 1
                - request_oldest block_count (request_latest last_block latest.0) oldest.0)
              (request_oldest block_count (request_latest last_block latest.0) oldest.0) payloads
            ≡ ok fees)
        × (history.base_fee_per_gas ≡ map (λ fee. fee.0) fees)
        × (history.oldest_block
            ≡ request_oldest block_count (request_latest last_block latest.0) oldest.0)

    get_fee_history-Parts :
        {history : FeeHistory}
        → get_fee_history block_count last_block reward_percentiles payloads ≡ ok (some history)
        → Parts history
    unfolding get_fee_history
    get_fee_history-Parts {history} e =
        let (latest, p, e1) =
          >>=-eq-ok (ok_or (last_key_value payloads) empty_execution_payload) _ e in
        let (oldest, q, e2) =
          >>=-eq-ok (ok_or (first_key_value payloads) empty_execution_payload) _ e1 in
        let (u, r, e3) = >>=-eq-ok (guard (leb oldest.0 last_block) _) _ e2 in
        let (fees, s, e4) = >>=-eq-ok (collect_fees _ _ payloads) _ e3 in
        let same = some-injective (ok-injective e4) in
        (
          latest,
          oldest,
          fees,
          ok_or-eq-ok _ _ p,
          ok_or-eq-ok _ _ q,
          guard-eq-ok _ _ r,
          s,
          ap (λ h. h.base_fee_per_gas) (sym same),
          ap (λ h. h.oldest_block) (sym same),
        )

    -- Each base fee of a fee history that is returned is that of the payload that stands under the
    -- number of the oldest block of the history and the position of the fee.
    pub get_fee_history_sound :
        {history : FeeHistory} (i : ℕ) {fee : ℕ}
        → get_fee_history block_count last_block reward_percentiles payloads ≡ ok (some history)
        → get_elem? history.base_fee_per_gas i ≡ some fee
        → (payload : ExecutionPayload) × (lookup (history.oldest_block + i) payloads ≡ some payload)
          × (fee ≡ (fields payload).base_fee_per_gas)
    get_fee_history_sound i {fee} e at =
        let (latest, oldest, fees, p, q, r, s, same_fees, same_oldest) = get_fee_history-Parts e in
        let (entry, t, same) =
          get_elem?-map (λ f. f.0) fees i (subst (λ f. get_elem? f i ≡ some fee) same_fees at) in
        let (payload, u, v) = collect_fees_sound _ _ s i t in
        (
          payload,
          subst (λ b. lookup (b + i) payloads ≡ some payload) (sym same_oldest) u,
          sym same ∙ v.0,
        )

    -- A history that is returned from payloads between two keys, in order, has one base fee for each
    -- block up to the last one that is asked for and is stored, back to `block_count` blocks before it
    -- or to the oldest that is stored, both ends included; but it has none when that last block is
    -- below `block_count`, since the difference wraps. The last block and the count are below 2^64.
    pub get_fee_history_length :
        {history : FeeHistory} (latest oldest : ℕ × ExecutionPayload)
        → last_key_value payloads ≡ some latest
        → first_key_value payloads ≡ some oldest
        → oldest.0 ≤ latest.0
        → last_block < 2 ^ 64
        → block_count < 2 ^ 64
        → get_fee_history block_count last_block reward_percentiles payloads ≡ ok (some history)
        → length history.base_fee_per_gas ≡ (
            if leb block_count (min last_block latest.0)
            then min block_count (min last_block latest.0 - oldest.0) + 1
            else 0)
    get_fee_history_length latest oldest p q ordered bound bound' e =
        let (latest', oldest', fees, p', q', r, s, same_fees, same_oldest) =
          get_fee_history-Parts e in
        let l : latest' ≡ latest = some-injective (sym p' ∙ p) in
        let o : oldest' ≡ oldest = some-injective (sym q' ∙ q) in
        ap length same_fees
        ∙ length-map (λ f. f.0) fees
        ∙ length-collect_fees
            (request_latest last_block latest.0
              + 1
              - request_oldest block_count (request_latest last_block latest.0) oldest.0)
            (request_oldest block_count (request_latest last_block latest.0) oldest.0)
            (rw (l, o) at s)
        ∙ (rw (request_latest-min last_block latest.0) (
            range_length block_count oldest.0 (min last_block latest.0) (below (rw o at r))
              (omega (arith, bound)) bound'))
      where
        below : leb oldest.0 last_block ≡ true → oldest.0 ≤ min last_block latest.0
        below h = ground arith
