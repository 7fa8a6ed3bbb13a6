-- ===== src/Client/Node/Answers.antt =====
-- client/src/node.rs: what the answers to the queries are worth.
use forcerelay_verifier.Prelude.{
  ℕ, ◌+◌, ◌-◌, ◌/◌, ◌^◌, inl, inr, Outcome-cases, Bool-cases, true, false, leb, sub64, guard, ◌≤◌,
  ◌<◌, ◌≡◌, ◌≢◌, ◌↔◌, refl, sym, subst, Option, none, some, List, [], ◌∷◌, All-last_key_value,
  All-hash_get, last_key_value, Outcome, ok, err, map_err, map_err-eq-ok, ok_or, ok_or-eq-ok,
  >>=-eq-ok, ok-injective, ◌>>=◌, arith,
}
use forcerelay_verifier.Common.{Bytes, finalized}
use forcerelay_verifier.Config.Types.{Config}
use forcerelay_verifier.Consensus.Primitives as ConsensusPrimitives
use forcerelay_verifier.Consensus.Types.{Bootstrap}
use forcerelay_verifier.Consensus.Blocks.{ExecutionPayload}
use forcerelay_verifier.Consensus.State.{expected_current_slot}
use forcerelay_verifier.Execution.Primitives.{Primitives}
use forcerelay_verifier.Execution.Types.{Account}
use forcerelay_verifier.Execution.Rpc.{ExecutionRpc}
use forcerelay_verifier.Execution.Client
use forcerelay_verifier.Execution.Client.Accounts.{IsProvenAccount, IsProvenSlot, get_account_sound}
use forcerelay_verifier.Client.Errors.{execution_failed}
use forcerelay_verifier.Client.Node.{Node}
use forcerelay_verifier.Client.Node.Queries.{
  check_head_age, check_blocktag_age, get_payload, aged_payload, fresh_payload, entry_payload,
  get_balance, get_nonce, get_code, get_storage_at, is_syncing, syncing, get_block_number,
}
use forcerelay_verifier.Client.Node.Verified.{IsVerified, IsSound}

module _ ⦃consensus_lib : ConsensusPrimitives.Primitives⦄ ⦃lib : Primitives⦄ (config : Config)
    (root : Bootstrap) (rpc : ExecutionRpc) (now : ℕ) (node : Node)
    (sound : IsSound config root node) (empty_code : lib.keccak256 [] ≡ lib.keccak_empty) where
  finalized-IsVerified :
      {payload : ExecutionPayload}
      → get_payload finalized node ≡ ok payload
      → IsVerified config root payload
  unfolding get_payload
  finalized-IsVerified e = go (last_key_value node.finalized_payloads) refl e
    where
      go :
          (entry : Option (ℕ × ExecutionPayload)) {payload : ExecutionPayload}
          → last_key_value node.finalized_payloads ≡ entry
          → ok_or (entry_payload entry) finalized ≡ ok payload
          → IsVerified config root payload
      go none p q = cc
      go (some (num, found)) p q =
          subst (IsVerified config root) (ok-injective q)
            (All-last_key_value (λ e. IsVerified config root e.1) node.finalized_payloads sound.1 p)

  -- An account that is proven against a payload of a trusted block.
  pub record IsTrustedAccount (address : Bytes) (account : Account) : Type 0 where
    pub payload : ExecutionPayload
    pub verified : IsVerified config root payload
    pub proven : IsProvenAccount rpc address payload account

  account-IsTrusted :
      (address : Bytes) (slots : Option (List Bytes)) (payload : ExecutionPayload)
      {account : Account}
      → get_payload finalized node ≡ ok payload
      → Client.get_account rpc address slots payload ≡ ok account
      → IsTrustedAccount address account
  account-IsTrusted address slots payload {account} e h = record {
    payload = payload;
    verified = finalized-IsVerified e;
    proven = get_account_sound rpc address slots payload account empty_code h;
  }

  -- the three queries that read one field of the account
  field_sound :
      {A : Type 0} (address : Bytes) (read : Account → A) {a : A}
      → (do
        payload ← aged_payload now node finalized
        account ← map_err (Client.get_account rpc address none payload) execution_failed
        ok (read account))
        ≡ ok a
      → (account : Account) × IsTrustedAccount address account × (read account ≡ a)
  field_sound address read e =
      let (payload, p, e1) = >>=-eq-ok (aged_payload now node finalized) _ e in
      let (u, q, e2) = >>=-eq-ok (map_err (check_blocktag_age now finalized node) _) _ p in
      let (account, r, e3) =
        >>=-eq-ok (map_err (Client.get_account rpc address none payload) _) _ e1 in
      (
        account,
        account-IsTrusted address none payload (map_err-eq-ok _ _ e2) (map_err-eq-ok _ _ r),
        ok-injective e3,
      )

  -- When the node is sound, which makes each finalized payload that of a trusted block, and the hash
  -- of the empty byte string is revm's hash of empty code, a balance that is returned for the
  -- finalized block is that of an account proven against the payload of a trusted block.
  pub finalized_balance_sound :
      (address : Bytes) {balance : ℕ}
      → get_balance rpc now node address finalized ≡ ok balance
      → (account : Account) × IsTrustedAccount address account × (account.balance ≡ balance)
  unfolding get_balance
  finalized_balance_sound address = field_sound address (λ account. account.balance)

  -- The same of a nonce and of a code.
  finalized_nonce_sound :
      (address : Bytes) {nonce : ℕ}
      → get_nonce rpc now node address finalized ≡ ok nonce
      → (account : Account) × IsTrustedAccount address account × (account.nonce ≡ nonce)
  unfolding get_nonce
  finalized_nonce_sound address = field_sound address (λ account. account.nonce)

  finalized_code_sound :
      (address : Bytes) {code : Bytes}
      → get_code rpc now node address finalized ≡ ok code
      → (account : Account) × IsTrustedAccount address account × (account.code ≡ code)
  unfolding get_code
  finalized_code_sound address = field_sound address (λ account. account.code)

  -- On the same conditions, the value of a slot that is returned for the finalized block has a proof
  -- against the storage hash of an account that is proven against the payload of a trusted block.
  pub finalized_storage_sound :
      (address slot : Bytes) {value : ℕ}
      → get_storage_at rpc now node address slot finalized ≡ ok value
      → (account : Account) × IsTrustedAccount address account
        × IsProvenSlot rpc account.storage_hash (slot, value)
  unfolding get_storage_at
  finalized_storage_sound address slot {value} e =
      let (payload, p, e1) = >>=-eq-ok (fresh_payload now node finalized) _ e in
      let (u, q, e2) = >>=-eq-ok (map_err (check_head_age now node) _) _ p in
      let (account, r, e3) =
        >>=-eq-ok
          (map_err (Client.get_account rpc address (some (slot ∷ [])) payload) execution_failed) _
          e1 in
      let trusted =
        account-IsTrusted address (some (slot ∷ [])) payload (map_err-eq-ok _ _ e2)
          (map_err-eq-ok _ _ r) in
      (
        account,
        trusted,
        subst (λ h. IsProvenSlot rpc h (slot, value)) (sym trusted.proven.storage_hash_eq)
            (All-hash_get (IsProvenSlot rpc trusted.proven.proof.storage_hash) slot account.slots
              trusted.proven.slots_proven (ok_or-eq-ok _ _ e3)),
      )

-- With one reading of the clock for both checks, `syncing` never reports progress.
pub syncing_same_clock :
    (now later : ℕ) (node : Node) (current_block highest_block starting_block : ℕ)
    → syncing now now later node ≢ ok (is_syncing current_block highest_block starting_block)
unfolding syncing get_block_number
syncing_same_clock now later node c h s e = elim (Outcome-cases (check_head_age now node)) [
  | inl (u, p) ↦ (let e' = rw (syncing, p) at e in cc)
  | inr (inl (x, p)) ↦ (let e' = rw (syncing, p) at e in cc)
  | inr (inr p) ↦ (let e' = rw (syncing, p) at e in cc)
]

in_window :
    {E : Type 0} (expected slot : ℕ) (e : E)
    → expected < 2 ^ 64
    → slot + 10 < 2 ^ 64
    → (guard (leb (sub64 expected slot) 10) e ≡ ok tt)
      ↔ ((slot ≤ expected) × (expected ≤ slot + 10))
in_window {E = E} expected slot e h k = elim (Bool-cases (leb (sub64 expected slot) 10)) [
  | inl p ↦ rw p ((λ _. yes p), λ _. refl)
  | inr p ↦ rw p ((λ q. cc), λ (a, b). no p a b)
]
  where
    yes : leb (sub64 expected slot) 10 ≡ true → (slot ≤ expected) × (expected ≤ slot + 10)
    yes p = ground arith

    no :
        leb (sub64 expected slot) 10 ≡ false
        → slot ≤ expected
        → expected ≤ slot + 10
        → Path (Outcome E (Unit {0})) (err e) (ok tt)
    no p a b = ground arith

-- Where the clock is at or after the genesis and below 2^64, and the slot of the head is more than
-- ten below 2^64: the head is young enough exactly if its slot is the one of the clock, or one of the
-- ten before. A head ahead of the clock is refused, since the difference wraps.
pub check_head_age_iff :
    (now : ℕ) (node : Node)
    → node.consensus.config.chain.genesis_time ≤ now
    → now < 2 ^ 64
    → node.consensus.store.optimistic_header.slot + 10 < 2 ^ 64
    → (check_head_age now node ≡ ok tt) ↔ (
        (node.consensus.store.optimistic_header.slot
          ≤ (now - node.consensus.config.chain.genesis_time) / 12)
        × ((now - node.consensus.config.chain.genesis_time) / 12
            ≤ node.consensus.store.optimistic_header.slot + 10))
unfolding check_head_age expected_current_slot
check_head_age_iff now node started bound slot_bound = rw (reached started) (
    in_window ((now - node.consensus.config.chain.genesis_time) / 12)
      node.consensus.store.optimistic_header.slot _ (omega (arith, bound)) slot_bound)
  where
    reached :
        node.consensus.config.chain.genesis_time ≤ now
        → leb node.consensus.config.chain.genesis_time now ≡ true
    reached h = ground arith
