-- ===== src/Config/Checkpoints/Votes.antt =====
-- config/src/checkpoints.rs: which checkpoint is chosen of those that the services give.
use forcerelay_verifier.Prelude.{
  ℕ, ◌+◌, ◌≤◌, max, ◌≡◌, refl, sym, ◌∙◌, ap, subst, inl, inr, Bool, true, false, Option, none, some,
  List, [], ◌∷◌, map, All, All-get_elem?, All-hash_get, get_elem?, HashMap, hash_get, unwrap_or,
  bytes_eq, bytes_eq→eq, bytes_eq_refl, Bool-cases, leb, if◌then◌else◌, ok, ok-injective, arith,
}
use mathlib.Core.Bool.{true≢false}
use forcerelay_verifier.Common.{Bytes, Text}
use forcerelay_verifier.Config.Checkpoints.{
  Slot, RawSlotResponse, CheckpointFallbackService, max_by_key, increment, count_roots, roots_at,
  rooted_slots, service_slot, most_common, most_voted, fetch_latest_checkpoint_from_services,
}

-- how often the root is listed
abbrev pub votes : Bytes → List Bytes → ℕ
votes root [] = 0
votes root (other ∷ roots) = (if bytes_eq root other then 1 else 0) + votes root roots

hash_get-increment :
    (k root : Bytes) (m : HashMap ℕ)
    → hash_get k (increment root m)
      ≡ (if bytes_eq k root then some (unwrap_or (hash_get k m) 0 + 1) else hash_get k m)
unfolding increment
hash_get-increment k root [] = refl
hash_get-increment k root ((j, n) ∷ m) = elim (Bool-cases (bytes_eq root j)) [
  | inl e ↦ rw e (found (bytes_eq→eq root j e) (bytes_eq k j) (bytes_eq k root) refl refl)
  | inr e ↦ rw e (passed e (hash_get-increment k root m) (bytes_eq k j) (bytes_eq k root) refl refl)
]
  where
    found :
        root ≡ j
        → (b c : Bool) → bytes_eq k j ≡ b
        → bytes_eq k root ≡ c
        → hash_get k ((j, n + 1) ∷ m) ≡ (
            if c
            then some (unwrap_or (if b then some n else hash_get k m) 0 + 1)
            else if b
            then some n
            else hash_get k m)
    found p true true q r = rw q refl
    found p false false q r = rw q refl
    found p true false q r = absurd (true≢false (sym q ∙ ap (bytes_eq k) (sym p) ∙ r))
    found p false true q r = absurd (true≢false (sym r ∙ ap (bytes_eq k) p ∙ q))

    passed :
        bytes_eq root j ≡ false
        → hash_get k (increment root m)
          ≡ (if bytes_eq k root then some (unwrap_or (hash_get k m) 0 + 1) else hash_get k m)
        → (b c : Bool) → bytes_eq k j ≡ b
        → bytes_eq k root ≡ c
        → hash_get k ((j, n) ∷ increment root m) ≡ (
            if c
            then some (unwrap_or (if b then some n else hash_get k m) 0 + 1)
            else if b
            then some n
            else hash_get k m)
    passed e ih true true q r = absurd (
        true≢false (
          sym (bytes_eq_refl j)
          ∙ ap (λ x. bytes_eq x j) (sym (bytes_eq→eq k j q) ∙ bytes_eq→eq k root r)
          ∙ e))
    passed e ih true false q r = rw q refl
    passed e ih false c q r = rw (q, ih, r) refl

hash_get-count_roots :
    (k : Bytes) (roots : List Bytes) (m : HashMap ℕ)
    → unwrap_or (hash_get k (count_roots roots m)) 0 ≡ votes k roots + unwrap_or (hash_get k m) 0
unfolding count_roots
hash_get-count_roots k [] m = omega arith
hash_get-count_roots k (root ∷ roots) m =
    hash_get-count_roots k roots (increment root m) ∙ step (bytes_eq k root) refl
  where
    step :
        (b : Bool)
        → bytes_eq k root ≡ b
        → votes k roots + unwrap_or (hash_get k (increment root m)) 0
          ≡ votes k (root ∷ roots) + unwrap_or (hash_get k m) 0
    step true e = rw (hash_get-increment k root m, e) (omega arith)
    step false e = rw (hash_get-increment k root m, e) (omega arith)

-- What the documentation of `HashMap` says of `into_iter`: each pair of the map is visited, and no other.
pub record IsIteration (m : HashMap ℕ) (entries : List (Bytes × ℕ)) : Type 0 where
  pub only : All (λ e. hash_get e.0 m ≡ some e.1) entries
  pub all :
      (k : Bytes) (n : ℕ) → hash_get k m ≡ some n → (i : ℕ) × (get_elem? entries i ≡ some (k, n))

module _ {A : Type 0} (key : A → ℕ) where
  max_by_key-All :
      (m : ℕ) (b : A) (xs : List A) → key (max_by_key key b xs) ≤ m → All (λ x. key x ≤ m) (b ∷ xs)
  max_by_key-All m b [] h = (h, tt)
  max_by_key-All m b (x ∷ xs) h = elim (Bool-cases (leb (key b) (key x))) [
    | inl e ↦
        (let (p, all) = max_by_key-All m x xs (rw (max_by_key, e) at h) in (later e p, (p, all)))
    | inr e ↦
        (let (p, all) = max_by_key-All m b xs (rw (max_by_key, e) at h) in (p, (earlier e p, all)))
  ]
    where
      later : leb (key b) (key x) ≡ true → key x ≤ m → key b ≤ m
      later e h = ground arith

      earlier : leb (key b) (key x) ≡ false → key b ≤ m → key x ≤ m
      earlier e h = ground arith

  All-max_by_key : (P : A → Type 0) (b : A) (xs : List A) → P b → All P xs → P (max_by_key key b xs)
  All-max_by_key P b [] p all = p
  All-max_by_key P b (x ∷ xs) p all = elim (Bool-cases (leb (key b) (key x))) [
    | inl e ↦ rw e (All-max_by_key P x xs all.0 all.1)
    | inr e ↦ rw e (All-max_by_key P b xs p all.1)
  ]

-- the latest epoch of the slots
abbrev pub last_epoch : List Slot → ℕ
last_epoch [] = 0
last_epoch (s ∷ slots) = max s.epoch (last_epoch slots)

max_by_key-last_epoch :
    (s : Slot) (slots : List Slot)
    → (max_by_key (λ x. x.epoch) s slots).epoch ≡ last_epoch (s ∷ slots)
max_by_key-last_epoch s [] = omega arith
max_by_key-last_epoch s (t ∷ slots) = elim (Bool-cases (leb s.epoch t.epoch)) [
  | inl e ↦ rw (max_by_key, e) (later e (max_by_key-last_epoch t slots))
  | inr e ↦ rw (max_by_key, e) (earlier e (max_by_key-last_epoch s slots))
]
  where
    later :
        {m : ℕ}
        → leb s.epoch t.epoch ≡ true
        → m ≡ max t.epoch (last_epoch slots)
        → m ≡ max s.epoch (max t.epoch (last_epoch slots))
    later e h = ground arith

    earlier :
        {m : ℕ}
        → leb s.epoch t.epoch ≡ false
        → m ≡ max s.epoch (last_epoch slots)
        → m ≡ max s.epoch (max t.epoch (last_epoch slots))
    earlier e h = ground arith

-- the roots that the healthy services vote for: those of the slots of the latest epoch
abbrev pub latest_roots : List Slot → List Bytes
latest_roots slots = roots_at (last_epoch slots) slots

increment-IsPositive :
    (root : Bytes) (m : HashMap ℕ) → All (λ e. 1 ≤ e.1) m → All (λ e. 1 ≤ e.1) (increment root m)
unfolding increment
increment-IsPositive root [] all = (omega arith, tt)
increment-IsPositive root ((j, n) ∷ m) all = elim (Bool-cases (bytes_eq root j)) [
  | inl e ↦ rw e (omega arith, all.1)
  | inr e ↦ rw e (all.0, increment-IsPositive root m all.1)
]

count_roots-IsPositive :
    (roots : List Bytes) (m : HashMap ℕ)
    → All (λ e. 1 ≤ e.1) m
    → All (λ e. 1 ≤ e.1) (count_roots roots m)
unfolding count_roots
count_roots-IsPositive [] m all = all
count_roots-IsPositive (root ∷ roots) m all =
    count_roots-IsPositive roots (increment root m) (increment-IsPositive root m all)

-- The root is voted for, and none is voted for more often.
abbrev pub IsMostVoted : Bytes → List Bytes → Type 0
IsMostVoted root roots =
    (1 ≤ votes root roots) × ((other : Bytes) → votes other roots ≤ votes root roots)

module _ (roots : List Bytes) where
  votes_lem : (k : Bytes) → votes k roots ≡ unwrap_or (hash_get k (count_roots roots [])) 0
  votes_lem k = omega (arith, hash_get-count_roots k roots [])

  most_voted-IsMostVoted :
      (entries : List (Bytes × ℕ)) {root : Bytes}
      → IsIteration (count_roots roots []) entries
      → most_voted entries ≡ ok root
      → IsMostVoted root roots
  unfolding most_voted
  most_voted-IsMostVoted [] h e = cc
  most_voted-IsMostVoted (entry ∷ entries) h e =
      subst (λ r. IsMostVoted r roots) (ok-injective e)
        (
          omega (arith, counted, positive),
          λ other. bound other (hash_get other (count_roots roots [])) refl,
        )
    where
      best : Bytes × ℕ
      best = max_by_key (λ x. x.1) entry entries

      visited : hash_get best.0 (count_roots roots []) ≡ some best.1
      visited =
          All-max_by_key (λ x. x.1) (λ x. hash_get x.0 (count_roots roots []) ≡ some x.1) entry
            entries h.only.0 h.only.1

      counted : votes best.0 roots ≡ best.1
      counted = votes_lem best.0 ∙ ap (λ o. unwrap_or o 0) visited

      positive : 1 ≤ best.1
      positive =
          All-hash_get (λ x. 1 ≤ x.1) best.0 (count_roots roots [])
            (count_roots-IsPositive roots [] tt) visited

      bound :
          (other : Bytes) (o : Option ℕ)
          → hash_get other (count_roots roots []) ≡ o
          → votes other roots ≤ votes best.0 roots
      bound other none p =
          let q : votes other roots ≡ 0 = votes_lem other ∙ ap (λ o. unwrap_or o 0) p in
          omega (arith, q)
      bound other (some n) p =
          let q : votes other roots ≡ n = votes_lem other ∙ ap (λ o. unwrap_or o 0) p in
          let (i, r) = h.all other n p in
          let s : n ≤ best.1 =
            All-get_elem? (λ x. x.1 ≤ best.1) (entry ∷ entries) i
              (max_by_key-All (λ x. x.1) best.1 entry entries (omega arith)) r in
          omega (arith, q, s, counted)

module _ (query : Text → Option RawSlotResponse) (iterate : HashMap ℕ → List (Bytes × ℕ)) where
  -- The checkpoint that is chosen, when one is, is the root of a slot of the latest epoch that the
  -- services gave, and no root is given more often for that epoch, whatever the order in which the
  -- map of the counts is visited.
  pub fetch_latest_checkpoint-IsMostVoted :
      (services : List CheckpointFallbackService) {root : Bytes}
      → (let slots = rooted_slots (map (service_slot query iterate) services) in
          IsIteration
            (count_roots (latest_roots slots) [])
            (iterate (count_roots (latest_roots slots) [])))
      → fetch_latest_checkpoint_from_services query iterate services ≡ ok root
      → IsMostVoted root (latest_roots (rooted_slots (map (service_slot query iterate) services)))
  unfolding fetch_latest_checkpoint_from_services
  fetch_latest_checkpoint-IsMostVoted services h e =
      chosen (rooted_slots (map (service_slot query iterate) services)) h e
    where
      chosen :
          (slots : List Slot) {root : Bytes}
          → IsIteration
              (count_roots (latest_roots slots) [])
              (iterate (count_roots (latest_roots slots) []))
          → most_common query iterate slots ≡ ok root
          → IsMostVoted root (latest_roots slots)
      chosen [] h e = cc
      chosen (s ∷ slots) {root = r} h e =
          most_voted-IsMostVoted (latest_roots (s ∷ slots))
            (iterate (count_roots (latest_roots (s ∷ slots)) [])) h
            (subst (λ n. most_voted (iterate (count_roots (roots_at n (s ∷ slots)) [])) ≡ ok r)
              (max_by_key-last_epoch s slots) e)
