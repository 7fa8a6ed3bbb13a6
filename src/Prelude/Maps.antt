-- ===== src/Prelude/Maps.antt =====
-- A `BTreeMap<u64, V>` as the list of its entries in the order of their keys, and a `HashMap` of byte
-- strings as the list of its entries, the one inserted last first.
use Prim.Native.Nat.{ℕ, ◌≤◌, ◌<◌}
use mathlib.Core.Path.{◌≡◌, refl, sym, subst}
use mathlib.Core.Bool.{true, false}
use mathlib.Core.Logic.{inl, inr}
use native.Mathlib.Omega.{arith}
use forcerelay_verifier.Prelude.Lists.{All, length}
use mathlib.Core.Option.{Option, none, some}
use mathlib.Core.List.{List, [], ◌∷◌}
use forcerelay_verifier.Prelude.Tests.{
  ltb, ◌==◌, if◌then◌else◌, Bool-cases, some-injective, bytes_eq, bytes_eq→eq,
}

abbrev pub BTreeMap {ℓ} : Type ℓ → Type ℓ
BTreeMap V = List (ℕ × V)

module _ {ℓ} {V : Type ℓ} where
  abbrev pub lookup : ℕ → BTreeMap V → Option V
  lookup k [] = none
  lookup k ((j, v) ∷ m) = if k == j then some v else lookup k m

  abbrev pub insert : ℕ → V → BTreeMap V → BTreeMap V
  insert k v [] = (k, v) ∷ []
  insert k v ((j, w) ∷ m) =
      if ltb k j then (k, v) ∷ (j, w) ∷ m else if k == j then (k, v) ∷ m else (j, w) ∷ insert k v m

  abbrev pub last_key_value : BTreeMap V → Option (ℕ × V)
  last_key_value [] = none
  last_key_value (entry ∷ []) = some entry
  last_key_value (entry ∷ next ∷ m) = last_key_value (next ∷ m)

  abbrev pub first_key_value : BTreeMap V → Option (ℕ × V)
  first_key_value [] = none
  first_key_value (entry ∷ m) = some entry

  -- Each key is below those that follow it.
  abbrev pub IsSorted : BTreeMap V → Type ℓ
  IsSorted [] = Unit
  IsSorted ((k, v) ∷ m) = All (λ (e : ℕ × V). k < e.0) m × IsSorted m

  pub length-insert_pos : (k : ℕ) (v : V) (m : BTreeMap V) → 1 ≤ length (insert k v m)
  length-insert_pos k v [] = omega arith
  length-insert_pos k v ((j, w) ∷ m) = ground arith

  pub lookup-insert :
      (j k : ℕ) (v : V) (m : BTreeMap V)
      → lookup j (insert k v m) ≡ (if j == k then some v else lookup j m)
  lookup-insert j k v [] = ground arith
  lookup-insert j k v ((i, w) ∷ m) = ground (arith, lookup-insert j k v m)

  pub lookup-none_lt :
      (j k : ℕ) (m : BTreeMap V) → j ≤ k → All (λ (e : ℕ × V). k < e.0) m → lookup j m ≡ none
  lookup-none_lt j k [] h all = refl
  lookup-none_lt j k ((i, w) ∷ m) h all = ground (arith, lookup-none_lt j k m)

module _ {ℓ κ} {V : Type ℓ} (P : ℕ × V → Type κ) where
  pub All-insert : (k : ℕ) (v : V) (m : BTreeMap V) → P (k, v) → All P m → All P (insert k v m)
  All-insert k v [] p all = (p, tt)
  All-insert k v ((j, w) ∷ m) p all = elim (Bool-cases (ltb k j)) [
    | inl e ↦ rw e (p, all)
    | inr e ↦ elim (Bool-cases (k == j)) [
      | inl f ↦ rw (e, f) (p, all.1)
      | inr f ↦ rw (e, f) (all.0, All-insert k v m p all.1)
    ]
  ]

  pub All-lookup : (k : ℕ) (m : BTreeMap V) {v : V} → All P m → lookup k m ≡ some v → P (k, v)
  All-lookup k [] all e = cc
  All-lookup k ((j, w) ∷ m) {v} all e = elim (Bool-cases (k == j)) [
    | inl f ↦ subst P (same (k_eq f) (some-injective (rw f at e))) all.0
    | inr f ↦ All-lookup k m all.1 (rw f at e)
  ]
    where
      k_eq : (k == j) ≡ true → j ≡ k
      k_eq f = ground arith

      same : j ≡ k → w ≡ v → Path (ℕ × V) (j, w) (k, v)
      same p q = λ i. (p i, q i)

  pub All-last_key_value :
      (m : BTreeMap V) {entry : ℕ × V} → All P m → last_key_value m ≡ some entry → P entry
  All-last_key_value [] all e = cc
  All-last_key_value (entry ∷ []) all e = subst P (some-injective e) all.0
  All-last_key_value (entry ∷ next ∷ m) all e = All-last_key_value (next ∷ m) all.1 e

module _ {ℓ} {V : Type ℓ} where
  pub lookup-last_key_value :
      (m : BTreeMap V) {k : ℕ} {v : V}
      → IsSorted m
      → last_key_value m ≡ some (k, v)
      → lookup k m ≡ some v
  lookup-last_key_value [] h e = cc
  lookup-last_key_value ((j, w) ∷ []) h e =
      subst (λ (entry : ℕ × V). lookup entry.0 ((j, w) ∷ []) ≡ some entry.1) (some-injective e)
        (ground arith)
  lookup-last_key_value ((j, w) ∷ next ∷ m) {k} h e =
      let later : j < k = All-last_key_value (λ entry. j < entry.0) (next ∷ m) h.0 e in
      let other : (k == j) ≡ false = ground arith in
      rw other (lookup-last_key_value (next ∷ m) h.1 e)

  insert-above :
      (i k : ℕ) (v : V) (m : BTreeMap V)
      → i < k
      → All (λ (e : ℕ × V). i < e.0) m
      → All (λ (e : ℕ × V). i < e.0) (insert k v m)
  insert-above i k v m h all = All-insert (λ e. i < e.0) k v m h all

  All-weaken :
      (i j : ℕ) (m : BTreeMap V)
      → i < j
      → All (λ (e : ℕ × V). j < e.0) m
      → All (λ (e : ℕ × V). i < e.0) m
  All-weaken i j [] h all = tt
  All-weaken i j ((k, w) ∷ m) h all = (omega (arith, h, all.0), All-weaken i j m h all.1)

  pub insert-IsSorted : (k : ℕ) (v : V) (m : BTreeMap V) → IsSorted m → IsSorted (insert k v m)
  insert-IsSorted k v [] h = (tt, tt)
  insert-IsSorted k v ((j, w) ∷ m) h = elim (Bool-cases (ltb k j)) [
    | inl e ↦ rw e ((lt e, All-weaken k j m (lt e) h.0), h)
    | inr e ↦ elim (Bool-cases (k == j)) [
      | inl f ↦ rw (e, f) (subst (λ n. All (λ (x : ℕ × V). n < x.0) m) (eq f) h.0, h.1)
      | inr f ↦ rw (e, f) (insert-above j k v m (gt e f) h.0, insert-IsSorted k v m h.1)
    ]
  ]
    where
      lt : ltb k j ≡ true → k < j
      lt e = ground arith

      eq : (k == j) ≡ true → j ≡ k
      eq f = ground arith

      gt : ltb k j ≡ false → (k == j) ≡ false → j < k
      gt e f = ground arith

below_lem : (k j : ℕ) → j < k → (ltb k j ≡ false) × ((k == j) ≡ false)
below_lem k j h = (ground arith, ground arith)

module _ {ℓ} {V : Type ℓ} where
  pub last-insert :
      (k : ℕ) (v : V) (m : BTreeMap V)
      → All (λ (e : ℕ × V). e.0 < k) m
      → last_key_value (insert k v m) ≡ some (k, v)
  last-insert k v [] h = refl
  last-insert k v ((j, w) ∷ []) h = rw ((below_lem k j h.0).0, (below_lem k j h.0).1) refl
  last-insert k v ((j, w) ∷ (i, u) ∷ m) h =
      rw
        (
          (below_lem k j h.0).0,
          (below_lem k j h.0).1,
          (below_lem k i h.1.0).0,
          (below_lem k i h.1.0).1,
        )
        (rw ((below_lem k i h.1.0).0, (below_lem k i h.1.0).1) at
          (last-insert k v ((i, u) ∷ m) h.1))

abbrev pub HashMap {ℓ} : Type ℓ → Type ℓ
HashMap V = List (List ℕ × V)

module _ {ℓ} {V : Type ℓ} where
  abbrev pub hash_get : List ℕ → HashMap V → Option V
  hash_get k [] = none
  hash_get k ((j, v) ∷ m) = if bytes_eq k j then some v else hash_get k m

  pub All-hash_get :
      (P : List ℕ × V → Type 0) (k : List ℕ) (m : HashMap V) {v : V}
      → All P m
      → hash_get k m ≡ some v
      → P (k, v)
  All-hash_get P k [] all e = cc
  All-hash_get P k ((j, w) ∷ m) {v} all e = elim (Bool-cases (bytes_eq k j)) [
    | inl f ↦ subst P (same (sym (bytes_eq→eq k j f)) (some-injective (rw f at e))) all.0
    | inr f ↦ All-hash_get P k m all.1 (rw f at e)
  ]
    where
      same : j ≡ k → w ≡ v → Path (List ℕ × V) (j, w) (k, v)
      same p q = λ i. (p i, q i)
