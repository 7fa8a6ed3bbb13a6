-- ===== src/Prelude/Windows.antt =====
-- A `BTreeMap` whose first entries are dropped until no more than a number are left.
use Prim.Native.Nat.{ℕ, suc, ◌≤◌, min, max}
use mathlib.Core.Path.{◌≡◌, ◌∙◌, refl}
use mathlib.Core.Bool.{true, false}
use mathlib.Core.Logic.{inl, inr}
use mathlib.Core.Option.{Option, none, some}
use mathlib.Core.List.{[], ◌∷◌}
use native.Mathlib.Omega.{arith}
use forcerelay_verifier.Prelude.Lists.{length, All}
use forcerelay_verifier.Prelude.Tests.{ltb, leb, ◌==◌, if◌then◌else◌, Bool-cases}
use forcerelay_verifier.Prelude.Maps.{BTreeMap, lookup, last_key_value, IsSorted, lookup-none_lt}

module _ {ℓ} {V : Type ℓ} where
  -- `m.pop_first()` until no more than `n` entries are left
  unfoldable pub pop_until : ℕ → BTreeMap V → BTreeMap V
  pop_until n [] = []
  pop_until n (entry ∷ m) =
      let rest = pop_until n m in if ltb n (length (entry ∷ m)) then rest else entry ∷ m

  pub pop_until-IsSorted : (n : ℕ) (m : BTreeMap V) → IsSorted m → IsSorted (pop_until n m)
  unfolding pop_until
  pop_until-IsSorted n [] h = tt
  pop_until-IsSorted n (entry ∷ m) h = elim (Bool-cases (ltb n (length (entry ∷ m)))) [
    | inl e ↦ rw e (pop_until-IsSorted n m h.1)
    | inr e ↦ rw e h
  ]

  pub length-pop_until : (n : ℕ) (m : BTreeMap V) → length (pop_until n m) ≡ min n (length m)
  unfolding pop_until
  length-pop_until n [] = omega arith
  length-pop_until n (entry ∷ m) = elim (Bool-cases (ltb n (length (entry ∷ m)))) [
    | inl e ↦ rw e (short e (length-pop_until n m))
    | inr e ↦ rw e (long e)
  ]
    where
      short :
          ltb n (suc (length m)) ≡ true
          → length (pop_until n m) ≡ min n (length m)
          → length (pop_until n m) ≡ min n (suc (length m))
      short e ih = ground arith

      long : ltb n (suc (length m)) ≡ false → suc (length m) ≡ min n (suc (length m))
      long e = ground arith

  pub last-pop_until :
      (n : ℕ) (m : BTreeMap V) → 1 ≤ n → last_key_value (pop_until n m) ≡ last_key_value m
  unfolding pop_until
  last-pop_until n [] h = refl
  last-pop_until n (entry ∷ []) h = let one : ltb n 1 ≡ false = ground arith in rw one refl
  last-pop_until n (entry ∷ next ∷ m) h = elim (Bool-cases (ltb n (length (entry ∷ next ∷ m)))) [
    | inl e ↦ rw e (last-pop_until n (next ∷ m) h)
    | inr e ↦ rw e refl
  ]

module _ {V : Type 0} where
  -- A map that is trimmed holds what it held from some key on.
  pub lookup-pop_until :
      (n : ℕ) (m : BTreeMap V)
      → IsSorted m
      → (bound : ℕ) × ((k : ℕ)
          → lookup k (pop_until n m) ≡ (if leb bound k then lookup k m else none))
  unfolding pop_until
  lookup-pop_until n [] h = (0, λ k. ground arith)
  lookup-pop_until n ((j, p) ∷ m) h = elim (Bool-cases (ltb n (length ((j, p) ∷ m)))) [
    | inl e ↦
        let (bound, same) = lookup-pop_until n m h.1 in
        (max bound (suc j), λ k. rw e (dropped bound same k))
    | inr e ↦ (0, λ k. rw e (kept k))
  ]
    where
      kept : (k : ℕ) → lookup k ((j, p) ∷ m) ≡ (if leb 0 k then lookup k ((j, p) ∷ m) else none)
      kept k = let zero_le : leb 0 k ≡ true = ground arith in rw zero_le refl

      trimmed :
          (bound k : ℕ) (found : Option V)
          → (k ≤ j → found ≡ none)
          → (if leb bound k then found else none)
            ≡ (if leb (max bound (suc j)) k then if k == j then some p else found else none)
      trimmed bound k found absent = ground (arith, absent)

      dropped :
          (bound : ℕ)
          → ((k : ℕ) → lookup k (pop_until n m) ≡ (if leb bound k then lookup k m else none))
          → (k : ℕ)
          → lookup k (pop_until n m)
            ≡ (if leb (max bound (suc j)) k then lookup k ((j, p) ∷ m) else none)
      dropped bound same k =
          same k ∙ trimmed bound k (lookup k m) (λ low. lookup-none_lt k j m low h.0)

module _ {ℓ κ} {V : Type ℓ} (P : ℕ × V → Type κ) where
  pub All-pop_until : (n : ℕ) (m : BTreeMap V) → All P m → All P (pop_until n m)
  unfolding pop_until
  All-pop_until n [] all = tt
  All-pop_until n (entry ∷ m) all = elim (Bool-cases (ltb n (length (entry ∷ m)))) [
    | inl e ↦ rw e (All-pop_until n m all.1)
    | inr e ↦ rw e all
  ]
