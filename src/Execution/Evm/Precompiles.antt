-- ===== src/Execution/Evm/Precompiles.antt =====
-- The addresses of the precompiled contracts.
use forcerelay_verifier.Prelude.{
  ℕ, zero, suc, ◌≤◌, ◌≡◌, ◌↔◌, refl, Bool, true, not, ◌&&◌, [], ◌∷◌, ◌++◌, length, replicate, arith,
  ap, subst, sym,
}
use forcerelay_verifier.Common.{Bytes}
use forcerelay_verifier.Execution.Evm.Database.{bytes_lt, is_precompile}

-- the two comparisons, on addresses of `k` bytes and one more
abbrev is_low : ℕ → Bytes → Bool
is_low k address =
    not (bytes_lt (replicate k 0 ++ (9 ∷ [])) address) && bytes_lt (replicate (suc k) 0) address

abbrev IsLow : ℕ → Bytes → Type 0
IsLow k address = (n : ℕ) × (address ≡ replicate k 0 ++ (n ∷ [])) × (1 ≤ n) × (n ≤ 9)

is_low-cons : (k : ℕ) (address : Bytes) → is_low (suc k) (0 ∷ address) ≡ is_low k address
unfolding bytes_lt
is_low-cons k address = refl

IsLow-of_is_low :
    (k : ℕ) (address : Bytes) → length address ≡ suc k → is_low k address ≡ true → IsLow k address
unfolding bytes_lt
IsLow-of_is_low k [] l h = absurd (omega (arith, l))
IsLow-of_is_low zero (n ∷ []) l h = (n, refl, ground arith, ground arith)
IsLow-of_is_low zero (n ∷ m ∷ address) l h = absurd (omega (arith, l))
IsLow-of_is_low (suc k) (zero ∷ address) l h =
    let (n, e, p, q) = IsLow-of_is_low k address (omega (arith, l)) h in (n, ap (◌∷◌ 0) e, p, q)
IsLow-of_is_low (suc k) (suc x ∷ address) l h = absurd (ground arith)

is_low-of_IsLow : (k n : ℕ) → 1 ≤ n → n ≤ 9 → is_low k (replicate k 0 ++ (n ∷ [])) ≡ true
unfolding bytes_lt
is_low-of_IsLow zero n p q = ground arith
is_low-of_IsLow (suc k) n p q = is_low-of_IsLow k n p q

-- An address of 20 bytes is a precompile exactly if it is 19 zeros and a last byte from 1 to 9.
pub is_precompile_iff :
    (address : Bytes)
    → length address ≡ 20
    → (is_precompile address ≡ true)
      ↔ ((n : ℕ) × (address ≡ replicate 19 0 ++ (n ∷ [])) × (1 ≤ n) × (n ≤ 9))
unfolding is_precompile
is_precompile_iff address l = (
  λ h. IsLow-of_is_low 19 address l h,
  λ low. subst (λ a. is_low 19 a ≡ true) (sym low.1) (is_low-of_IsLow 19 low.0 low.2 low.3),
)
