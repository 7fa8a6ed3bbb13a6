-- ===== src/Common/Numbers/Reading.antt =====
-- Reading a number back from its text.
use forcerelay_verifier.Prelude.{
  ℕ, zero, suc, ◌+◌, ◌*◌, ◌/◌, ◌%◌, ◌≤◌, ◌<◌, ◌≡◌, ◌≢◌, refl, sym, ap, ◌∙◌, inl, inr, some, [], ◌∷◌,
  ◌==◌, Bool-cases, u64_mod, arith,
}
use forcerelay_verifier.Common.{Text}
use forcerelay_verifier.Common.Numbers.{
  digit, digits, to_text, to_digit, push_digit, scan, from_str_radix,
}

-- what the proofs use of a radix
pub record IsRadix (radix : ℕ) : Type 0 where
  pub recombine : (n : ℕ) → n / radix * radix + n % radix ≡ n
  pub remainder : (n : ℕ) → n % radix < radix
  pub smaller : (n : ℕ) → n ≢ 0 → n / radix < n
  pub reads : (d : ℕ) → d < radix → to_digit radix (digit d) ≡ some d
  pub no_sign : (d : ℕ) → d < radix → digit d ≢ b'+'

pub ten : IsRadix 10
ten = record {
  recombine = λ n. omega arith;
  remainder = λ n. omega arith;
  smaller = λ n h. ground arith;
  reads = λ d h. ground arith;
  no_sign = λ d h. ground arith;
}

pub sixteen : IsRadix 16
sixteen = record {
  recombine = λ n. omega arith;
  remainder = λ n. omega arith;
  smaller = λ n h. ground arith;
  reads = λ d h. ground arith;
  no_sign = λ d h. ground arith;
}

module _ {radix : ℕ} (r : IsRadix radix) where
  push-digit :
      (n : ℕ)
      → n < u64_mod
      → push_digit radix (n / radix) (to_digit radix (digit (n % radix))) ≡ some n
  push-digit n fits = rw (r.reads (n % radix) (r.remainder n)) (rw (r.recombine n) (ground arith))

  scan-digit :
      (n : ℕ) (out : Text)
      → n < u64_mod
      → scan radix (digit (n % radix) ∷ out) (some (n / radix)) ≡ scan radix out (some n)
  unfolding scan
  scan-digit n out fits = ap (scan radix out) (push-digit n fits)

  scan-digits :
      (fuel n : ℕ) (out : Text)
      → n ≤ fuel
      → n < u64_mod
      → scan radix (digits radix fuel n out) (some 0) ≡ scan radix out (some n)
  unfolding digits
  scan-digits zero n out h fits = let e : n ≡ 0 = omega arith in rw e refl
  scan-digits (suc fuel) n out h fits = elim (Bool-cases (n == 0)) [
    | inl e ↦ let z : n ≡ 0 = ground arith in rw z refl
    | inr e ↦
        let less : n / radix < n = r.smaller n (ground arith) in
        rw e (
          scan-digits fuel (n / radix) (digit (n % radix) ∷ out) (omega arith) (omega arith)
          ∙ scan-digit n out fits)
  ]

  digits-zero : (fuel : ℕ) (out : Text) → digits radix fuel 0 out ≡ out
  unfolding digits
  digits-zero zero out = refl
  digits-zero (suc fuel) out = refl

  -- The digits of a positive number start with a digit that is not 0.
  pub digits-head :
      (fuel n : ℕ) (out : Text)
      → n ≤ fuel
      → n ≢ 0
      → (d : ℕ) × (rest : Text) × (digits radix fuel n out ≡ digit d ∷ rest) × (d < radix) × (d ≢ 0)
  unfolding digits
  digits-head zero n out h p = absurd (p (omega arith))
  digits-head (suc fuel) n out h p = elim (Bool-cases (n == 0)) [
    | inl e ↦ absurd (p (ground arith))
    | inr e ↦ rw e (elim (Bool-cases (n / radix == 0)) [
      | inl q ↦
          let z : n / radix ≡ 0 = ground arith in
          (
            n % radix,
            out,
            rw z (digits-zero fuel (digit (n % radix) ∷ out)),
            r.remainder n,
            λ e'. p (sym (r.recombine n) ∙ rw (z, e') (omega arith)),
          )
      | inr q ↦
          digits-head fuel (n / radix) (digit (n % radix) ∷ out) (omega (arith, r.smaller n p))
            (λ z. cc)
    ])
  ]

  to_text-head :
      (n : ℕ) → (d : ℕ) × (rest : Text) × (to_text radix n ≡ digit d ∷ rest) × (d < radix)
  unfolding to_text
  to_text-head n = elim (Bool-cases (n == 0)) [
    | inl e ↦ rw e (0, [], refl, omega (arith, r.remainder 0))
    | inr e ↦
        let (d, rest, q, lt, _) = digits-head n n [] (omega arith) (λ z. ground arith) in
        rw e (d, rest, q, lt)
  ]

  from_str_radix-scan :
      (s : Text) (d : ℕ) (rest : Text)
      → s ≡ digit d ∷ rest
      → d < radix
      → from_str_radix radix s ≡ scan radix s (some 0)
  unfolding from_str_radix
  from_str_radix-scan s d rest e lt = rw e (ground (arith, r.no_sign d lt))

  scan-to_text : (n : ℕ) → n < u64_mod → scan radix (to_text radix n) (some 0) ≡ some n
  unfolding to_text scan
  scan-to_text n fits = elim (Bool-cases (n == 0)) [
    | inl e ↦
        let z : n ≡ 0 = ground arith in
        let positive : 0 < radix = omega (arith, r.remainder 0) in rw z (ground arith)
    | inr e ↦ rw e (scan-digits n n [] (omega arith) fits)
  ]

  -- A number is read back from its text, as long as it fits.
  pub from_str_radix-to_text :
      (n : ℕ) → n < u64_mod → from_str_radix radix (to_text radix n) ≡ some n
  from_str_radix-to_text n fits =
      let (d, rest, e, lt) = to_text-head n in
      from_str_radix-scan (to_text radix n) d rest e lt ∙ scan-to_text n fits
