-- ===== src/Common/Tags/RoundTrip.antt =====
-- A block tag is read back from its text.
use forcerelay_verifier.Prelude.{
  ℕ, zero, suc, ◌/◌, ◌%◌, ◌≤◌, ◌<◌, ◌≡◌, refl, false, none, [], ◌∷◌, All, ◌==◌, u64_mod, arith,
  bytes_eq, ok, Bool-cases, inl, inr,
}
use forcerelay_verifier.Common.{Text, BlockTag, latest, finalized, number, strip_prefix}
use forcerelay_verifier.Common.Numbers.{codes, digits, to_text, u64_to_hex_string, digit}
use forcerelay_verifier.Common.Numbers.Reading.{ten, sixteen, from_str_radix-to_text}
use forcerelay_verifier.Common.Tags.{display, deserialize}

abbrev IsDecimal : Text → Type 0
IsDecimal = All (λ c. c ≤ b'9')

digits-IsDecimal : (fuel n : ℕ) (out : Text) → IsDecimal out → IsDecimal (digits 10 fuel n out)
unfolding digits
digits-IsDecimal zero n out h = h
digits-IsDecimal (suc fuel) n out h = elim (Bool-cases (n == 0)) [
  | inl e ↦ rw e h
  | inr e ↦ rw e (digits-IsDecimal fuel (n / 10) (digit (n % 10) ∷ out) (ground arith, h))
]

to_text-IsDecimal : (n : ℕ) → IsDecimal (to_text 10 n)
unfolding to_text
to_text-IsDecimal n = elim (Bool-cases (n == 0)) [
  | inl e ↦ rw e (omega arith, tt)
  | inr e ↦ rw e (digits-IsDecimal n n [] tt)
]

-- no text of digits is a name or has the prefix
IsDecimal-plain :
    (s : Text)
    → IsDecimal s
    → (bytes_eq s (codes "latest") ≡ false)
      × (bytes_eq s (codes "finalized") ≡ false)
      × (strip_prefix s ≡ none)
unfolding bytes_eq
IsDecimal-plain [] h = (refl, refl, refl)
IsDecimal-plain (c ∷ []) h = (ground arith, ground arith, refl)
IsDecimal-plain (c ∷ d ∷ s) h = (ground arith, ground arith, ground arith)

abbrev pub Fits : BlockTag → Type 0
Fits latest = Unit
Fits finalized = Unit
Fits (number num) = num < u64_mod

-- A block tag is read back from what `Display` writes, when its number is a `u64`.
pub deserialize-display : (tag : BlockTag) → Fits tag → deserialize (ok (display tag)) ≡ ok tag
unfolding deserialize display bytes_eq
deserialize-display latest fits = refl
deserialize-display finalized fits = refl
deserialize-display (number num) fits =
    let (a, b, c) = IsDecimal-plain (to_text 10 num) (to_text-IsDecimal num) in
    rw (a, b, c, from_str_radix-to_text ten num fits) refl

-- So it is from the hexadecimal text that the JSON-RPC server writes for a `u64`.
pub deserialize-u64_to_hex_string :
    (num : ℕ) → num < u64_mod → deserialize (ok (u64_to_hex_string num)) ≡ ok (number num)
unfolding deserialize u64_to_hex_string bytes_eq
deserialize-u64_to_hex_string num fits = rw (from_str_radix-to_text sixteen num fits) refl
