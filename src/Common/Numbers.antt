-- ===== src/Common/Numbers.antt =====
-- Numbers as text: the standard library's `{}` and `{:x}`, `u64::from_str_radix` and `str::parse`,
-- and with them u64_to_hex_string and address_to_hex_string of common/src/utils.rs.
pub mod Reading
use Prim.Native.Char.{code}
use Prim.Native.String
use Prim.Native.String.{String}
use forcerelay_verifier.Prelude.{
  ℕ, zero, suc, ◌+◌, ◌-◌, ◌*◌, ◌/◌, ◌%◌, Bool, Option, none, some, [], ◌∷◌, ◌++◌, ◌&&◌, ltb, leb,
  ◌==◌, if◌then◌else◌, u64_mod,
}
use forcerelay_verifier.Common.{Bytes, Text}

-- the bytes of a text
abbrev pub codes : String → Text
codes String.[] = []
codes (String.◌∷◌ c s) = code c ∷ codes s

abbrev pub digit : ℕ → ℕ
digit d = if ltb d 10 then b'0' + d else b'a' + (d - 10)

-- the digits of `n` in front of `out`, with `n` as the fuel: each step divides by the radix
unfoldable pub digits : ℕ → ℕ → ℕ → Text → Text
digits radix zero n out = out
digits radix (suc fuel) n out =
    let rest = digits radix fuel (n / radix) (digit (n % radix) ∷ out) in
    if n == 0 then out else rest

-- `{}` for the radix 10, `{:x}` for 16
unfoldable pub to_text : ℕ → ℕ → Text
unfolding digits
to_text radix n = if n == 0 then b'0' ∷ [] else digits radix n n []

-- `char::to_digit`
abbrev pub any_digit : ℕ → Option ℕ
any_digit c =
    if leb b'0' c && leb c b'9'
    then some (c - b'0')
    else if leb b'a' c && leb c b'z'
    then some (c - b'a' + 10)
    else if leb b'A' c && leb c b'Z'
    then some (c - b'A' + 10)
    else none

abbrev pub below : ℕ → Option ℕ → Option ℕ
below radix none = none
below radix (some d) = if ltb d radix then some d else none

abbrev pub to_digit : ℕ → ℕ → Option ℕ
to_digit radix c = below radix (any_digit c)

-- the value in `u64`, `none` where it does not fit
abbrev pub push_digit : ℕ → ℕ → Option ℕ → Option ℕ
push_digit radix n none = none
push_digit radix n (some d) = if ltb (n * radix + d) u64_mod then some (n * radix + d) else none

unfoldable pub scan : ℕ → Text → Option ℕ → Option ℕ
scan radix s none = none
scan radix [] (some n) = some n
scan radix (c ∷ s) (some n) = scan radix s (push_digit radix n (to_digit radix c))

abbrev pub scan_some : ℕ → Text → Option ℕ
scan_some radix [] = none
scan_some radix (c ∷ s) = scan radix (c ∷ s) (some 0)

-- `u64::from_str_radix`, and `str::parse::<u64>` for the radix 10: a leading `+` is allowed
unfoldable pub from_str_radix : ℕ → Text → Option ℕ
unfolding scan
from_str_radix radix [] = none
from_str_radix radix (c ∷ s) = if c == b'+' then scan_some radix s else scan_some radix (c ∷ s)

abbrev pub hex_prefix : Text
hex_prefix = b'0' ∷ b'x' ∷ []

unfoldable pub u64_to_hex_string : ℕ → Text
unfolding to_text
u64_to_hex_string val = hex_prefix ++ to_text 16 val

-- `hex_encode` is `hex::encode`
unfoldable pub address_to_hex_string : (Bytes → Text) → Bytes → Text
address_to_hex_string hex_encode address = hex_prefix ++ hex_encode address
