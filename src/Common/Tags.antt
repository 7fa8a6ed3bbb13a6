-- ===== src/Common/Tags.antt =====
-- common/src/types.rs: `BlockTag` as text, its `Display` and its `Deserialize`.
pub mod RoundTrip
use forcerelay_verifier.Prelude.{
  ℕ, Option, none, some, if◌then◌else◌, bytes_eq, Outcome, ok, ok_or, ◌>>=◌,
}
use forcerelay_verifier.Common.{Text, BlockTag, latest, finalized, number, strip_prefix}
use forcerelay_verifier.Common.Numbers.{codes, to_text, from_str_radix}

-- an error of serde: the deserializer has no value of the type, or `D::Error::custom`
pub data DeError : Type 0 where
  no_value custom : DeError

abbrev pub Deserialized : Type 0 → Type 0
Deserialized A = Outcome DeError A

unfoldable pub display : BlockTag → Text
unfolding to_text
display latest = codes "latest"
display finalized = codes "finalized"
display (number num) = to_text 10 num

-- the digits after `0x`, or else all of them
abbrev parse_number : Text → Option Text → Option ℕ
unfolding from_str_radix
parse_number block (some hex_block) = from_str_radix 16 hex_block
parse_number block none = from_str_radix 10 block

-- `read` is the `String` that the deserializer gives
unfoldable pub deserialize : Deserialized Text → Deserialized BlockTag
unfolding parse_number
deserialize read = do
  block ← read
  if bytes_eq block (codes "latest")
      then ok latest
      else if bytes_eq block (codes "finalized")
      then ok finalized
      else (do num ← ok_or (parse_number block (strip_prefix block)) custom; ok (number num))
