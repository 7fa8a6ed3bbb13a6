-- ===== src/Execution/Serializers.antt =====
-- execution/src/types.rs: the functions that serde reads and writes fields by.
use forcerelay_verifier.Prelude.{ℕ, ◌≡◌, refl, Option, none, some, List, [], ◌++◌, map, unwrap_or}
use forcerelay_verifier.Common.{Bytes, Text, strip_prefix}
use forcerelay_verifier.Common.Numbers.{hex_prefix, u64_to_hex_string}
use forcerelay_verifier.Execution.Primitives.{Primitives}
use forcerelay_verifier.Execution.Types.{Transactions, hashes, full}

-- `hex_decode` is `hex::decode`, and the argument the field that serde has read
unfoldable pub bytes_deserialize : (Text → Option Bytes) → Option Text → Option Bytes
bytes_deserialize hex_decode (some bytes) =
    some (unwrap_or (hex_decode (unwrap_or (strip_prefix bytes) [])) [])
bytes_deserialize hex_decode none = none

-- `hex_encode` is `hex::encode`
unfoldable pub serialize_bytes : (Bytes → Text) → Bytes → Text
serialize_bytes hex_encode bytes = hex_prefix ++ hex_encode bytes

unfoldable pub serialize_u64_string : ℕ → Text
serialize_u64_string x = u64_to_hex_string x

-- `seq` ends a sequence of elements, and the other two write an element
unfoldable pub serialize_transactions {ℓ} :
    ⦃lib : Primitives⦄ {Json : Type ℓ}
    → (List Json → Json)
    → (Bytes → Json)
    → (lib.Transaction → Json)
    → Transactions
    → Json
serialize_transactions seq hash transaction (hashes txs) = seq (map hash txs)
serialize_transactions seq hash transaction (full txs) = seq (map transaction txs)

-- Bytes that are written are read back, when the hexadecimal decoder undoes the encoder on them.
pub bytes_deserialize-serialize_bytes :
    (hex_encode : Bytes → Text) (hex_decode : Text → Option Bytes) (bytes : Bytes)
    → hex_decode (hex_encode bytes) ≡ some bytes
    → bytes_deserialize hex_decode (some (serialize_bytes hex_encode bytes)) ≡ some bytes
unfolding bytes_deserialize serialize_bytes
bytes_deserialize-serialize_bytes hex_encode hex_decode bytes e = rw e refl

-- A field that does not start with `0x`, or that is not hexadecimal behind it, is read as no bytes.
pub bytes_deserialize-invalid :
    (hex_decode : Text → Option Bytes) (text : Text)
    → hex_decode [] ≡ some []
    → hex_decode (unwrap_or (strip_prefix text) []) ≡ none
    → bytes_deserialize hex_decode (some text) ≡ some []
unfolding bytes_deserialize
bytes_deserialize-invalid hex_decode text empty e = rw e refl
