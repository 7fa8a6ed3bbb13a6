-- ===== src/Common.antt =====
-- common/src: byte strings, block tags and the conversions that every crate uses.
-- A byte is a number below 256; `Vec<u8>`, `&[u8]`, `H256`, `Node` and `Vector<u8, N>` are lists of
-- bytes, and the length that a type of fixed size promises is tested where the code converts.
-- A `String` is the list of its UTF-8 bytes.
pub mod Method
pub mod Numbers
pub mod Tags
pub mod Errors
use forcerelay_verifier.Prelude.{
  ℕ, Option, none, some, List, ◌∷◌, ◌&&◌, unwrap_or, leb, ◌==◌, if◌then◌else◌, length, take,
}

abbrev pub Bytes : Type 0
Bytes = List ℕ

abbrev pub Bytes32 : Type 0
Bytes32 = Bytes

-- ssz_rs's `Node`: the 32 bytes of a Merkle root
abbrev pub Node : Type 0
Node = Bytes

abbrev pub Text : Type 0
Text = List ℕ

pub data BlockTag : Type 0 where
  latest finalized : BlockTag
  number : ℕ → BlockTag

-- `bytes.as_slice().try_into::<[u8; 32]>()`, and `Vec::try_into::<Bytes32>()`: `none` is the error
unfoldable pub to_array32 : Bytes → Option Bytes
to_array32 bytes = if length bytes == 32 then some bytes else none

unfoldable pub bytes32_to_node : Bytes32 → Option Node
unfolding to_array32
bytes32_to_node bytes = to_array32 bytes

-- `bytes[..n]`: `none` is the panic of a slice out of range
unfoldable pub slice_to : ℕ → Bytes → Option Bytes
slice_to n bytes = if leb n (length bytes) then some (take n bytes) else none

-- `s.strip_prefix("0x")`
abbrev pub strip_prefix : Text → Option Text
strip_prefix (c ∷ d ∷ s) = if c == 0x30 && d == 0x78 then some s else none
strip_prefix s = none

-- `hex_decode` is `hex::decode`
unfoldable pub hex_str_to_bytes : (Text → Option Bytes) → Text → Option Bytes
hex_str_to_bytes hex_decode s = hex_decode (unwrap_or (strip_prefix s) s)

-- `H256::from_slice` and `Address::from_slice`: `none` is the panic on any other length
abbrev pub from_slice : ℕ → Bytes → Option Bytes
from_slice n bytes = if length bytes == n then some bytes else none
