-- ===== src/Consensus/Deserialize.antt =====
-- consensus/src/types.rs: the functions that serde calls to read a field of a message. `read` is what
-- the deserializer gives for the type that the function asks for.
pub mod Laws
use forcerelay_verifier.Prelude.{
  ℕ, ◌≤◌, Bool, true, false, Option, none, some, List, [], ◌∷◌, map, length, leb, ◌==◌,
  if◌then◌else◌, Outcome, ok, err, panic, ok_or, unwrap, ◌>>=◌,
}
use forcerelay_verifier.Common.{Bytes, Bytes32, Text, hex_str_to_bytes, strip_prefix}
use forcerelay_verifier.Common.Numbers.{from_str_radix}
use forcerelay_verifier.Common.Tags.{DeError, custom, Deserialized}
use forcerelay_verifier.Consensus.Types.{
  Header, BlsPubKey, SignatureBytes, Address, LogsBloom, Transaction,
}

-- hex, ssz_rs and ethers; `none` is an error of `decode` and `from_dec_str`, and the panic of a
-- `from_iter`, whose first argument is the length of the type.
pub record Readers : Type 0 where
  pub decode : Text → Option Bytes
  pub vector_from_iter : ℕ → Bytes → Option Bytes
  pub vectors_from_iter : ℕ → List Bytes → Option (List Bytes)
  pub list_from_iter : ℕ → Bytes → Option Bytes
  pub lists_from_iter : ℕ → List Bytes → Option (List Bytes)
  pub indices_from_iter : ℕ → List ℕ → Option (List ℕ)
  pub from_dec_str : Text → Option ℕ
  pub to_little_endian : ℕ → Bytes
  pub from_bytes_le : Bytes → ℕ

-- The items before the first error, and whether there is none: what `collect` into a `Result` hands
-- to the `from_iter` of the collection.
unfoldable pub before_error : {A : Type 0} → List (Deserialized A) → Deserialized (List A × Bool)
before_error [] = ok ([], true)
before_error (ok a ∷ items) = do (rest, complete) ← before_error items; ok (a ∷ rest, complete)
before_error (err e ∷ items) = ok ([], false)
before_error (panic ∷ items) = panic

-- `collect::<Result<_>>().map_err(D::Error::custom)`, and a plain `collect` of items without errors
unfoldable pub collect :
    {A B : Type 0} → (List A → Option B) → List (Deserialized A) → Deserialized B
unfolding before_error
collect from_iter items = do
  (collected, complete) ← before_error items
  elements ← unwrap (from_iter collected)
  if complete then ok elements else err custom

-- `u64` of a text in decimal; what cannot be read is a panic
unfoldable pub u64_deserialize : Deserialized Text → Deserialized ℕ
unfolding from_str_radix
u64_deserialize read = do val ← read; unwrap (from_str_radix 10 val)

module _ (lib : Readers) where
  unfoldable pub vector_of_hex : ℕ → Text → Deserialized Bytes
  unfolding hex_str_to_bytes
  vector_of_hex n text = do
    bytes ← ok_or (hex_str_to_bytes lib.decode text) custom
    unwrap (lib.vector_from_iter n bytes)

  unfoldable pub pubkey_deserialize : Deserialized Text → Deserialized BlsPubKey
  unfolding vector_of_hex
  pubkey_deserialize read = do key ← read; vector_of_hex 48 key

  unfoldable pub pubkeys_deserialize : Deserialized (List Text) → Deserialized (List BlsPubKey)
  unfolding vector_of_hex collect
  pubkeys_deserialize read = do
    keys ← read
    collect (lib.vectors_from_iter 512) (map (vector_of_hex 48) keys)

  unfoldable pub bytes_vector_deserialize : Deserialized (List Text) → Deserialized (List Bytes32)
  unfolding vector_of_hex collect
  bytes_vector_deserialize read = do
    elems ← read
    collect (lib.vectors_from_iter 33) (map (vector_of_hex 32) elems)

  unfoldable pub signature_deserialize : Deserialized Text → Deserialized SignatureBytes
  unfolding vector_of_hex
  signature_deserialize read = do sig ← read; vector_of_hex 96 sig

  unfoldable pub branch_deserialize : Deserialized (List Text) → Deserialized (List Bytes32)
  unfolding vector_of_hex collect
  branch_deserialize read = do branch ← read; collect some (map (vector_of_hex 32) branch)

  unfoldable pub u256_deserialize : Deserialized Text → Deserialized ℕ
  u256_deserialize read = do
    val ← read
    x ← ok_or (lib.from_dec_str val) custom
    ok (lib.from_bytes_le (lib.to_little_endian x))

  -- The bytes behind the prefix, converted to the type by `try_into`, which tests their length. What
  -- is not of this form is a panic.
  unfoldable pub converted : (ℕ → Bool) → Deserialized Text → Deserialized Bytes
  converted fits read = do
    text ← read
    digits ← unwrap (strip_prefix text)
    bytes ← unwrap (lib.decode digits)
    if fits (length bytes) then ok bytes else panic

  unfoldable pub bytes32_deserialize : Deserialized Text → Deserialized Bytes32
  unfolding converted
  bytes32_deserialize = converted (λ n. n == 32)

  unfoldable pub logs_bloom_deserialize : Deserialized Text → Deserialized LogsBloom
  unfolding converted
  logs_bloom_deserialize = converted (λ n. n == 256)

  unfoldable pub address_deserialize : Deserialized Text → Deserialized Address
  unfolding converted
  address_deserialize = converted (λ n. n == 20)

  unfoldable pub extra_data_deserialize : Deserialized Text → Deserialized Bytes
  unfolding converted
  extra_data_deserialize = converted (λ n. leb n 32)

  -- the bytes of a transaction
  unfoldable pub transaction_of_hex : Text → Deserialized Transaction
  unfolding hex_str_to_bytes
  transaction_of_hex text = do
    tx ← unwrap (hex_str_to_bytes lib.decode text)
    unwrap (lib.list_from_iter 1073741824 tx)

  unfoldable pub transactions_deserialize :
      Deserialized (List Text) → Deserialized (List Transaction)
  unfolding transaction_of_hex collect
  transactions_deserialize read = do
    transactions ← read
    collect (lib.lists_from_iter 1048576) (map transaction_of_hex transactions)

  unfoldable pub attesting_indices_deserialize : Deserialized (List Text) → Deserialized (List ℕ)
  unfolding from_str_radix collect
  attesting_indices_deserialize read = do
    attesting_indices ← read
    collect (lib.indices_from_iter 2048) (map (λ i. unwrap (from_str_radix 10 i)) attesting_indices)

pub record Beacon : Type 0 where
  pub beacon : Header

pub data LightClientHeader : Type 0 where
  unwrapped : Header → LightClientHeader
  wrapped : Beacon → LightClientHeader

-- the header of either form
abbrev pub inner_header : LightClientHeader → Header
inner_header (unwrapped header) = header
inner_header (wrapped header) = header.beacon

unfoldable pub header_deserialize : Deserialized LightClientHeader → Deserialized Header
header_deserialize read = do header ← read; ok (inner_header header)
