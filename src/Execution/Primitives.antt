-- ===== src/Execution/Primitives.antt =====
-- What the execution crate calls and does not implement: keccak-256, RLP, the trie root of
-- triehash, and the types of ethers with what the code reads of them. `none` stands for the panic of
-- `decode_list` on bytes that are no RLP list of byte strings.
use forcerelay_verifier.Prelude.{ℕ, Bool, Option, List}
use forcerelay_verifier.Common.{Bytes, Text}

pub record Primitives : Type 1 where
  pub keccak256 : Bytes → Bytes
  -- revm's `KECCAK_EMPTY`
  pub keccak_empty : Bytes
  pub decode_list : Bytes → Option (List Bytes)
  -- an `RlpStream` with one list of byte strings
  pub encode_list : List Bytes → Bytes
  -- the byte string that an integer is appended as, and `encode` of an integer
  pub uint_bytes : ℕ → Bytes
  pub encode_uint : ℕ → Bytes
  -- `encode_hex` of an `H256`, and `hex::decode`
  pub encode_hex : Bytes → Text
  pub hex_decode : Text → Option Bytes
  pub ordered_trie_root : List Bytes → Bytes
  pub Transaction : Type 0
  pub transaction_block_number : Transaction → Option ℕ
  pub transaction_rlp : Transaction → Bytes
  pub Log : Type 0
  pub log_transaction_hash : Log → Option Bytes
  pub log_index : Log → Option ℕ
  pub log_rlp : Log → Bytes
  pub TransactionReceipt : Type 0
  pub receipt_eq : TransactionReceipt → TransactionReceipt → Bool
  pub receipt_block_number : TransactionReceipt → Option ℕ
  pub receipt_status : TransactionReceipt → Option ℕ
  pub receipt_cumulative_gas_used : TransactionReceipt → ℕ
  pub receipt_logs_bloom : TransactionReceipt → Bytes
  pub receipt_logs : TransactionReceipt → List Log
  pub receipt_transaction_type : TransactionReceipt → Option ℕ
  -- an `RlpStream` with one list of two integers, a byte string and a list of logs
  pub encode_receipt_list : ℕ → ℕ → Bytes → List Log → Bytes
  -- `H256::from_uint` and `U256::from_little_endian`
  pub h256_from_uint : ℕ → Bytes
  pub u256_from_little_endian : Bytes → ℕ
  -- an `f64`, its `==`, the rounding of a ratio to 12 decimals, and that of a quotient of two `u64`
  pub Float : Type 0
  pub float_eq : Float → Float → Bool
  pub round_ratio : Float → Float
  pub gas_ratio : ℕ → ℕ → Float
  pub Filter : Type 0
  pub filter_to_block : Filter → Option ℕ
  pub filter_from_block : Filter → Option ℕ
  pub filter_block_hash : Filter → Option Bytes
  pub filter_with_to_block : ℕ → Filter → Filter
  pub filter_with_from_block : ℕ → Filter → Filter

-- ethers' `AccessListItem`
pub record AccessListItem : Type 0 where
  pub address : Bytes
  pub storage_keys : List Bytes

-- ethers' `StorageProof` and `EIP1186ProofResponse`
pub record StorageProof : Type 0 where
  pub key : Bytes
  pub proof : List Bytes
  pub value : ℕ

pub record ProofResponse : Type 0 where
  pub account_proof : List Bytes
  pub balance : ℕ
  pub code_hash : Bytes
  pub nonce : ℕ
  pub storage_hash : Bytes
  pub storage_proof : List StorageProof
