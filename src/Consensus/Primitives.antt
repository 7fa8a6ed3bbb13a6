-- ===== src/Consensus/Primitives.antt =====
-- What the consensus crate calls and does not implement: ssz_rs, milagro_bls, hex and chrono.
-- `none` is the error or the panic of the call. The two records are hashed by `utils.rs`.
use forcerelay_verifier.Prelude.{ℕ, Bool, Option, List}
use forcerelay_verifier.Common.{Bytes, Bytes32, Node, Text}
use forcerelay_verifier.Consensus.Types.{Header, SyncCommittee}
use forcerelay_verifier.Consensus.Blocks.{BeaconBlock}

pub record SigningData : Type 0 where
  pub object_root : Bytes32
  pub domain : Bytes32

pub record ForkData : Type 0 where
  pub current_version : Bytes
  pub genesis_validator_root : Bytes32

pub record Primitives : Type 1 where
  -- `hash_tree_root()` of each container
  pub header_root : Header → Option Node
  pub committee_root : SyncCommittee → Option Node
  pub block_root : BeaconBlock → Option Node
  pub signing_data_root : SigningData → Option Node
  pub fork_data_root : ForkData → Option Node
  -- `is_valid_merkle_branch(leaf, branch, depth, index, root)`
  pub is_valid_merkle_branch : Node → List Node → ℕ → ℕ → Node → Bool
  -- `Vector::<u8, N>::from_iter(bytes)`
  pub vector_from_iter : ℕ → Bytes → Option Bytes
  pub PublicKey : Type 0
  pub from_bytes_unchecked : Bytes → Option PublicKey
  pub AggregateSignature : Type 0
  pub signature_from_bytes : Bytes → Option AggregateSignature
  pub fast_aggregate_verify : AggregateSignature → Bytes → List PublicKey → Bool
  -- `hex::encode(bytes)`, and `to_string()` of a `Node`
  pub hex_encode : Bytes → Text
  pub node_to_string : Node → Text
  -- `chrono::Duration::from_std` of a whole number of seconds
  pub duration_from_std : ℕ → Option ℕ
