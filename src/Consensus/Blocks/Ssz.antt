-- ===== src/Consensus/Blocks/Ssz.antt =====
-- consensus/src/types.rs: the traits of ssz_rs and `Default` for the enums of blocks and payloads,
-- which hand each call on to the variant. What ssz_rs derives for a variant is a parameter; `none` is
-- its error.
use forcerelay_verifier.Prelude.{ℕ, Bool, true, Option, List, Outcome, panic}
use forcerelay_verifier.Common.{Bytes, Node}
use forcerelay_verifier.Consensus.Blocks.{
  BodyFields, BeaconBlockBody, SignedBlsToExecutionChange, PayloadFields, ExecutionPayload,
  Withdrawal,
}

-- what is derived for the two structs of an enum, where Capella has one more list
pub record Variants (Fields Extra : Type 0) : Type 0 where
  pub bellatrix_root : Fields → Option Node
  pub capella_root : Fields → List Extra → Option Node
  -- the number of bytes that were written, and the buffer
  pub bellatrix_serialize : Fields → Bytes → Option (ℕ × Bytes)
  pub capella_serialize : Fields → List Extra → Bytes → Option (ℕ × Bytes)
  pub bellatrix_default : Fields

-- `is_variable_size()` and `size_hint()` of both enums
abbrev pub is_variable_size : Bool
is_variable_size = true

abbrev pub size_hint : ℕ
size_hint = 0

-- `deserialize(encoding)` of both enums
unfoldable pub ssz_deserialize : {E A : Type 0} → Bytes → Outcome E A
ssz_deserialize encoding = panic

module _ (ssz : Variants BodyFields SignedBlsToExecutionChange) where
  unfoldable pub body_hash_tree_root : BeaconBlockBody → Option Node
  body_hash_tree_root (BeaconBlockBody.bellatrix body) = ssz.bellatrix_root body
  body_hash_tree_root (BeaconBlockBody.capella body changes) = ssz.capella_root body changes

  unfoldable pub body_serialize : BeaconBlockBody → Bytes → Option (ℕ × Bytes)
  body_serialize (BeaconBlockBody.bellatrix body) buffer = ssz.bellatrix_serialize body buffer
  body_serialize (BeaconBlockBody.capella body changes) buffer =
      ssz.capella_serialize body changes buffer

  unfoldable pub body_default : BeaconBlockBody
  body_default = BeaconBlockBody.bellatrix ssz.bellatrix_default

module _ (ssz : Variants PayloadFields Withdrawal) where
  unfoldable pub payload_hash_tree_root : ExecutionPayload → Option Node
  payload_hash_tree_root (ExecutionPayload.bellatrix payload) = ssz.bellatrix_root payload
  payload_hash_tree_root (ExecutionPayload.capella payload withdrawals) =
      ssz.capella_root payload withdrawals

  unfoldable pub payload_serialize : ExecutionPayload → Bytes → Option (ℕ × Bytes)
  payload_serialize (ExecutionPayload.bellatrix payload) buffer =
      ssz.bellatrix_serialize payload buffer
  payload_serialize (ExecutionPayload.capella payload withdrawals) buffer =
      ssz.capella_serialize payload withdrawals buffer

  unfoldable pub payload_default : ExecutionPayload
  payload_default = ExecutionPayload.bellatrix ssz.bellatrix_default
