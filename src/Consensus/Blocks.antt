-- ===== src/Consensus/Blocks.antt =====
-- consensus/src/types.rs: beacon blocks and execution payloads. `superstruct` makes of each of
-- `BeaconBlockBody` and `ExecutionPayload` an enum of a Bellatrix and a Capella struct.
pub mod Ssz
use forcerelay_verifier.Prelude.{ℕ, Bool, List}
use forcerelay_verifier.Common.{Bytes, Bytes32}
use forcerelay_verifier.Consensus.Types.{
  BlsPubKey, SignatureBytes, Address, LogsBloom, Transaction, SyncAggregate,
}

pub record Withdrawal : Type 0 where
  pub index : ℕ
  pub validator_index : ℕ
  pub address : Address
  pub amount : ℕ

-- the fields that both variants of `ExecutionPayload` have
pub record PayloadFields : Type 0 where
  pub parent_hash : Bytes32
  pub fee_recipient : Address
  pub state_root : Bytes32
  pub receipts_root : Bytes32
  pub logs_bloom : LogsBloom
  pub prev_randao : Bytes32
  pub block_number : ℕ
  pub gas_limit : ℕ
  pub gas_used : ℕ
  pub timestamp : ℕ
  pub extra_data : Bytes
  pub base_fee_per_gas : ℕ
  pub block_hash : Bytes32
  pub transactions : List Transaction

pub data ExecutionPayload : Type 0 where
  bellatrix : PayloadFields → ExecutionPayload
  capella : PayloadFields → List Withdrawal → ExecutionPayload

-- the accessors `payload.block_number()`, `payload.block_hash()` and so on
abbrev pub fields : ExecutionPayload → PayloadFields
fields (bellatrix f) = f
fields (capella f withdrawals) = f

pub record BeaconBlockHeader : Type 0 where
  pub slot : ℕ
  pub proposer_index : ℕ
  pub parent_root : Bytes32
  pub state_root : Bytes32
  pub body_root : Bytes32

pub record SignedBeaconBlockHeader : Type 0 where
  pub message : BeaconBlockHeader
  pub signature : SignatureBytes

pub record ProposerSlashing : Type 0 where
  pub signed_header_1 : SignedBeaconBlockHeader
  pub signed_header_2 : SignedBeaconBlockHeader

pub record Checkpoint : Type 0 where
  pub epoch : ℕ
  pub root : Bytes32

pub record AttestationData : Type 0 where
  pub slot : ℕ
  pub index : ℕ
  pub beacon_block_root : Bytes32
  pub source : Checkpoint
  pub target : Checkpoint

-- the field `data` is `attestation`, since `data` is a keyword
pub record IndexedAttestation : Type 0 where
  pub attesting_indices : List ℕ
  pub attestation : AttestationData
  pub signature : SignatureBytes

pub record AttesterSlashing : Type 0 where
  pub attestation_1 : IndexedAttestation
  pub attestation_2 : IndexedAttestation

pub record Attestation : Type 0 where
  pub aggregation_bits : List Bool
  pub attestation : AttestationData
  pub signature : SignatureBytes

pub record DepositData : Type 0 where
  pub pubkey : BlsPubKey
  pub withdrawal_credentials : Bytes32
  pub amount : ℕ
  pub signature : SignatureBytes

pub record Deposit : Type 0 where
  pub proof : List Bytes32
  pub deposit : DepositData

pub record VoluntaryExit : Type 0 where
  pub epoch : ℕ
  pub validator_index : ℕ

pub record SignedVoluntaryExit : Type 0 where
  pub message : VoluntaryExit
  pub signature : SignatureBytes

pub record Eth1Data : Type 0 where
  pub deposit_root : Bytes32
  pub deposit_count : ℕ
  pub block_hash : Bytes32

pub record BlsToExecutionChange : Type 0 where
  pub validator_index : ℕ
  pub from_bls_pubkey : BlsPubKey
  pub to_execution_address : Address

pub record SignedBlsToExecutionChange : Type 0 where
  pub message : BlsToExecutionChange
  pub signature : SignatureBytes

-- the fields that both variants of `BeaconBlockBody` have
pub record BodyFields : Type 0 where
  pub randao_reveal : SignatureBytes
  pub eth1_data : Eth1Data
  pub graffiti : Bytes32
  pub proposer_slashings : List ProposerSlashing
  pub attester_slashings : List AttesterSlashing
  pub attestations : List Attestation
  pub deposits : List Deposit
  pub voluntary_exits : List SignedVoluntaryExit
  pub sync_aggregate : SyncAggregate
  pub execution_payload : ExecutionPayload

pub data BeaconBlockBody : Type 0 where
  bellatrix : BodyFields → BeaconBlockBody
  capella : BodyFields → List SignedBlsToExecutionChange → BeaconBlockBody

-- the accessor `body.execution_payload()`
abbrev pub execution_payload : BeaconBlockBody → ExecutionPayload
execution_payload (BeaconBlockBody.bellatrix body) = body.execution_payload
execution_payload (BeaconBlockBody.capella body changes) = body.execution_payload

pub record BeaconBlock : Type 0 where
  pub slot : ℕ
  pub proposer_index : ℕ
  pub parent_root : Bytes32
  pub state_root : Bytes32
  pub body : BeaconBlockBody
