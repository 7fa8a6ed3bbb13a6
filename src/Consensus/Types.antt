-- ===== src/Consensus/Types.antt =====
-- consensus/src/types.rs: the SSZ containers of blocks and light-client messages. A `Vector<T, N>`,
-- `List<T, N>`, `Bitvector<N>` or `Bitlist<N>` is a list; a 256-bit number is a number.
use forcerelay_verifier.Prelude.{ℕ, Bool, Option, none, some, List}
use forcerelay_verifier.Common.{Bytes, Bytes32}

abbrev pub BlsPubKey : Type 0
BlsPubKey = Bytes

abbrev pub SignatureBytes : Type 0
SignatureBytes = Bytes

abbrev pub Address : Type 0
Address = Bytes

abbrev pub LogsBloom : Type 0
LogsBloom = Bytes

abbrev pub Transaction : Type 0
Transaction = Bytes

pub record Header : Type 0 where
  pub slot : ℕ
  pub proposer_index : ℕ
  pub parent_root : Bytes32
  pub state_root : Bytes32
  pub body_root : Bytes32

pub record SyncCommittee : Type 0 where
  pub pubkeys : List BlsPubKey
  pub aggregate_pubkey : BlsPubKey

pub record SyncAggregate : Type 0 where
  pub sync_committee_bits : List Bool
  pub sync_committee_signature : SignatureBytes

pub record Bootstrap : Type 0 where
  pub header : Header
  pub current_sync_committee : SyncCommittee
  pub current_sync_committee_branch : List Bytes32

pub record Update : Type 0 where
  pub attested_header : Header
  pub next_sync_committee : SyncCommittee
  pub next_sync_committee_branch : List Bytes32
  pub finalized_header : Header
  pub finality_branch : List Bytes32
  pub sync_aggregate : SyncAggregate
  pub signature_slot : ℕ

pub record FinalityUpdate : Type 0 where
  pub attested_header : Header
  pub finalized_header : Header
  pub finality_branch : List Bytes32
  pub sync_aggregate : SyncAggregate
  pub signature_slot : ℕ

pub record OptimisticUpdate : Type 0 where
  pub attested_header : Header
  pub sync_aggregate : SyncAggregate
  pub signature_slot : ℕ

pub record GenericUpdate : Type 0 where
  pub attested_header : Header
  pub sync_aggregate : SyncAggregate
  pub signature_slot : ℕ
  pub next_sync_committee : Option SyncCommittee
  pub next_sync_committee_branch : Option (List Bytes32)
  pub finalized_header : Option Header
  pub finality_branch : Option (List Bytes32)

-- `GenericUpdate::from`, one for each message
unfoldable pub from_update : Update → GenericUpdate
from_update update = record {
  attested_header = update.attested_header;
  sync_aggregate = update.sync_aggregate;
  signature_slot = update.signature_slot;
  next_sync_committee = some update.next_sync_committee;
  next_sync_committee_branch = some update.next_sync_committee_branch;
  finalized_header = some update.finalized_header;
  finality_branch = some update.finality_branch;
}

unfoldable pub from_finality_update : FinalityUpdate → GenericUpdate
from_finality_update update = record {
  attested_header = update.attested_header;
  sync_aggregate = update.sync_aggregate;
  signature_slot = update.signature_slot;
  next_sync_committee = none;
  next_sync_committee_branch = none;
  finalized_header = some update.finalized_header;
  finality_branch = some update.finality_branch;
}

unfoldable pub from_optimistic_update : OptimisticUpdate → GenericUpdate
from_optimistic_update update = record {
  attested_header = update.attested_header;
  sync_aggregate = update.sync_aggregate;
  signature_slot = update.signature_slot;
  next_sync_committee = none;
  next_sync_committee_branch = none;
  finalized_header = none;
  finality_branch = none;
}
