-- ===== src/Consensus/Apply.antt =====
-- consensus/src/consensus.rs: the changes that an update makes to the store. The two log lines read
-- the clock, and panic where the slot that they report begins later than that reading.
pub mod Slots
pub mod Quorum
use forcerelay_verifier.Prelude.{
  ℕ, ◌+◌, ◌*◌, ◌%◌, Bool, true, false, ◌&&◌, ◌||◌, Option, none, some, ◌==◌, leb, ltb, max,
  if◌then◌else◌, ok, ◌>>=◌, ◌>>◌, unwrap, is_some, is_none,
}
use forcerelay_verifier.Common.{Bytes}
use forcerelay_verifier.Consensus.Types.{
  Header, SyncCommittee, GenericUpdate, Update, FinalityUpdate, OptimisticUpdate, from_update,
  from_finality_update, from_optimistic_update,
}
use forcerelay_verifier.Consensus.Errors.{Result}
use forcerelay_verifier.Consensus.Primitives.{Primitives}
use forcerelay_verifier.Consensus.Utils.{calc_sync_period, get_bits}
use forcerelay_verifier.Consensus.State.{LightClientStore, ConsensusClient, age, safety_threshold}
use forcerelay_verifier.Consensus.Verify.{slot_or_zero}

unfoldable pub has_finality_update : GenericUpdate → Bool
has_finality_update update = is_some update.finalized_header && is_some update.finality_branch

unfoldable pub has_sync_update : GenericUpdate → Bool
has_sync_update update =
    is_some update.next_sync_committee && is_some update.next_sync_committee_branch

unfoldable pub track_participation : GenericUpdate → LightClientStore → LightClientStore
track_participation update store = record store {
  current_max_active_participants =
      max store.current_max_active_participants
        (get_bits update.sync_aggregate.sync_committee_bits);
}

unfoldable pub should_update_optimistic : GenericUpdate → LightClientStore → Bool
should_update_optimistic update store =
    ltb (safety_threshold store) (get_bits update.sync_aggregate.sync_committee_bits)
    && ltb store.optimistic_header.slot update.attested_header.slot

-- at least two thirds of the 512 members
unfoldable pub has_majority : GenericUpdate → Bool
has_majority update = leb (512 * 2) (get_bits update.sync_aggregate.sync_committee_bits * 3)

unfoldable pub should_apply_update : GenericUpdate → LightClientStore → Bool
unfolding has_finality_update has_sync_update has_majority
should_apply_update update store =
    let update_finalized_slot = slot_or_zero update.finalized_header in
    let update_has_finalized_next_committee =
      is_none store.next_sync_committee
      && has_sync_update update
      && has_finality_update update
      && calc_sync_period update_finalized_slot == calc_sync_period update.attested_header.slot in
    let update_is_newer = ltb store.finalized_header.slot update_finalized_slot in
    has_majority update && (update_is_newer || update_has_finalized_next_committee)

-- the committees of a new period
unfoldable pub rotate_committees : GenericUpdate → LightClientStore → Result LightClientStore
rotate_committees update store = do
  current ← unwrap store.next_sync_committee
  ok (record store {
    current_sync_committee = current;
    next_sync_committee = update.next_sync_committee;
    previous_max_active_participants = store.current_max_active_participants;
    current_max_active_participants = 0;
  })

unfoldable pub advance_committees : GenericUpdate → LightClientStore → Result LightClientStore
unfolding rotate_committees
advance_committees update store =
    if is_none store.next_sync_committee
    then ok (record store { next_sync_committee = update.next_sync_committee })
    else if calc_sync_period (slot_or_zero update.finalized_header)
        == calc_sync_period store.finalized_header.slot + 1
    then rotate_committees update store
    else ok store

module _ ⦃lib : Primitives⦄ where
  unfoldable pub advance_optimistic : ℕ → GenericUpdate → ConsensusClient → Result ConsensusClient
  unfolding should_update_optimistic
  advance_optimistic now update client =
      if should_update_optimistic update client.store
      then (do
        age client.config update.attested_header.slot now
        ok (record client {
          store = record client.store { optimistic_header = update.attested_header };
        }))
      else ok client

  -- the root of a finalized header at the start of an epoch is the next checkpoint
  unfoldable pub next_checkpoint : Header → Option Bytes → Option Bytes
  next_checkpoint header last =
      if header.slot % 32 == 0
      then elim (lib.header_root header) [ some checkpoint ↦ some checkpoint | none ↦ last ]
      else last

  unfoldable pub advance_finalized : ℕ → GenericUpdate → ConsensusClient → Result ConsensusClient
  unfolding next_checkpoint
  advance_finalized now update client =
      if ltb client.store.finalized_header.slot (slot_or_zero update.finalized_header)
      then (do
        header ← unwrap update.finalized_header
        age client.config header.slot now
        ok (record client {
          store = record client.store {
            finalized_header = header;
            optimistic_header =
                if ltb client.store.optimistic_header.slot header.slot
                then header
                else client.store.optimistic_header;
          };
          last_checkpoint = next_checkpoint header client.last_checkpoint;
        }))
      else ok client

  unfoldable pub apply_finality : ℕ → GenericUpdate → ConsensusClient → Result ConsensusClient
  unfolding should_apply_update advance_committees advance_finalized
  apply_finality now update client =
      if should_apply_update update client.store
      then (do
        store ← advance_committees update client.store
        advance_finalized now update (record client { store = store }))
      else ok client

  -- `now` and `now'` are the readings of the two log lines.
  unfoldable pub apply_generic_update :
      ℕ → ℕ → GenericUpdate → ConsensusClient → Result ConsensusClient
  unfolding track_participation advance_optimistic apply_finality
  apply_generic_update now now' update client = do
    tracked ← ok (record client { store = track_participation update client.store })
    advanced ← advance_optimistic now update tracked
    apply_finality now' update advanced

  unfoldable pub apply_update : ℕ → ℕ → Update → ConsensusClient → Result ConsensusClient
  apply_update now now' update client = apply_generic_update now now' (from_update update) client

  unfoldable pub apply_finality_update :
      ℕ → ℕ → FinalityUpdate → ConsensusClient → Result ConsensusClient
  apply_finality_update now now' update client =
      apply_generic_update now now' (from_finality_update update) client

  unfoldable pub apply_optimistic_update :
      ℕ → ℕ → OptimisticUpdate → ConsensusClient → Result ConsensusClient
  apply_optimistic_update now now' update client =
      apply_generic_update now now' (from_optimistic_update update) client
