-- ===== src/Consensus/Trust/Moves.antt =====
-- What an update may change in the store: the committees, the optimistic and the finalized header.
use forcerelay_verifier.Prelude.{ℕ, ◌+◌, ◌≤◌, ◌<◌, ◌≡◌, ◌≢◌, ◌⊎◌, none, some, arith, ok}
use forcerelay_verifier.Consensus.Types.{GenericUpdate}
use forcerelay_verifier.Consensus.Primitives.{Primitives}
use forcerelay_verifier.Consensus.State.{LightClientStore, ConsensusClient}
use forcerelay_verifier.Consensus.Verify.{slot_or_zero}
use forcerelay_verifier.Consensus.Apply.{
  track_participation, advance_committees, advance_optimistic, advance_finalized,
}
use forcerelay_verifier.Consensus.Trust.Periods.{store_period, finalized_period}

-- The three ways through `advance_committees`.
abbrev pub CommitteeMove : GenericUpdate → LightClientStore → LightClientStore → Type 0
CommitteeMove u s t =
    ((s.next_sync_committee ≡ none)
      × (t.current_sync_committee ≡ s.current_sync_committee)
      × (t.next_sync_committee ≡ u.next_sync_committee))
    ⊎ ((s.next_sync_committee ≡ some t.current_sync_committee)
        × (finalized_period u ≡ store_period s + 1)
        × (t.next_sync_committee ≡ u.next_sync_committee))
    ⊎ ((finalized_period u ≢ store_period s + 1)
        × (t.current_sync_committee ≡ s.current_sync_committee)
        × (t.next_sync_committee ≡ s.next_sync_committee)
        × (s.next_sync_committee ≢ none))

pub advance_committees-moves :
    (u : GenericUpdate) (s : LightClientStore) {t : LightClientStore}
    → advance_committees u s ≡ ok t
    → CommitteeMove u s t
unfolding advance_committees
advance_committees-moves u s e = ground arith

-- What `advance_optimistic` and `advance_finalized` leave alone, and what they change.
abbrev pub OptimisticMove : GenericUpdate → ConsensusClient → ConsensusClient → Type 0
OptimisticMove u c d =
    (d.config ≡ c.config)
    × (d.store.finalized_header ≡ c.store.finalized_header)
    × (d.store.current_sync_committee ≡ c.store.current_sync_committee)
    × (d.store.next_sync_committee ≡ c.store.next_sync_committee)
    × ((d.store.optimistic_header ≡ c.store.optimistic_header)
        ⊎ (d.store.optimistic_header ≡ u.attested_header))

abbrev pub FinalizedMove : GenericUpdate → ConsensusClient → ConsensusClient → Type 0
FinalizedMove u c d =
    (d.config ≡ c.config)
    × (d.store.current_sync_committee ≡ c.store.current_sync_committee)
    × (d.store.next_sync_committee ≡ c.store.next_sync_committee)
    × ((d.store.optimistic_header ≡ c.store.optimistic_header)
        ⊎ (d.store.optimistic_header ≡ d.store.finalized_header))
    × (((d.store.finalized_header ≡ c.store.finalized_header)
          × (slot_or_zero u.finalized_header ≤ c.store.finalized_header.slot))
        ⊎ ((u.finalized_header ≡ some d.store.finalized_header)
            × (c.store.finalized_header.slot < d.store.finalized_header.slot)))

module _ ⦃lib : Primitives⦄ (u : GenericUpdate) (now : ℕ) (c : ConsensusClient) where
  pub advance_optimistic-move :
      {d : ConsensusClient}
      → advance_optimistic now u (record c { store = track_participation u c.store }) ≡ ok d
      → OptimisticMove u c d
  unfolding advance_optimistic track_participation
  advance_optimistic-move e = ground arith

  pub advance_finalized-move :
      {d : ConsensusClient} → advance_finalized now u c ≡ ok d → FinalizedMove u c d
  unfolding advance_finalized
  advance_finalized-move e = ground arith
