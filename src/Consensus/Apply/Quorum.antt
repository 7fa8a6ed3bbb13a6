-- ===== src/Consensus/Apply/Quorum.antt =====
-- How many members of the sync committee must sign before a header of the store changes.
use forcerelay_verifier.Prelude.{ℕ, ◌*◌, ◌/◌, ◌≤◌, ◌<◌, ◌≡◌, ◌⊎◌, inl, inr, true, some, arith, ok}
use forcerelay_verifier.Consensus.Types.{Header, GenericUpdate}
use forcerelay_verifier.Consensus.Primitives.{Primitives}
use forcerelay_verifier.Consensus.Utils.{get_bits}
use forcerelay_verifier.Consensus.State.{LightClientStore, ConsensusClient, safety_threshold}
use forcerelay_verifier.Consensus.Apply.{
  track_participation, should_apply_update, advance_optimistic, advance_finalized, apply_finality,
  apply_generic_update,
}
use forcerelay_verifier.Consensus.Apply.Slots.{
  advance_committees-headers, apply_finality-cases, apply_generic_update-parts,
}

abbrev pub signers : GenericUpdate → ℕ
signers update = get_bits update.sync_aggregate.sync_committee_bits

-- `header` is finalized by the update, with two thirds of the 512 members.
pub record IsFinalizedBy (update : GenericUpdate) (old header : Header) : Type 0 where
  pub majority : 1024 ≤ signers update * 3
  pub finalizes : update.finalized_header ≡ some header
  pub newer : old.slot < header.slot

-- `header` is attested by the update, with more than half of the highest participation of the
-- current and of the previous period.
pub record IsAttestedBy (update : GenericUpdate) (s : LightClientStore) (header : Header)
    : Type 0 where
  pub attests : update.attested_header ≡ header
  pub current : s.current_max_active_participants / 2 < signers update
  pub previous : s.previous_max_active_participants / 2 < signers update
  pub newer : s.optimistic_header.slot < header.slot

module _ ⦃lib : Primitives⦄ (update : GenericUpdate) where
  should_apply_update-majority :
      (s : LightClientStore) → should_apply_update update s ≡ true → 1024 ≤ signers update * 3
  unfolding should_apply_update
  should_apply_update-majority s e = ground arith

  abbrev FinalizedMove : ConsensusClient → ConsensusClient → Type 0
  FinalizedMove c d =
      ((d.store.finalized_header ≡ c.store.finalized_header)
        × (d.store.optimistic_header ≡ c.store.optimistic_header))
      ⊎ ((update.finalized_header ≡ some d.store.finalized_header)
          × (c.store.finalized_header.slot < d.store.finalized_header.slot)
          × ((d.store.optimistic_header ≡ c.store.optimistic_header)
              ⊎ (d.store.optimistic_header ≡ d.store.finalized_header)))

  advance_finalized-moves :
      (now : ℕ) (c : ConsensusClient) {d : ConsensusClient}
      → advance_finalized now update c ≡ ok d
      → FinalizedMove c d
  unfolding advance_finalized
  advance_finalized-moves now c e = ground arith

  abbrev QuorumMove : ConsensusClient → ConsensusClient → Type 0
  QuorumMove c d =
      ((d.store.finalized_header ≡ c.store.finalized_header)
        × (d.store.optimistic_header ≡ c.store.optimistic_header))
      ⊎ (IsFinalizedBy update c.store.finalized_header d.store.finalized_header
          × ((d.store.optimistic_header ≡ c.store.optimistic_header)
              ⊎ (d.store.optimistic_header ≡ d.store.finalized_header)))

  apply_finality-moves :
      (now : ℕ) (c : ConsensusClient) {d : ConsensusClient}
      → apply_finality now update c ≡ ok d
      → QuorumMove c d
  apply_finality-moves now c {d} e = elim (apply_finality-cases update now c e) [
    | inl (_, same) ↦ inl (rw same, rw same)
    | inr (s, b, p, q) ↦ ground (
      arith,
      should_apply_update-majority c.store b,
      advance_committees-headers update c.store p,
      advance_finalized-moves now (record c { store = s }) q,
    )
  ]

  advance_optimistic-moves :
      (now : ℕ) (c : ConsensusClient) {d : ConsensusClient}
      → advance_optimistic now update (record c { store = track_participation update c.store })
        ≡ ok d
      → (d.store.finalized_header ≡ c.store.finalized_header)
        × ((d.store.optimistic_header ≡ c.store.optimistic_header)
            ⊎ IsAttestedBy update c.store d.store.optimistic_header)
  unfolding advance_optimistic track_participation safety_threshold
  advance_optimistic-moves now c e = ground arith

  -- Where applying an update returns, the finalized header changes only to the newer one that the
  -- update finalizes, signed by two thirds of the committee; the optimistic header changes only to
  -- the newer attested one, signed by more than half of the highest recent participation, or
  -- together with the finalized header to it.
  pub apply_generic_update-quorum :
      (now now' : ℕ) (c : ConsensusClient) {d : ConsensusClient}
      → apply_generic_update now now' update c ≡ ok d
      → ((d.store.finalized_header ≡ c.store.finalized_header)
          ⊎ IsFinalizedBy update c.store.finalized_header d.store.finalized_header)
        × ((d.store.optimistic_header ≡ c.store.optimistic_header)
            ⊎ IsAttestedBy update c.store d.store.optimistic_header
            ⊎ ((d.store.optimistic_header ≡ d.store.finalized_header)
                × IsFinalizedBy update c.store.finalized_header d.store.finalized_header))
  apply_generic_update-quorum now now' c {d} e = go (apply_generic_update-parts update now now' c e)
    where
      go :
          ((m : ConsensusClient) × (advance_optimistic now update
                (record c { store = track_participation update c.store })
              ≡ ok m)
            × (apply_finality now' update m ≡ ok d))
          → ((d.store.finalized_header ≡ c.store.finalized_header)
              ⊎ IsFinalizedBy update c.store.finalized_header d.store.finalized_header)
            × ((d.store.optimistic_header ≡ c.store.optimistic_header)
                ⊎ IsAttestedBy update c.store d.store.optimistic_header
                ⊎ ((d.store.optimistic_header ≡ d.store.finalized_header)
                    × IsFinalizedBy update c.store.finalized_header d.store.finalized_header))
      go (m, p, q) = ground (arith, advance_optimistic-moves now c p, apply_finality-moves now' m q)
