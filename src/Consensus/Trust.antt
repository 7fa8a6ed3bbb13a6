-- ===== src/Consensus/Trust.antt =====
-- The chain of trust of the light client: from the bootstrap, each sync committee vouches for the
-- next one and for the headers of its period. The relations say nothing of how the store is kept.
pub mod Periods
pub mod Moves
pub mod Invariant
pub mod Sync
use forcerelay_verifier.Prelude.{ℕ, ◌+◌, ◌≡◌, Option, some, true, List, ok}
use forcerelay_verifier.Common.{Bytes32}
use forcerelay_verifier.Config.Types.{Config}
use forcerelay_verifier.Consensus.Types.{Header, SyncCommittee, Bootstrap, GenericUpdate}
use forcerelay_verifier.Consensus.Primitives.{Primitives}
use forcerelay_verifier.Consensus.Utils.{
  calc_sync_period, is_finality_proof_valid, is_next_committee_proof_valid,
}
use forcerelay_verifier.Consensus.State.{ConsensusClient}
use forcerelay_verifier.Consensus.Verify.Spec.{IsSignedBy}

module _ ⦃lib : Primitives⦄ (config : Config) (root : Bootstrap) where
  -- `committee` is the committee of period `p`: that of the bootstrap, or one whose Merkle proof is
  -- against a header of the period before, which that period's committee signed.
  pub data Authentic : ℕ → SyncCommittee → Type 0 where
    trusted_committee :
        {p : ℕ} → p ≡ calc_sync_period root.header.slot → Authentic p root.current_sync_committee
    handover :
        {p : ℕ} {q : ℕ} {committee next : SyncCommittee}
        → Authentic p committee
        → (update : GenericUpdate) (branch : List Bytes32) → IsSignedBy config committee update
        → calc_sync_period update.attested_header.slot ≡ p
        → update.next_sync_committee ≡ some next
        → is_next_committee_proof_valid update.attested_header next branch ≡ ok true
        → q ≡ p + 1
        → Authentic q next

  -- The header is that of the bootstrap, or an authentic committee signed it in its own period, or
  -- it has a finality proof against such a header.
  pub data IsTrusted : Header → Type 0 where
    trusted_header : IsTrusted root.header
    attested :
        {committee : SyncCommittee} (update : GenericUpdate)
        → Authentic (calc_sync_period update.signature_slot) committee
        → IsSignedBy config committee update
        → IsTrusted update.attested_header
    finalized :
        {header : Header} (update : GenericUpdate) (branch : List Bytes32)
        → IsTrusted update.attested_header
        → is_finality_proof_valid update.attested_header header branch ≡ ok true
        → IsTrusted header

  -- What the store holds rests on the chain of trust, the committees at their periods.
  pub record IsAuthentic (client : ConsensusClient) : Type 0 where
    pub same_config : client.config ≡ config
    pub current :
        Authentic
          (calc_sync_period client.store.finalized_header.slot)
          client.store.current_sync_committee
    pub next :
        (committee : SyncCommittee)
        → client.store.next_sync_committee ≡ some committee
        → Authentic (calc_sync_period client.store.finalized_header.slot + 1) committee
    pub finalized : IsTrusted client.store.finalized_header
    pub optimistic : IsTrusted client.store.optimistic_header
