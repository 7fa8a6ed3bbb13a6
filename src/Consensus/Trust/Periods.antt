-- ===== src/Consensus/Trust/Periods.antt =====
-- The sync periods of the slots of an acceptable update.
use forcerelay_verifier.Prelude.{ℕ, ◌+◌, ◌≤◌, arith}
use forcerelay_verifier.Consensus.Types.{SyncCommittee, GenericUpdate}
use forcerelay_verifier.Consensus.Primitives.{Primitives}
use forcerelay_verifier.Consensus.Utils.{calc_sync_period}
use forcerelay_verifier.Consensus.State.{LightClientStore, ConsensusClient}
use forcerelay_verifier.Consensus.Verify.{slot_or_zero}
use forcerelay_verifier.Consensus.Verify.Spec.{IsAcceptable}

pub calc_sync_period_mono : (a b : ℕ) → a ≤ b → calc_sync_period a ≤ calc_sync_period b
unfolding calc_sync_period
calc_sync_period_mono a b h = omega arith

abbrev pub store_period : LightClientStore → ℕ
store_period s = calc_sync_period s.finalized_header.slot

abbrev pub attested_period : GenericUpdate → ℕ
attested_period u = calc_sync_period u.attested_header.slot

abbrev pub finalized_period : GenericUpdate → ℕ
finalized_period u = calc_sync_period (slot_or_zero u.finalized_header)

abbrev pub signature_period : GenericUpdate → ℕ
signature_period u = calc_sync_period u.signature_slot

-- The periods of an acceptable update lie in order.
pub periods_ordered :
    ⦃lib : Primitives⦄ {client : ConsensusClient} {now : ℕ} {u : GenericUpdate}
    {committee : SyncCommittee}
    → IsAcceptable client now u committee
    → (finalized_period u ≤ attested_period u)
      × (attested_period u ≤ signature_period u)
      × (store_period client.store ≤ attested_period u)
      × (signature_period u ≤ store_period client.store + 1)
unfolding calc_sync_period
periods_ordered {client} {now} {u} a = omega (
  arith,
  calc_sync_period_mono (slot_or_zero u.finalized_header) u.attested_header.slot,
  calc_sync_period_mono u.attested_header.slot u.signature_slot,
  calc_sync_period_mono client.store.finalized_header.slot u.attested_header.slot,
  a.timely.finalized_before,
  a.timely.signed_after,
  a.relevant,
  a.committee_for,
)
