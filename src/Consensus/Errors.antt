-- ===== src/Consensus/Errors.antt =====
-- consensus/src/errors.rs, and the one constructor for every other `eyre` error: a failed RPC
-- call, a failed Merkleization, a failed conversion.
use forcerelay_verifier.Prelude.{ℕ, Outcome}
use forcerelay_verifier.Common.{Text}

pub data ConsensusError : Type 0 where
  insufficient_participation invalid_timestamp invalid_period not_relevant : ConsensusError
  invalid_finality_proof invalid_next_sync_committee_proof : ConsensusError
  invalid_current_sync_committee_proof invalid_signature : ConsensusError
  invalid_header_hash : Text → Text → ConsensusError
  payload_not_found : ℕ → ConsensusError
  checkpoint_too_old incorrect_rpc_network : ConsensusError
  other : ConsensusError

-- `eyre::Result` in this crate
abbrev pub Result {ℓ} : Type ℓ → Type ℓ
Result A = Outcome ConsensusError A
