-- ===== src/Client/Errors.antt =====
-- client/src/errors.rs: `NodeError`, and the reports that the queries return.
use forcerelay_verifier.Prelude.{ℕ, Outcome}
use forcerelay_verifier.Common.{BlockTag}
use forcerelay_verifier.Consensus.Errors.{ConsensusError}
use forcerelay_verifier.Execution.Errors.{ExecutionError, EvmError}

pub data NodeError : Type 0 where
  execution_evm_error : EvmError → NodeError
  execution_error execution_payload_error execution_client_creation_error :
      ExecutionError → NodeError
  out_of_sync : ℕ → NodeError
  consensus_payload_error consensus_client_creation_error : ConsensusError → NodeError
  consensus_advance_error consensus_sync_error : ConsensusError → NodeError
  block_not_found_error : BlockTag → NodeError

-- an `eyre` report: one of the errors that `?` converts, or a message
pub data QueryError : Type 0 where
  node_error : NodeError → QueryError
  execution_failed : ExecutionError → QueryError
  block_not_found : BlockTag → QueryError
  message : QueryError

abbrev pub NodeResult : Type 0 → Type 0
NodeResult A = Outcome NodeError A

abbrev pub QueryResult : Type 0 → Type 0
QueryResult A = Outcome QueryError A
