-- ===== src/Execution/Rpc.antt =====
-- execution/src/rpc/mod.rs: the calls of an execution RPC that the client makes. An instance holds
-- what the server answers during one operation.
pub mod Http
pub mod Mock
use forcerelay_verifier.Prelude.{ℕ, Option, List}
use forcerelay_verifier.Common.{Bytes}
use forcerelay_verifier.Execution.Errors.{Result}
use forcerelay_verifier.Execution.Primitives.{Primitives, ProofResponse, AccessListItem}
use forcerelay_verifier.Execution.Types.{CallOpts, FeeHistory}

pub record ExecutionRpc ⦃lib : Primitives⦄ : Type 0 where
  pub get_proof : Bytes → List Bytes → ℕ → Result ProofResponse
  pub create_access_list : CallOpts → ℕ → Result (List AccessListItem)
  pub get_code : Bytes → ℕ → Result Bytes
  pub send_raw_transaction : Bytes → Result Bytes
  pub get_transaction_receipt : Bytes → Result (Option lib.TransactionReceipt)
  pub get_transaction : Bytes → Result (Option lib.Transaction)
  pub get_logs : lib.Filter → Result (List lib.Log)
  pub chain_id : Result ℕ
  pub get_fee_history : ℕ → ℕ → List lib.Float → Result FeeHistory
