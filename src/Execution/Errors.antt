-- ===== src/Execution/Errors.antt =====
-- execution/src/errors.rs: `ExecutionError`, and the one constructor for every other `eyre` error. An
-- invalid ratio of gas is kept as its block, without the two `f64`.
use forcerelay_verifier.Prelude.{ℕ, Option, none, Outcome, length, drop, ltb, if◌then◌else◌}
use forcerelay_verifier.Common.{Bytes, Text, BlockTag}

pub data ExecutionError : Type 0 where
  invalid_account_proof : Bytes → ExecutionError
  invalid_storage_proof : Bytes → Bytes → ExecutionError
  code_hash_mismatch : Bytes → Bytes → Bytes → ExecutionError
  receipt_root_mismatch missing_transaction no_receipt_for_transaction : Bytes → ExecutionError
  missing_log : Bytes → ℕ → ExecutionError
  too_many_logs_to_prove : ℕ → ℕ → ExecutionError
  incorrect_rpc_network : ExecutionError
  invalid_base_gas_fee : ℕ → ℕ → ℕ → ExecutionError
  invalid_gas_used_ratio : ℕ → ExecutionError
  block_not_found : ℕ → ExecutionError
  empty_execution_payload : ExecutionError
  invalid_block_range : ℕ → ℕ → ExecutionError
  other : ExecutionError

-- `eyre::Result` in this crate
abbrev pub Result {ℓ} : Type ℓ → Type ℓ
Result A = Outcome ExecutionError A

-- What a method of the proof database returns as a `Report`: an error of the client, the two errors of
-- common/src/errors.rs, or another message.
pub data Report : Type 0 where
  execution : ExecutionError → Report
  block_not_found_error : BlockTag → Report
  slot_not_found_error : Bytes → Report
  message : Report

-- revm's `Return` is the number of its variant, and a text of a `String` is left out.
pub data EvmError : Type 0 where
  revert : Option Bytes → EvmError
  generic : EvmError
  revm : ℕ → EvmError
  rpc_error : ExecutionError → EvmError

-- `EvmError::decode_revert_reason`, past the function selector; `string_decode` is `String::decode` of
-- ethers
unfoldable pub decode_revert_reason : (Bytes → Option Text) → Bytes → Option Text
decode_revert_reason string_decode reason =
    if ltb (length reason) 4 then none else string_decode (drop 4 reason)
