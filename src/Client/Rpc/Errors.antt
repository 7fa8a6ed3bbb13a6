-- ===== src/Client/Rpc/Errors.antt =====
-- client/src/rpc.rs and errors.rs: the errors that the JSON-RPC server answers with.
use forcerelay_verifier.Prelude.{ℕ, Option, none, some, ◌++◌, Outcome, map_err}
use forcerelay_verifier.Common.{Bytes, Text}
use forcerelay_verifier.Common.Numbers.{codes, hex_prefix}
use forcerelay_verifier.Execution.Errors.{EvmError, revert, decode_revert_reason}
use forcerelay_verifier.Client.Errors.{NodeError, QueryError, execution_evm_error}

-- What the server calls to make and to read text, of ethers and hex, and the `Display` of errors.
pub record Formats : Type 0 where
  pub hex_encode : Bytes → Text
  pub hex_decode : Text → Option Bytes
  -- `U256::encode_hex`, `Address::from_str` and `String::decode` of ethers
  pub encode_hex : ℕ → Text
  pub address_from_str : Text → Option Bytes
  pub string_decode : Bytes → Option Text
  -- `to_string` of the errors; those of the two readers depend on what they read
  pub address_error : Text → Text
  pub hex_error : Text → Text
  pub query_error : QueryError → Text
  pub node_error : NodeError → Text
  pub evm_error : EvmError → Text

-- jsonrpsee's `Error::Custom`, and `Error::Call` with an error object
pub data RpcError : Type 0 where
  custom : Text → RpcError
  call_error : (number : ℕ) (message : Text) (attached : Option Text) → RpcError

abbrev pub RpcResult : Type 0 → Type 0
RpcResult A = Outcome RpcError A

-- `to_string` is that of the error
abbrev pub convert_err : {E A : Type 0} → Outcome E A → (E → Text) → RpcResult A
convert_err res to_string = map_err res (λ e. custom (to_string e))

module _ (formats : Formats) where
  abbrev pub with_reason : Text → Option Text → Text
  with_reason msg none = msg
  with_reason msg (some reason) = msg ++ (codes ": " ++ reason)

  abbrev pub revert_reason : Option Bytes → Option Text
  unfolding decode_revert_reason
  revert_reason none = none
  revert_reason (some output) = decode_revert_reason formats.string_decode output

  abbrev pub revert_output : Option Bytes → Option Text
  revert_output none = none
  revert_output (some output) = some (hex_prefix ++ formats.hex_encode output)

  unfoldable pub evm_json_rpsee_error : EvmError → RpcError
  unfolding revert_reason
  evm_json_rpsee_error (revert output) =
      call_error 3 (with_reason (codes "execution reverted") (revert_reason output))
        (revert_output output)
  evm_json_rpsee_error EvmError.generic = custom (formats.evm_error EvmError.generic)
  evm_json_rpsee_error (EvmError.revm reason) = custom (formats.evm_error (EvmError.revm reason))
  evm_json_rpsee_error (EvmError.rpc_error e) = custom (formats.evm_error (EvmError.rpc_error e))

  unfoldable pub to_json_rpsee_error : NodeError → RpcError
  unfolding evm_json_rpsee_error
  to_json_rpsee_error (execution_evm_error evm_err) = evm_json_rpsee_error evm_err
  to_json_rpsee_error (NodeError.execution_error e) =
      custom (formats.node_error (NodeError.execution_error e))
  to_json_rpsee_error (NodeError.execution_payload_error e) =
      custom (formats.node_error (NodeError.execution_payload_error e))
  to_json_rpsee_error (NodeError.execution_client_creation_error e) =
      custom (formats.node_error (NodeError.execution_client_creation_error e))
  to_json_rpsee_error (NodeError.out_of_sync slots) =
      custom (formats.node_error (NodeError.out_of_sync slots))
  to_json_rpsee_error (NodeError.consensus_payload_error e) =
      custom (formats.node_error (NodeError.consensus_payload_error e))
  to_json_rpsee_error (NodeError.consensus_client_creation_error e) =
      custom (formats.node_error (NodeError.consensus_client_creation_error e))
  to_json_rpsee_error (NodeError.consensus_advance_error e) =
      custom (formats.node_error (NodeError.consensus_advance_error e))
  to_json_rpsee_error (NodeError.consensus_sync_error e) =
      custom (formats.node_error (NodeError.consensus_sync_error e))
  to_json_rpsee_error (NodeError.block_not_found_error block) =
      custom (formats.node_error (NodeError.block_not_found_error block))
