-- ===== src/Execution/Rpc/Http.antt =====
-- execution/src/rpc/http_rpc.rs: the execution RPC over a provider of ethers, which is a parameter.
-- `none` is an error of the provider, which becomes an `RpcError` of the method.
use forcerelay_verifier.Prelude.{
  ℕ, ◌^◌, Option, some, List, unwrap_or, replicate, ltb, if◌then◌else◌, ok, panic, ok_or, ◌>>=◌,
}
use forcerelay_verifier.Common.{Bytes}
use forcerelay_verifier.Execution.Errors.{Result, other}
use forcerelay_verifier.Execution.Primitives.{Primitives, ProofResponse, AccessListItem}
use forcerelay_verifier.Execution.Rpc.{ExecutionRpc}
use forcerelay_verifier.Execution.Types.{CallOpts, FeeHistory}

-- the fields of ethers' `Eip1559TransactionRequest` that the code sets; the others are none
pub record Eip1559TransactionRequest : Type 0 where
  pub from : Option Bytes
  pub to : Option Bytes
  pub gas : Option ℕ
  pub value : Option ℕ
  pub call_data : Option Bytes
  pub max_priority_fee_per_gas : Option ℕ
  pub max_fee_per_gas : Option ℕ

pub record Provider ⦃lib : Primitives⦄ : Type 0 where
  pub get_proof : Bytes → List Bytes → ℕ → Option ProofResponse
  pub create_access_list : Eip1559TransactionRequest → ℕ → Option (List AccessListItem)
  pub get_code : Bytes → ℕ → Option Bytes
  -- the hash of the pending transaction
  pub send_raw_transaction : Bytes → Option Bytes
  pub get_transaction_receipt : Bytes → Option (Option lib.TransactionReceipt)
  pub get_transaction : Bytes → Option (Option lib.Transaction)
  pub get_logs : lib.Filter → Option (List lib.Log)
  pub get_chainid : Option ℕ
  pub fee_history : ℕ → ℕ → List lib.Float → Option FeeHistory

-- `Address::default()`
abbrev pub zero_address : Bytes
zero_address = replicate 20 0

-- A call costs nothing, has a limit of 100 million gas, and goes to the zero address by default.
unfoldable pub access_list_request : CallOpts → Eip1559TransactionRequest
access_list_request opts = record {
  from = opts.from;
  to = some (unwrap_or opts.to zero_address);
  gas = some (unwrap_or opts.gas 100_000_000);
  value = opts.value;
  call_data = opts.call_data;
  max_priority_fee_per_gas = some 0;
  max_fee_per_gas = some 0;
}

-- `U256::as_u64`, which panics on a number that does not fit
abbrev pub as_u64 : ℕ → Result ℕ
as_u64 n = if ltb n (2 ^ 64) then ok n else panic

-- `impl ExecutionRpc for HttpRpc`, while the server answers each request alike
unfoldable pub http_rpc : ⦃lib : Primitives⦄ → Provider → ExecutionRpc
unfolding access_list_request
http_rpc provider = record {
  get_proof = λ address slots block. ok_or (provider.get_proof address slots block) other;
  create_access_list =
      λ opts block. ok_or (provider.create_access_list (access_list_request opts) block) other;
  get_code = λ address block. ok_or (provider.get_code address block) other;
  send_raw_transaction = λ bytes. ok_or (provider.send_raw_transaction bytes) other;
  get_transaction_receipt = λ tx_hash. ok_or (provider.get_transaction_receipt tx_hash) other;
  get_transaction = λ tx_hash. ok_or (provider.get_transaction tx_hash) other;
  get_logs = λ filter. ok_or (provider.get_logs filter) other;
  chain_id = (do id ← ok_or provider.get_chainid other; as_u64 id);
  get_fee_history = λ block_count last_block reward_percentiles.
      ok_or (provider.fee_history block_count last_block reward_percentiles) other;
}
