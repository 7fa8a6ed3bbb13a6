-- ===== src/Client/Rpc.antt =====
-- client/src/rpc.rs: the methods of the JSON-RPC server, each on the node that the server shares with
-- the client. `now` is a reading of the clock.
pub mod Errors
pub mod Answers
use forcerelay_verifier.Prelude.{
  ℕ, Bool, Option, none, some, List, [], ◌∷◌, ◌++◌, ◌==◌, if◌then◌else◌, Outcome, ok, map_err,
  unwrap, unwrap_ok, ok_or, ◌>>=◌,
}
use forcerelay_verifier.Common.{Bytes, Text, BlockTag, hex_str_to_bytes, strip_prefix, from_slice}
use forcerelay_verifier.Common.Numbers.{hex_prefix, to_text, u64_to_hex_string}
use forcerelay_verifier.Execution.Primitives.{Primitives}
use forcerelay_verifier.Execution.Types.{CallOpts, ExecutionBlock}
use forcerelay_verifier.Execution.Rpc.{ExecutionRpc}
use forcerelay_verifier.Execution.Evm.{Revm}
use forcerelay_verifier.Client.Node.{Node}
use forcerelay_verifier.Client.Node.Queries
use forcerelay_verifier.Client.Node.Queries.{SyncingStatus}
use forcerelay_verifier.Client.Rpc.Errors.{
  Formats, RpcResult, custom, convert_err, to_json_rpsee_error,
}

-- `trim_start_matches('0')`
unfoldable pub trim_start_zeros : Text → Text
trim_start_zeros [] = []
trim_start_zeros (c ∷ s) = if c == b'0' then trim_start_zeros s else c ∷ s

-- "0" for no digits
abbrev pub or_zero : Text → Text
or_zero [] = b'0' ∷ []
or_zero (c ∷ s) = c ∷ s

module _ (formats : Formats) where
  unfoldable pub format_hex : ℕ → RpcResult Text
  unfolding trim_start_zeros
  format_hex num = do
    stripped ← unwrap (strip_prefix (formats.encode_hex num))
    ok (hex_prefix ++ or_zero (trim_start_zeros stripped))

  -- `convert_err(Address::from_str(address))?` and `convert_err(hex_str_to_bytes(s))?`
  abbrev pub parse_address : Text → RpcResult Bytes
  parse_address address =
      ok_or (formats.address_from_str address) (custom (formats.address_error address))

  abbrev pub parse_bytes : Text → RpcResult Bytes
  unfolding hex_str_to_bytes
  parse_bytes s = ok_or (hex_str_to_bytes formats.hex_decode s) (custom (formats.hex_error s))

  -- `H256::from_slice` of the same
  abbrev pub parse_hash : Text → RpcResult Bytes
  unfolding hex_str_to_bytes
  parse_hash s = do bytes ← parse_bytes s; unwrap (from_slice 32 bytes)

  module _ (now : ℕ) (node : Node) where
    unfoldable pub get_block_transaction_count_by_hash : Text → RpcResult Text
    unfolding parse_bytes u64_to_hex_string
    get_block_transaction_count_by_hash s = do
      hash ← parse_bytes s
      count ←
          convert_err (Queries.get_block_transaction_count_by_hash hash node) formats.query_error
      ok (u64_to_hex_string count)

    unfoldable pub get_block_transaction_count_by_number : BlockTag → RpcResult Text
    unfolding u64_to_hex_string
    get_block_transaction_count_by_number block = do
      count ←
          convert_err (Queries.get_block_transaction_count_by_number block node) formats.query_error
      ok (u64_to_hex_string count)

    unfoldable pub chain_id : RpcResult Text
    unfolding u64_to_hex_string
    chain_id = ok (u64_to_hex_string (Queries.chain_id node))

    -- net_version
    unfoldable pub version : RpcResult Text
    unfolding to_text
    version = ok (to_text 10 (Queries.chain_id node))

    unfoldable pub gas_price : RpcResult Text
    unfolding format_hex
    gas_price = do
      price ← convert_err (Queries.get_gas_price now node) formats.query_error
      format_hex price

    unfoldable pub max_priority_fee_per_gas : RpcResult Text
    unfolding format_hex
    max_priority_fee_per_gas = do
      tip ← convert_err (Queries.get_priority_fee now node) formats.query_error
      format_hex tip

    unfoldable pub block_number : RpcResult Text
    unfolding u64_to_hex_string
    block_number = do
      num ← convert_err (Queries.get_block_number now node) formats.query_error
      ok (u64_to_hex_string num)

    unfoldable pub coinbase : RpcResult Bytes
    coinbase = unwrap_ok (Queries.get_coinbase now node)

    -- The other readings are those of the two later calls of the clock.
    unfoldable pub syncing : ℕ → ℕ → RpcResult SyncingStatus
    syncing now' now'' = convert_err (Queries.syncing now now' now'' node) formats.query_error

  module _ ⦃lib : Primitives⦄ (rpc : ExecutionRpc) (now : ℕ) (node : Node) where
    unfoldable pub get_balance : Text → BlockTag → RpcResult Text
    unfolding format_hex
    get_balance s block = do
      address ← parse_address s
      balance ← convert_err (Queries.get_balance rpc now node address block) formats.query_error
      format_hex balance

    unfoldable pub get_transaction_count : Text → BlockTag → RpcResult Text
    unfolding to_text
    get_transaction_count s block = do
      address ← parse_address s
      nonce ← convert_err (Queries.get_nonce rpc now node address block) formats.query_error
      ok (hex_prefix ++ to_text 16 nonce)

    unfoldable pub get_code : Text → BlockTag → RpcResult Text
    get_code s block = do
      address ← parse_address s
      code ← convert_err (Queries.get_code rpc now node address block) formats.query_error
      ok (hex_prefix ++ formats.hex_encode code)

    unfoldable pub get_storage_at : Text → Bytes → BlockTag → RpcResult Text
    unfolding format_hex
    get_storage_at s slot block = do
      address ← parse_address s
      storage ←
          convert_err (Queries.get_storage_at rpc now node address slot block) formats.query_error
      format_hex storage

    unfoldable pub call : Revm → CallOpts → BlockTag → RpcResult Text
    unfolding to_json_rpsee_error
    call evm opts block = do
      res ← map_err (Queries.call rpc now node evm opts block) (to_json_rpsee_error formats)
      ok (hex_prefix ++ formats.hex_encode res)

    unfoldable pub estimate_gas : Revm → CallOpts → RpcResult Text
    unfolding to_json_rpsee_error u64_to_hex_string
    estimate_gas evm opts = do
      gas ← map_err (Queries.estimate_gas rpc now node evm opts) (to_json_rpsee_error formats)
      ok (u64_to_hex_string gas)

    unfoldable pub get_block_by_number : BlockTag → Bool → RpcResult (Option ExecutionBlock)
    get_block_by_number block full_tx =
        convert_err (Queries.get_block_by_number rpc now node block full_tx) formats.query_error

    unfoldable pub get_block_by_hash : Text → Bool → RpcResult (Option ExecutionBlock)
    unfolding parse_bytes
    get_block_by_hash s full_tx = do
      hash ← parse_bytes s
      convert_err (Queries.get_block_by_hash rpc now node hash full_tx) formats.query_error

    -- The hash is answered without the prefix.
    unfoldable pub send_raw_transaction : Text → RpcResult Text
    unfolding parse_bytes
    send_raw_transaction s = do
      bytes ← parse_bytes s
      tx_hash ← convert_err (Queries.send_raw_transaction rpc now node bytes) formats.query_error
      ok (formats.hex_encode tx_hash)

    unfoldable pub get_transaction_receipt : Text → RpcResult (Option lib.TransactionReceipt)
    unfolding parse_hash
    get_transaction_receipt s = do
      hash ← parse_hash s
      convert_err (Queries.get_transaction_receipt rpc now node hash) formats.query_error

    unfoldable pub get_transaction_by_hash : Text → RpcResult (Option lib.Transaction)
    unfolding parse_hash
    get_transaction_by_hash s = do
      hash ← parse_hash s
      convert_err (Queries.get_transaction_by_hash rpc now node hash) formats.query_error

    unfoldable pub get_transaction_by_block_hash_and_index :
        Text → ℕ → RpcResult (Option lib.Transaction)
    unfolding parse_bytes
    get_transaction_by_block_hash_and_index s index = do
      hash ← parse_bytes s
      convert_err (Queries.get_transaction_by_block_hash_and_index rpc now node hash index)
          formats.query_error

    unfoldable pub get_logs : lib.Filter → RpcResult (List lib.Log)
    get_logs filter = convert_err (Queries.get_logs rpc now node filter) formats.query_error
