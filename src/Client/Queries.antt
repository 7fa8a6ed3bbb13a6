-- ===== src/Client/Queries.antt =====
-- client/src/client.rs: the queries of `Client`, each a call of the node under its lock.
use forcerelay_verifier.Prelude.{ℕ, Bool, Option, List, map_err}
use forcerelay_verifier.Common.{Bytes, BlockTag}
use forcerelay_verifier.Consensus.Types.{Header}
use forcerelay_verifier.Execution.Evm.{Revm}
use forcerelay_verifier.Execution.Primitives.{Primitives}
use forcerelay_verifier.Execution.Rpc.{ExecutionRpc}
use forcerelay_verifier.Execution.Types.{CallOpts, ExecutionBlock, FeeHistory}
use forcerelay_verifier.Client.Errors.{QueryResult, node_error}
use forcerelay_verifier.Client.Node.Queries
use forcerelay_verifier.Client.Node.Queries.{SyncingStatus}
use forcerelay_verifier.Client.Start.{Database, Client}

module _ {database : Database} (now : ℕ) (client : Client database) where
  unfoldable get_block_transaction_count_by_hash : Bytes → QueryResult ℕ
  get_block_transaction_count_by_hash hash =
      Queries.get_block_transaction_count_by_hash hash client.node

  unfoldable get_block_transaction_count_by_number : BlockTag → QueryResult ℕ
  get_block_transaction_count_by_number block =
      Queries.get_block_transaction_count_by_number block client.node

  unfoldable get_gas_price : QueryResult ℕ
  get_gas_price = Queries.get_gas_price now client.node

  unfoldable get_priority_fee : QueryResult ℕ
  get_priority_fee = Queries.get_priority_fee now client.node

  unfoldable get_block_number : QueryResult ℕ
  get_block_number = Queries.get_block_number now client.node

  unfoldable chain_id : ℕ
  chain_id = Queries.chain_id client.node

  unfoldable syncing : ℕ → ℕ → QueryResult SyncingStatus
  syncing now' now'' = Queries.syncing now now' now'' client.node

  unfoldable get_header : QueryResult Header
  get_header = Queries.get_header now client.node

  unfoldable get_coinbase : QueryResult Bytes
  get_coinbase = Queries.get_coinbase now client.node

module _ ⦃lib : Primitives⦄ {database : Database} (rpc : ExecutionRpc) (now : ℕ)
    (client : Client database) where
  unfoldable call : Revm → CallOpts → BlockTag → QueryResult Bytes
  call evm opts block = map_err (Queries.call rpc now client.node evm opts block) node_error

  unfoldable estimate_gas : Revm → CallOpts → QueryResult ℕ
  estimate_gas evm opts = map_err (Queries.estimate_gas rpc now client.node evm opts) node_error

  unfoldable get_balance : Bytes → BlockTag → QueryResult ℕ
  get_balance address block = Queries.get_balance rpc now client.node address block

  unfoldable get_nonce : Bytes → BlockTag → QueryResult ℕ
  get_nonce address block = Queries.get_nonce rpc now client.node address block

  unfoldable get_code : Bytes → BlockTag → QueryResult Bytes
  get_code address block = Queries.get_code rpc now client.node address block

  unfoldable get_storage_at : Bytes → Bytes → BlockTag → QueryResult ℕ
  get_storage_at address slot block = Queries.get_storage_at rpc now client.node address slot block

  unfoldable send_raw_transaction : Bytes → QueryResult Bytes
  send_raw_transaction bytes = Queries.send_raw_transaction rpc now client.node bytes

  unfoldable get_transaction_receipt : Bytes → QueryResult (Option lib.TransactionReceipt)
  get_transaction_receipt tx_hash = Queries.get_transaction_receipt rpc now client.node tx_hash

  unfoldable get_transaction_by_hash : Bytes → QueryResult (Option lib.Transaction)
  get_transaction_by_hash tx_hash = Queries.get_transaction_by_hash rpc now client.node tx_hash

  unfoldable get_logs : lib.Filter → QueryResult (List lib.Log)
  get_logs filter = Queries.get_logs rpc now client.node filter

  unfoldable get_fee_history : ℕ → ℕ → List lib.Float → QueryResult (Option FeeHistory)
  get_fee_history block_count last_block reward_percentiles =
      Queries.get_fee_history rpc now client.node block_count last_block reward_percentiles

  unfoldable get_block_by_number : BlockTag → Bool → QueryResult (Option ExecutionBlock)
  get_block_by_number block full_tx = Queries.get_block_by_number rpc now client.node block full_tx

  unfoldable get_block_by_hash : Bytes → Bool → QueryResult (Option ExecutionBlock)
  get_block_by_hash hash full_tx = Queries.get_block_by_hash rpc now client.node hash full_tx

  unfoldable get_transaction_by_block_hash_and_index :
      Bytes → ℕ → QueryResult (Option lib.Transaction)
  get_transaction_by_block_hash_and_index block_hash index =
      Queries.get_transaction_by_block_hash_and_index rpc now client.node block_hash index
