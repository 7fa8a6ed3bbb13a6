-- ===== src/Client/Node/Queries.antt =====
-- client/src/node.rs: the queries, which read the node and ask the RPC of the execution client.
-- `now` is a reading of the clock.
use forcerelay_verifier.Prelude.{
  ℕ, ◌+◌, ◌^◌, ◌/◌, Bool, Option, none, some, List, [], ◌∷◌, BTreeMap, lookup, hash_get,
  last_key_value, bytes_eq, length, ltb, leb, sub64, if◌then◌else◌, Outcome, ok, err, panic, guard,
  ok_or, unwrap, map_err, ◌>>=◌, ◌>>◌,
}
use forcerelay_verifier.Common.{Bytes, BlockTag, latest, finalized, number, from_slice}
use forcerelay_verifier.Consensus.Errors as ConsensusErrors
use forcerelay_verifier.Consensus.Types.{Header}
use forcerelay_verifier.Consensus.Blocks.{ExecutionPayload, fields}
use forcerelay_verifier.Consensus.State.{expected_current_slot}
use forcerelay_verifier.Consensus.State
use forcerelay_verifier.Execution.Errors.{EvmError}
use forcerelay_verifier.Execution.Primitives.{Primitives}
use forcerelay_verifier.Execution.Types.{CallOpts, ExecutionBlock, FeeHistory}
use forcerelay_verifier.Execution.Rpc.{ExecutionRpc}
use forcerelay_verifier.Execution.Client
use forcerelay_verifier.Execution.Client.Logs
use forcerelay_verifier.Execution.Client.Blocks
use forcerelay_verifier.Execution.Client.Fees
use forcerelay_verifier.Execution.Evm.{Revm}
use forcerelay_verifier.Execution.Evm.Database
use forcerelay_verifier.Execution.Evm.Database.{proof_db}
use forcerelay_verifier.Client.Errors.{
  NodeResult, QueryResult, execution_evm_error, out_of_sync, block_not_found_error, node_error,
  execution_failed, block_not_found, message,
}
use forcerelay_verifier.Client.Node.{Node}

-- The clock arithmetic of the consensus client returns or panics.
abbrev pub by_clock {ι} : {E : Type ι} {A : Type 0} → ConsensusErrors.Result A → Outcome E A
by_clock (ok a) = ok a
by_clock (err e) = panic
by_clock panic = panic

-- `Duration::to_std().unwrap()` of a number of seconds, which a `chrono` duration holds as `i64`
-- milliseconds
unfoldable pub duration_until_next_update : Node → ℕ → ℕ → NodeResult ℕ
unfolding State.duration_until_next_update
duration_until_next_update node now now' = do
  seconds ← by_clock (State.duration_until_next_update node.consensus.config now now')
  if leb seconds (0x7fffffffffffffff / 1000) then ok seconds else panic

unfoldable pub check_head_age : ℕ → Node → NodeResult (Unit {0})
unfolding expected_current_slot
check_head_age now node = do
  expected_slot ← by_clock (expected_current_slot node.consensus.config now)
  let slot_delay = sub64 expected_slot node.consensus.store.optimistic_header.slot
  guard (leb slot_delay 10) (out_of_sync slot_delay)

unfoldable pub check_blocktag_age : ℕ → BlockTag → Node → NodeResult (Unit {0})
unfolding check_head_age
check_blocktag_age now latest node = check_head_age now node
check_blocktag_age now finalized node = ok tt
check_blocktag_age now (number num) node = ok tt

-- the payload of an entry
abbrev pub entry_payload : Option (ℕ × ExecutionPayload) → Option ExecutionPayload
entry_payload none = none
entry_payload (some (num, payload)) = some payload

unfoldable pub get_payload : BlockTag → Node → Outcome BlockTag ExecutionPayload
get_payload latest node = ok_or (entry_payload (last_key_value node.payloads)) latest
get_payload finalized node =
    ok_or (entry_payload (last_key_value node.finalized_payloads)) finalized
get_payload (number num) node = ok_or (lookup num node.payloads) (number num)

-- the first entry with the block hash, in the order of the keys
unfoldable pub find_by_hash : Bytes → BTreeMap ExecutionPayload → Option (ℕ × ExecutionPayload)
find_by_hash hash [] = none
find_by_hash hash ((num, payload) ∷ payloads) =
    if bytes_eq (fields payload).block_hash hash
    then some (num, payload)
    else find_by_hash hash payloads

unfoldable pub get_payload_by_hash : Bytes → Node → QueryResult (ℕ × ExecutionPayload)
unfolding find_by_hash
get_payload_by_hash hash node = ok_or (find_by_hash hash node.payloads) message

unfoldable pub chain_id : Node → ℕ
chain_id node = node.config.chain.chain_id

-- 1 gwei
abbrev pub tip : ℕ
tip = 1000000000

-- the sum of two `U256`, which panics on overflow
abbrev pub add256 {ι} : {E : Type ι} → ℕ → ℕ → Outcome E ℕ
add256 a b = if ltb (a + b) (2 ^ 256) then ok (a + b) else panic

pub data SyncingStatus : Type 0 where
  is_false : SyncingStatus
  is_syncing : (current_block highest_block starting_block : ℕ) → SyncingStatus

module _ (now : ℕ) (node : Node) where
  -- `self.check_blocktag_age(&block)?; self.get_payload(block)?`, and the same of `check_head_age`
  abbrev pub aged_payload : BlockTag → QueryResult ExecutionPayload
  aged_payload block = do
    map_err (check_blocktag_age now block node) node_error
    map_err (get_payload block node) block_not_found

  abbrev pub fresh_payload : BlockTag → QueryResult ExecutionPayload
  fresh_payload block = do
    map_err (check_head_age now node) node_error
    map_err (get_payload block node) block_not_found

  unfoldable pub get_gas_price : QueryResult ℕ
  unfolding check_head_age get_payload
  get_gas_price = do payload ← fresh_payload latest; add256 (fields payload).base_fee_per_gas tip

  unfoldable pub get_priority_fee : QueryResult ℕ
  get_priority_fee = ok tip

  unfoldable pub get_block_number : QueryResult ℕ
  unfolding check_head_age get_payload
  get_block_number = do payload ← fresh_payload latest; ok (fields payload).block_number

  unfoldable pub get_header : QueryResult Header
  unfolding check_head_age
  get_header = do
    map_err (check_head_age now node) node_error
    ok node.consensus.store.optimistic_header

  unfoldable pub get_coinbase : QueryResult Bytes
  unfolding check_head_age get_payload
  get_coinbase = do
    payload ← fresh_payload latest
    unwrap (from_slice 20 (fields payload).fee_recipient)

unfoldable pub get_last_checkpoint : Node → Option Bytes
get_last_checkpoint node = node.consensus.last_checkpoint

unfoldable pub get_block_transaction_count_by_hash : Bytes → Node → QueryResult ℕ
unfolding get_payload_by_hash
get_block_transaction_count_by_hash hash node = do
  (num, payload) ← get_payload_by_hash hash node
  ok (length (fields payload).transactions)

unfoldable pub get_block_transaction_count_by_number : BlockTag → Node → QueryResult ℕ
unfolding get_payload
get_block_transaction_count_by_number block node = do
  payload ← map_err (get_payload block node) block_not_found
  ok (length (fields payload).transactions)

-- the key of the oldest payload, or `current` when there is none
abbrev pub oldest_block : ℕ → BTreeMap ExecutionPayload → ℕ
oldest_block current [] = current
oldest_block current ((num, payload) ∷ payloads) = num

-- The clock is read by the check, by the check within `get_block_number`, and for the highest block.
unfoldable pub syncing : ℕ → ℕ → ℕ → Node → QueryResult SyncingStatus
unfolding check_head_age get_block_number expected_current_slot
syncing now now' now'' node = elim (check_head_age now node) [
  | ok _ ↦ ok is_false
  | panic ↦ panic
  | err e ↦ (do
    latest_synced_block ← get_block_number now' node
    highest_block ← by_clock (expected_current_slot node.consensus.config now'')
    ok (
        is_syncing latest_synced_block highest_block
          (oldest_block latest_synced_block node.payloads)))
]

module _ ⦃lib : Primitives⦄ (rpc : ExecutionRpc) (now : ℕ) (node : Node) where
  -- `Evm::new` of the payload, and the call of one of its methods
  abbrev pub evm_call :
      {A : Type 0} → BlockTag → (Database.ProofDb → Outcome EvmError A) → NodeResult A
  evm_call block method = do
    payload ← map_err (get_payload block node) block_not_found_error
    map_err (method (proof_db payload node.payloads)) execution_evm_error

  unfoldable pub call : Revm → CallOpts → BlockTag → NodeResult Bytes
  unfolding check_blocktag_age get_payload chain_id
  call evm opts block = do
    check_blocktag_age now block node
    evm_call block (λ db. Database.call evm rpc (chain_id node) db opts)

  unfoldable pub estimate_gas : Revm → CallOpts → NodeResult ℕ
  unfolding check_head_age get_payload chain_id
  estimate_gas evm opts = do
    check_head_age now node
    evm_call latest (λ db. Database.estimate_gas evm rpc (chain_id node) db opts)

  unfoldable pub get_balance : Bytes → BlockTag → QueryResult ℕ
  unfolding check_blocktag_age get_payload
  get_balance address block = do
    payload ← aged_payload now node block
    account ← map_err (Client.get_account rpc address none payload) execution_failed
    ok account.balance

  unfoldable pub get_nonce : Bytes → BlockTag → QueryResult ℕ
  unfolding check_blocktag_age get_payload
  get_nonce address block = do
    payload ← aged_payload now node block
    account ← map_err (Client.get_account rpc address none payload) execution_failed
    ok account.nonce

  unfoldable pub get_code : Bytes → BlockTag → QueryResult Bytes
  unfolding check_blocktag_age get_payload
  get_code address block = do
    payload ← aged_payload now node block
    account ← map_err (Client.get_account rpc address none payload) execution_failed
    ok account.code

  unfoldable pub get_storage_at : Bytes → Bytes → BlockTag → QueryResult ℕ
  unfolding check_head_age get_payload
  get_storage_at address slot block = do
    payload ← fresh_payload now node block
    account ← map_err (Client.get_account rpc address (some (slot ∷ [])) payload) execution_failed
    ok_or (hash_get slot account.slots) message

  unfoldable pub send_raw_transaction : Bytes → QueryResult Bytes
  send_raw_transaction bytes = map_err (Client.send_raw_transaction rpc bytes) execution_failed

  unfoldable pub get_transaction_receipt : Bytes → QueryResult (Option lib.TransactionReceipt)
  get_transaction_receipt tx_hash =
      map_err (Client.get_transaction_receipt rpc tx_hash node.payloads) execution_failed

  unfoldable pub get_transaction_by_hash : Bytes → QueryResult (Option lib.Transaction)
  get_transaction_by_hash tx_hash =
      map_err (Client.get_transaction rpc tx_hash node.payloads) execution_failed

  unfoldable pub get_transaction_by_block_hash_and_index :
      Bytes → ℕ → QueryResult (Option lib.Transaction)
  unfolding get_payload_by_hash
  get_transaction_by_block_hash_and_index hash index = do
    (num, payload) ← get_payload_by_hash hash node
    map_err (Client.get_transaction_by_block_hash_and_index rpc payload index) execution_failed

  unfoldable pub get_logs : lib.Filter → QueryResult (List lib.Log)
  get_logs filter = map_err (Logs.get_logs rpc filter node.payloads) execution_failed

  unfoldable pub get_fee_history : ℕ → ℕ → List lib.Float → QueryResult (Option FeeHistory)
  get_fee_history block_count last_block reward_percentiles =
      map_err (Fees.get_fee_history block_count last_block reward_percentiles node.payloads)
        execution_failed

  -- `self.execution.get_block(payload, full_tx).await.map(Some)`, and no block for no payload
  abbrev pub found_block :
      {E : Type 0} → Outcome E ExecutionPayload → Bool → QueryResult (Option ExecutionBlock)
  found_block (ok payload) full_tx = do
    block ← map_err (Blocks.get_block rpc payload full_tx) execution_failed
    ok (some block)
  found_block (err e) full_tx = ok none
  found_block panic full_tx = panic

  unfoldable pub get_block_by_number : BlockTag → Bool → QueryResult (Option ExecutionBlock)
  unfolding check_blocktag_age get_payload
  get_block_by_number block full_tx = do
    map_err (check_blocktag_age now block node) node_error
    found_block (get_payload block node) full_tx

  unfoldable pub get_block_by_hash : Bytes → Bool → QueryResult (Option ExecutionBlock)
  unfolding get_payload_by_hash
  get_block_by_hash hash full_tx =
      found_block (do (num, payload) ← get_payload_by_hash hash node; ok payload) full_tx
