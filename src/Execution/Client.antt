-- ===== src/Execution/Client.antt =====
-- execution/src/execution.rs: `ExecutionClient`. What an RPC answers is returned only if it agrees
-- with the verified payload. An error that prints a hash holds the hash, and every error that is no
-- `ExecutionError` is `other`. Calls that the source joins are made in the order of the list.
pub mod Accounts
pub mod Cleared
pub mod Receipts
pub mod Logs
pub mod Blocks
pub mod Fees
use forcerelay_verifier.Prelude.{
  ℕ, ◌+◌, ◌%◌, Bool, true, false, not, ◌&&◌, ◌||◌, Option, none, some, List, [], ◌∷◌, map, BTreeMap,
  lookup, insert, last_key_value, ◌==◌, ltb, length, get_elem?, bytes_eq, is_none, unwrap_or,
  if◌then◌else◌, Outcome, ok, err, guard, ok_or, unwrap, ◌>>=◌, ◌>>◌,
}
use forcerelay_verifier.Common.{Bytes, Text, hex_str_to_bytes, from_slice}
use forcerelay_verifier.Consensus.Blocks.{ExecutionPayload, fields}
use forcerelay_verifier.Execution.Errors.{ExecutionError, Result}
use forcerelay_verifier.Execution.Primitives.{Primitives, ProofResponse, StorageProof}
use forcerelay_verifier.Execution.Types.{Account, ExecutionBlock, Transactions, SlotMap}
use forcerelay_verifier.Execution.Rpc.{ExecutionRpc}
use forcerelay_verifier.Execution.Proof.{encode_account, verify_proof}

abbrev pub max_supported_logs_number : ℕ
max_supported_logs_number = 5

-- `items.contains(&item)` of byte strings
abbrev pub contains : Bytes → List Bytes → Bool
contains item [] = false
contains item (x ∷ items) = bytes_eq x item || contains item items

-- `collect::<Result<Vec<_>>>` of calls that are made one after the other
abbrev pub collect {ℓ} : {A : Type ℓ} → List (Result A) → Result (List A)
collect [] = ok []
collect (call ∷ calls) = do a ← call; rest ← collect calls; ok (a ∷ rest)

module _ ⦃lib : Primitives⦄ (rpc : ExecutionRpc) where
  unfoldable pub check_rpc : ℕ → Result (Unit {0})
  check_rpc chain_id = do
    id ← rpc.chain_id
    guard (id == chain_id) ExecutionError.incorrect_rpc_network

  -- the loop over `proof.storage_proof`
  unfoldable pub verify_storage : Bytes → Bytes → List StorageProof → SlotMap → Result SlotMap
  verify_storage address storage_hash [] slot_map = ok slot_map
  verify_storage address storage_hash (storage_proof ∷ proofs) slot_map =
      let rest =
        verify_storage address storage_hash proofs
          ((storage_proof.key, storage_proof.value) ∷ slot_map) in
      do
        key ←
            ok_or (hex_str_to_bytes lib.hex_decode (lib.encode_hex storage_proof.key))
              ExecutionError.other
        is_valid ←
            verify_proof storage_proof.proof storage_hash (lib.keccak256 key)
              (lib.encode_uint storage_proof.value)
        if is_valid
            then rest
            else err (ExecutionError.invalid_storage_proof address storage_proof.key)

  unfoldable pub verified_code : Bytes → ℕ → Bytes → Result Bytes
  verified_code address block_number code_hash =
      if bytes_eq code_hash lib.keccak_empty then ok [] else (do
        code ← rpc.get_code address block_number
        let found = lib.keccak256 code
        guard (bytes_eq code_hash found) (ExecutionError.code_hash_mismatch address found code_hash)
        ok code)

  unfoldable pub get_account : Bytes → Option (List Bytes) → ExecutionPayload → Result Account
  unfolding verify_storage verified_code
  get_account address slots payload = do
    proof ← rpc.get_proof address (unwrap_or slots []) (fields payload).block_number
    is_valid ←
        verify_proof proof.account_proof (fields payload).state_root (lib.keccak256 address)
          (encode_account proof)
    guard is_valid (ExecutionError.invalid_account_proof address)
    slot_map ← verify_storage address proof.storage_hash proof.storage_proof []
    code ← verified_code address (fields payload).block_number proof.code_hash
    ok (record {
      balance = proof.balance;
      nonce = proof.nonce;
      code_hash = proof.code_hash;
      code = code;
      storage_hash = proof.storage_hash;
      slots = slot_map;
    })

  unfoldable pub send_raw_transaction : Bytes → Result Bytes
  send_raw_transaction bytes = rpc.send_raw_transaction bytes

  -- the transaction, if it stands in the payload of its block
  unfoldable pub check_transaction :
      Bytes → lib.Transaction → Option ExecutionPayload → Result (Option lib.Transaction)
  check_transaction hash tx none = ok none
  check_transaction hash tx (some payload) =
      if contains (lib.transaction_rlp tx) (fields payload).transactions
      then ok (some tx)
      else err (ExecutionError.missing_transaction hash)

  -- the payload of a block number that may be missing
  abbrev pub payload_at : Option ℕ → BTreeMap ExecutionPayload → Option ExecutionPayload
  payload_at none payloads = none
  payload_at (some block_number) payloads = lookup block_number payloads

  unfoldable pub check_found_transaction :
      Bytes → Option lib.Transaction → BTreeMap ExecutionPayload → Result (Option lib.Transaction)
  unfolding check_transaction
  check_found_transaction hash none payloads = ok none
  check_found_transaction hash (some tx) payloads =
      check_transaction hash tx (payload_at (lib.transaction_block_number tx) payloads)

  unfoldable pub get_transaction :
      Bytes → BTreeMap ExecutionPayload → Result (Option lib.Transaction)
  unfolding check_found_transaction
  get_transaction hash payloads = do
    tx ← rpc.get_transaction hash
    check_found_transaction hash tx payloads

  -- `H256::from_slice(&keccak256(tx))`
  abbrev pub hash_of : Bytes → Result Bytes
  hash_of tx = unwrap (from_slice 32 (lib.keccak256 tx))

  unfoldable pub get_transaction_by_block_hash_and_index :
      ExecutionPayload → ℕ → Result (Option lib.Transaction)
  unfolding get_transaction
  get_transaction_by_block_hash_and_index payload index = do
    bytes ← unwrap (get_elem? (fields payload).transactions index)
    tx_hash ← hash_of bytes
    found ← get_transaction tx_hash (insert (fields payload).block_number payload [])
    tx ← ok_or found ExecutionError.other
    ok (some tx)

  unfoldable pub encode_receipt : lib.TransactionReceipt → Result Bytes
  encode_receipt receipt = do
    status ← unwrap (lib.receipt_status receipt)
    let legacy_receipt_encoded =
        lib.encode_receipt_list status (lib.receipt_cumulative_gas_used receipt)
          (lib.receipt_logs_bloom receipt) (lib.receipt_logs receipt)
    tx_type ← unwrap (lib.receipt_transaction_type receipt)
    ok (if tx_type == 0 then legacy_receipt_encoded else tx_type % 256 ∷ legacy_receipt_encoded)

  -- `receipts.contains(&receipt)`
  abbrev pub contains_receipt : lib.TransactionReceipt → List lib.TransactionReceipt → Bool
  contains_receipt receipt [] = false
  contains_receipt receipt (r ∷ receipts) =
      lib.receipt_eq r receipt || contains_receipt receipt receipts

  -- one of the receipts of a block
  abbrev pub block_receipt : Bytes → Result lib.TransactionReceipt
  block_receipt hash = do
    receipt ← rpc.get_transaction_receipt hash
    ok_or receipt ExecutionError.other

  -- the receipt, if it stands among those of its block, whose root is that of the payload
  unfoldable pub check_receipt :
      Bytes → lib.TransactionReceipt → ExecutionPayload → Result (Option lib.TransactionReceipt)
  unfolding encode_receipt
  check_receipt tx_hash receipt payload = do
    tx_hashes ← collect (map hash_of (fields payload).transactions)
    receipts ← collect (map block_receipt tx_hashes)
    receipts_encoded ← collect (map encode_receipt receipts)
    payload_receipt_root ← unwrap (from_slice 32 (fields payload).receipts_root)
    let expected_receipt_root = lib.ordered_trie_root receipts_encoded
    if not (bytes_eq expected_receipt_root payload_receipt_root)
          || not (contains_receipt receipt receipts)
        then err (ExecutionError.receipt_root_mismatch tx_hash)
        else ok (some receipt)

  unfoldable pub check_receipt_in :
      Bytes
      → lib.TransactionReceipt
      → Option ExecutionPayload
      → Result (Option lib.TransactionReceipt)
  unfolding check_receipt
  check_receipt_in tx_hash receipt none = ok none
  check_receipt_in tx_hash receipt (some payload) = check_receipt tx_hash receipt payload

  unfoldable pub check_found_receipt :
      Bytes
      → Option lib.TransactionReceipt
      → BTreeMap ExecutionPayload
      → Result (Option lib.TransactionReceipt)
  unfolding check_receipt_in
  check_found_receipt tx_hash none payloads = ok none
  check_found_receipt tx_hash (some receipt) payloads = do
    block_number ← unwrap (lib.receipt_block_number receipt)
    check_receipt_in tx_hash receipt (lookup block_number payloads)

  unfoldable pub get_transaction_receipt :
      Bytes → BTreeMap ExecutionPayload → Result (Option lib.TransactionReceipt)
  unfolding check_found_receipt
  get_transaction_receipt tx_hash payloads = do
    receipt ← rpc.get_transaction_receipt tx_hash
    check_found_receipt tx_hash receipt payloads
