-- ===== src/Tests/Ledger.antt =====
-- An execution RPC over toy primitives, with one account, one transaction and its receipt. A hash is
-- 32 times the length of what is hashed, and a node of two items is the length of its path, the path
-- and the value.
use forcerelay_verifier.Prelude.{
  ◌%◌, ◌*◌, ◌==◌, ◌+◌, ◌/◌, Outcome, ◌<◌, u64_mod, arith, length-take, subst, true, ℕ, ◌≡◌, refl,
  List, [], ◌∷◌, ◌++◌, Option, none, some, map, length, take, drop, replicate, bytes_eq, ok,
  BTreeMap,
}
use forcerelay_verifier.Common.{Bytes, hex_str_to_bytes}
use forcerelay_verifier.Consensus.Blocks.{ExecutionPayload}
use forcerelay_verifier.Execution.Primitives.{Primitives, ProofResponse}
use forcerelay_verifier.Execution.Types.{Account, CallOpts}
use forcerelay_verifier.Execution.Rpc.{ExecutionRpc}
use forcerelay_verifier.Execution.Proof.{
  get_nibble, skip_length, shared_prefix_length, verify_node, verify_proof, encode_account,
}
use forcerelay_verifier.Execution.Errors.{Report}
use forcerelay_verifier.Execution.Evm.{
  Revm, call_out, get_env, batch_fetch_accounts, fetch_chunk, fetch_chunks, fill_chunks,
}
use forcerelay_verifier.Execution.Evm.Database.{
  ProofDb, call, estimate_gas, run, check_exit, set_accounts, storage, known_slot, fetch_slot,
  fetch_account, callbacks,
}
use forcerelay_verifier.Execution.Client.{get_account, get_transaction, get_transaction_receipt}
use forcerelay_verifier.Execution.Client.Logs.{get_logs}

abbrev concat : List Bytes → Bytes
concat [] = []
concat (x ∷ xs) = x ++ concat xs

abbrev decode : Bytes → Option (List Bytes)
decode [] = none
decode (n ∷ node) = some (take (n % 256) node ∷ drop (n % 256) node ∷ [])

abbrev record_log : Bytes × ℕ → Bytes
record_log (hash, index) = index ∷ []

abbrev both_receipts_empty : ℕ × List (Bytes × ℕ) → Bytes
both_receipts_empty (block, logs) = concat (map record_log logs)

instance abbrev pub toy : Primitives
toy = record {
  keccak256 = λ bytes. replicate 32 (length bytes);
  keccak_empty = replicate 32 0;
  decode_list = decode;
  encode_list = concat;
  uint_bytes = λ n. n ∷ [];
  encode_uint = λ n. n ∷ [];
  encode_hex = λ bytes. bytes;
  hex_decode = λ text. some text;
  ordered_trie_root = λ items. replicate 32 (length items);
  Transaction = ℕ × Bytes;
  transaction_block_number = λ tx. some tx.0;
  transaction_rlp = λ tx. tx.1;
  Log = Bytes × ℕ;
  log_transaction_hash = λ log. some log.0;
  log_index = λ log. some log.1;
  log_rlp = record_log;
  TransactionReceipt = ℕ × List (Bytes × ℕ);
  receipt_eq = λ r s. bytes_eq (both_receipts_empty r) (both_receipts_empty s);
  receipt_block_number = λ receipt. some receipt.0;
  receipt_status = λ receipt. some 1;
  receipt_cumulative_gas_used = λ receipt. 21000;
  receipt_logs_bloom = λ receipt. [];
  receipt_logs = λ receipt. receipt.1;
  receipt_transaction_type = λ receipt. some 2;
  encode_receipt_list = λ status gas bloom logs. status ∷ concat (map record_log logs);
  h256_from_uint = λ n. replicate 32 n;
  u256_from_little_endian = λ bytes. length bytes;
  Float = ℕ;
  float_eq = λ a b. a == b;
  round_ratio = λ ratio. ratio;
  gas_ratio = λ used limit. used * 100 / limit;
  Filter = Option ℕ × Option ℕ;
  filter_to_block = λ filter. filter.1;
  filter_from_block = λ filter. filter.0;
  filter_block_hash = λ filter. none;
  filter_with_to_block = λ block filter. (filter.0, some block);
  filter_with_from_block = λ block filter. (some block, filter.1);
}

-- the account's address, its code and the proof of its nonce and balance
abbrev pub address : Bytes
address = replicate 20 7

abbrev code : Bytes
code = 1 ∷ 2 ∷ 3 ∷ []

abbrev pub slot : Bytes
slot = replicate 32 9

-- a leaf for the whole of the path that a hash of `n` bytes is
abbrev leaf : ℕ → Bytes → Bytes
leaf n value = 33 ∷ 0x20 ∷ replicate 32 n ++ value

abbrev slot_leaf : Bytes
slot_leaf = leaf 32 (5 ∷ [])

abbrev storage_hash : Bytes
storage_hash = replicate 32 35

abbrev account_leaf : Bytes
account_leaf = leaf 20 (1 ∷ 100 ∷ storage_hash ++ replicate 32 3)

abbrev answer : ProofResponse
answer = record {
  account_proof = account_leaf ∷ [];
  balance = 100;
  code_hash = replicate 32 3;
  nonce = 1;
  storage_hash = storage_hash;
  storage_proof = record { key = slot; proof = slot_leaf ∷ []; value = 5 } ∷ [];
}

abbrev pub tx : ℕ × Bytes
tx = (7, 8 ∷ 8 ∷ [])

abbrev pub tx_hash : Bytes
tx_hash = replicate 32 2

abbrev pub receipt : ℕ × List (Bytes × ℕ)
receipt = (7, (tx_hash, 4) ∷ [])

abbrev pub rpc : ExecutionRpc
rpc = record {
  get_proof = λ owner slots block. ok answer;
  create_access_list =
      λ opts block. ok (record { address = address; storage_keys = slot ∷ [] } ∷ []);
  get_code = λ owner block. ok code;
  send_raw_transaction = λ bytes. ok tx_hash;
  get_transaction_receipt = λ hash. ok (some receipt);
  get_transaction = λ hash. ok (some tx);
  get_logs = λ filter. ok ((tx_hash, 4) ∷ []);
  chain_id = ok 1;
  get_fee_history = λ count last percentiles. ok (record {
    base_fee_per_gas = 7 ∷ 8 ∷ [];
    gas_used_ratio = 0 ∷ [];
    oldest_block = 7;
    reward = [];
  });
}

-- a payload with a number and a block hash
abbrev pub numbered : ℕ → Bytes → ExecutionPayload
numbered number hash = ExecutionPayload.bellatrix (record {
  parent_hash = replicate 32 0;
  fee_recipient = replicate 20 0;
  state_root = replicate 32 100;
  receipts_root = replicate 32 1;
  logs_bloom = [];
  prev_randao = replicate 32 0;
  block_number = number;
  gas_limit = 30000000;
  gas_used = 21000;
  timestamp = 0;
  extra_data = [];
  base_fee_per_gas = 7;
  block_hash = hash;
  transactions = (8 ∷ 8 ∷ []) ∷ [];
})

abbrev pub payload : ExecutionPayload
payload = numbered 7 (replicate 32 1)

abbrev pub payloads : BTreeMap ExecutionPayload
payloads = (7, payload) ∷ []

abbrev pub account : Account
account = record {
  balance = 100;
  nonce = 1;
  code_hash = replicate 32 3;
  code = code;
  storage_hash = storage_hash;
  slots = (slot, 5) ∷ [];
}

pub gets_account : get_account rpc address (some (slot ∷ [])) payload ≡ ok account
unfolding get_account verify_proof verify_node get_nibble encode_account hex_str_to_bytes bytes_eq
    skip_length
gets_account = refl

-- an EVM that asks its database for the test's slot, and returns it as the output
abbrev pub evm : Revm
evm = record {
  transact = λ env db. record {
    exit_reason = 1;
    gas_used = 21000;
    out = call_out (read (db.storage address 9));
  };
  return_revert = 2;
  return_return = 1;
  return_stop = 0;
  default_account = record { balance = 0; nonce = 0; bytecode = [] };
  scale_gas = λ gas. gas + gas / 10;
}
  where
    read : Outcome Report ℕ → Bytes
    read (ok value) = value ∷ []
    read _ = []

pub gets_transaction : get_transaction rpc tx_hash payloads ≡ ok (some tx)
unfolding get_transaction bytes_eq
gets_transaction = refl

pub gets_receipt : get_transaction_receipt rpc tx_hash payloads ≡ ok (some receipt)
unfolding get_transaction_receipt bytes_eq
gets_receipt = refl

pub gets_logs : get_logs rpc (none, none) payloads ≡ ok ((tx_hash, 4) ∷ [])
unfolding get_logs get_transaction_receipt bytes_eq
gets_logs = refl

pub toy-counted :
    (node node_path item : Bytes)
    → toy.decode_list node ≡ some (node_path ∷ item ∷ [])
    → length node_path * 2 < u64_mod
toy-counted [] node_path item e = cc
toy-counted (n ∷ node) node_path item e = subst (λ p. length p * 2 < u64_mod) (first e) few
  where
    first :
        some (take (n % 256) node ∷ drop (n % 256) node ∷ []) ≡ some (node_path ∷ item ∷ [])
        → take (n % 256) node ≡ node_path
    first p = cc

    few : length (take (n % 256) node) * 2 < u64_mod
    few = omega (arith, length-take (n % 256) node)

-- a node that extends the path by a byte, and the leaf for the other 31
abbrev pub two_nodes : List Bytes
two_nodes = (2 ∷ 0 ∷ 20 ∷ replicate 32 34) ∷ (32 ∷ 0x20 ∷ replicate 31 20 ++ (5 ∷ [])) ∷ []

accepts_two_nodes : verify_proof two_nodes (replicate 32 35) (replicate 32 20) (5 ∷ []) ≡ ok true
unfolding verify_proof verify_node get_nibble bytes_eq skip_length shared_prefix_length
accepts_two_nodes = refl

abbrev pub opts : CallOpts
opts = record {
  from = none;
  to = some address;
  gas = none;
  gas_price = none;
  value = none;
  call_data = none;
}

abbrev pub db : ProofDb
db = record { current_payload = payload; payloads = payloads; accounts = []; error = none }

-- The call reads the slot's value, 5, from the access list's proof.
pub calls : call evm rpc 1 db opts ≡ ok (5 ∷ [])
unfolding call run check_exit get_env batch_fetch_accounts fetch_chunk fetch_chunks fill_chunks
    get_account verify_proof verify_node get_nibble encode_account hex_str_to_bytes bytes_eq
    skip_length set_accounts storage known_slot fetch_slot fetch_account callbacks
calls = refl

pub estimates : estimate_gas evm rpc 1 db opts ≡ ok 23100
unfolding estimate_gas run check_exit get_env batch_fetch_accounts fetch_chunk fetch_chunks
    fill_chunks get_account verify_proof verify_node get_nibble encode_account hex_str_to_bytes
    bytes_eq skip_length set_accounts storage known_slot fetch_slot fetch_account
estimates = refl
