-- ===== src/Execution/Evm/Database.antt =====
-- execution/src/evm.rs: `ProofDB`, and `call` and `estimate_gas` over it.
use forcerelay_verifier.Prelude.{
  ℕ, Bool, true, false, Option, none, some, List, [], ◌∷◌, not, ◌&&◌, ◌||◌, ◌==◌, ltb, BTreeMap,
  HashMap, hash_get, lookup, replicate, ◌++◌, if◌then◌else◌, Outcome, ok, err, panic, ok_or, unwrap,
  ◌>>=◌,
}
use forcerelay_verifier.Common.{Bytes, Text, BlockTag, from_slice}
use forcerelay_verifier.Consensus.Blocks.{ExecutionPayload, fields}
use forcerelay_verifier.Execution.Errors.{
  Result, Report, EvmError, execution, block_not_found_error, slot_not_found_error, message, revert,
  generic, revm,
}
use forcerelay_verifier.Execution.Primitives.{Primitives}
use forcerelay_verifier.Execution.Types.{Account, CallOpts}
use forcerelay_verifier.Execution.Rpc.{ExecutionRpc}
use forcerelay_verifier.Execution.Client
use forcerelay_verifier.Execution.Evm.{
  Revm, Callbacks, AccountInfo, TransactOut, TransactResult, EvmResult, none_out, create_out,
  call_out, batch_fetch_accounts, get_env, as_u64, zero_address,
}

-- the order of byte arrays of one length
unfoldable pub bytes_lt : Bytes → Bytes → Bool
bytes_lt [] [] = false
bytes_lt [] (y ∷ ys) = true
bytes_lt (x ∷ xs) [] = false
bytes_lt (x ∷ xs) (y ∷ ys) = ltb x y || (x == y && bytes_lt xs ys)

-- "0x0000000000000000000000000000000000000009"
abbrev pub last_precompile : Bytes
last_precompile = replicate 19 0 ++ (9 ∷ [])

unfoldable pub is_precompile : Bytes → Bool
unfolding bytes_lt
is_precompile address = not (bytes_lt last_precompile address) && bytes_lt zero_address address

-- the execution client of the source is an argument of the methods
pub record ProofDb : Type 0 where
  pub current_payload : ExecutionPayload
  pub payloads : BTreeMap ExecutionPayload
  pub accounts : HashMap Account
  pub error : Option Text

-- `ProofDB::new`
unfoldable pub proof_db : ExecutionPayload → BTreeMap ExecutionPayload → ProofDb
proof_db current_payload payloads = record {
  current_payload = current_payload;
  payloads = payloads;
  accounts = [];
  error = none;
}

unfoldable pub set_accounts : HashMap Account → ProofDb → ProofDb
set_accounts accounts db = record db { accounts = accounts }

-- `block_on(handle)?`: a panic of the task aborts the program, as the release profile asks
abbrev pub join_task {ℓ} : {A : Type ℓ} → Result A → Outcome Report A
join_task (ok a) = ok a
join_task (err e) = err (execution e)
join_task panic = panic

module _ ⦃lib : Primitives⦄ (rpc : ExecutionRpc) (db : ProofDb) where
  -- `ProofDB::get_account`
  unfoldable pub fetch_account : Bytes → List Bytes → Outcome Report Account
  fetch_account address slots =
      join_task (Client.get_account rpc address (some slots) db.current_payload)

  unfoldable pub basic : Revm → Bytes → Outcome Report (Option AccountInfo)
  unfolding fetch_account
  basic evm address = if is_precompile address then ok (some evm.default_account) else (do
    account ← elim (hash_get address db.accounts) [
      | some account ↦ ok account
      | none ↦ fetch_account address []
    ]
    ok (
        some
          (record { balance = account.balance; nonce = account.nonce; bytecode = account.code })))

  unfoldable pub block_hash : ℕ → Outcome Report Bytes
  block_hash number = do
    number ← as_u64 number
    payload ← ok_or (lookup number db.payloads) (block_not_found_error (BlockTag.number number))
    unwrap (from_slice 32 (fields payload).block_hash)

  -- the slot of an account that is fetched for it
  unfoldable pub fetch_slot : Bytes → Bytes → Outcome Report ℕ
  unfolding fetch_account
  fetch_slot address slot = do
    account ← fetch_account address (slot ∷ [])
    ok_or (hash_get slot account.slots) (slot_not_found_error slot)

  unfoldable pub known_slot : Bytes → Bytes → Option Account → Outcome Report ℕ
  unfolding fetch_slot
  known_slot address slot none = fetch_slot address slot
  known_slot address slot (some account) = elim (hash_get slot account.slots) [
    | some value ↦ ok value
    | none ↦ fetch_slot address slot
  ]

  unfoldable pub storage : Bytes → ℕ → Outcome Report ℕ
  unfolding known_slot
  storage address slot = known_slot address (lib.h256_from_uint slot) (hash_get address db.accounts)

  unfoldable pub code_by_hash : Bytes → Outcome Report Bytes
  code_by_hash code_hash = err message

  unfoldable pub callbacks : Revm → Callbacks
  unfolding basic block_hash storage code_by_hash
  callbacks evm = record {
    basic = basic evm;
    block_hash = block_hash;
    storage = storage;
    code_by_hash = code_by_hash;
  }

-- `Err(EvmError::Revert(..))`
abbrev pub revert_with {ℓ} : {A : Type ℓ} → TransactOut → Outcome EvmError A
revert_with (call_out bytes) = err (revert (some bytes))
revert_with none_out = err (revert none)
revert_with create_out = err (revert none)

abbrev pub call_output : TransactOut → EvmResult Bytes
call_output none_out = err generic
call_output create_out = err generic
call_output (call_out bytes) = ok bytes

module _ ⦃lib : Primitives⦄ (evm : Revm) (rpc : ExecutionRpc) (chain_id : ℕ) (db : ProofDb) where
  -- what `call` and `estimate_gas` run, with the database that it runs on
  unfoldable pub run : CallOpts → EvmResult TransactResult
  run opts = do
    account_map ← batch_fetch_accounts rpc db.current_payload opts
    env ← get_env rpc db.current_payload chain_id opts
    ok (evm.transact env (callbacks rpc (set_accounts account_map db) evm))

  -- the `match` on `tx.exit_reason`, with the rest for a call that returns or stops
  unfoldable pub check_exit : {A : Type 0} → TransactResult → EvmResult A → EvmResult A
  check_exit tx rest =
      if tx.exit_reason == evm.return_revert
      then revert_with tx.out
      else if tx.exit_reason == evm.return_return || tx.exit_reason == evm.return_stop
      then elim db.error [ some e ↦ err generic | none ↦ rest ]
      else err (revm tx.exit_reason)

  unfoldable pub call : CallOpts → EvmResult Bytes
  unfolding run check_exit
  call opts = do tx ← run opts; check_exit tx (call_output tx.out)

  unfoldable pub estimate_gas : CallOpts → EvmResult ℕ
  unfolding run check_exit
  estimate_gas opts = do tx ← run opts; check_exit tx (ok (evm.scale_gas tx.gas_used))
