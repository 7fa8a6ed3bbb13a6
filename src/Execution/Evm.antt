-- ===== src/Execution/Evm.antt =====
-- execution/src/evm.rs: calls in the EVM over a database of proven accounts. revm is a parameter: its
-- `transact` takes the environment and the four methods of the database.
pub mod Database
pub mod Chunks
pub mod Proven
pub mod Sound
pub mod Precompiles
use forcerelay_verifier.Prelude.{
  ℕ, zero, suc, ◌-◌, ◌^◌, Bool, Option, none, some, List, [], ◌∷◌, ◌++◌, ◌==◌, ◌||◌, ltb, map_err,
  BTreeMap, HashMap, replicate, if◌then◌else◌, unwrap_or, Outcome, ok, err, panic, unwrap, u64_mod,
  ◌>>=◌,
}
use forcerelay_verifier.Common.{Bytes, from_slice}
use forcerelay_verifier.Consensus.Blocks.{ExecutionPayload, fields}
use forcerelay_verifier.Execution.Errors.{
  ExecutionError, Result, Report, EvmError, revert, generic, revm, rpc_error,
}
use forcerelay_verifier.Execution.Primitives.{Primitives, AccessListItem}
use forcerelay_verifier.Execution.Types.{Account, CallOpts}
use forcerelay_verifier.Execution.Rpc.{ExecutionRpc}
use forcerelay_verifier.Execution.Client.{get_account}

abbrev pub EvmResult : Type 0 → Type 0
EvmResult A = Outcome EvmError A

-- what `AccountInfo::new` is given
pub record AccountInfo : Type 0 where
  pub balance : ℕ
  pub nonce : ℕ
  pub bytecode : Bytes

-- the fields of revm's `Env` that the code sets; the others have their defaults
pub record Env : Type 0 where
  pub transact_to : Bytes
  pub caller : Bytes
  pub value : ℕ
  pub call_data : Bytes
  pub gas_limit : ℕ
  pub gas_price : ℕ
  pub number : ℕ
  pub coinbase : Bytes
  pub timestamp : ℕ
  pub difficulty : ℕ
  pub chain_id : ℕ

pub data TransactOut : Type 0 where
  none_out create_out : TransactOut
  call_out : Bytes → TransactOut

pub record TransactResult : Type 0 where
  pub exit_reason : ℕ
  pub gas_used : ℕ
  pub out : TransactOut

-- the methods of revm's `Database`
pub record Callbacks : Type 0 where
  pub basic : Bytes → Outcome Report (Option AccountInfo)
  pub block_hash : ℕ → Outcome Report Bytes
  pub storage : Bytes → ℕ → Outcome Report ℕ
  pub code_by_hash : Bytes → Outcome Report Bytes

-- revm: `transact`, the variants of `Return` that the code names, and `AccountInfo::default()`; and
-- the product of a gas amount with 1.10 as an f64, cut to a u64
pub record Revm : Type 0 where
  pub transact : Env → Callbacks → TransactResult
  pub return_revert : ℕ
  pub return_return : ℕ
  pub return_stop : ℕ
  pub default_account : AccountInfo
  pub scale_gas : ℕ → ℕ

abbrev pub parallel_query_batch_size : ℕ
parallel_query_batch_size = 20

-- `list.chunks(size)`: the rest of the chunk that has `room`, and the chunks after it
unfoldable pub fill_chunks {ℓ} : {A : Type ℓ} → ℕ → ℕ → List A → List A × List (List A)
fill_chunks size room [] = ([], [])
fill_chunks size zero (x ∷ xs) =
    let rest = fill_chunks size (size - 1) xs in ([], (x ∷ rest.0) ∷ rest.1)
fill_chunks size (suc room) (x ∷ xs) = let rest = fill_chunks size room xs in (x ∷ rest.0, rest.1)

abbrev pub chunks {ℓ} : {A : Type ℓ} → ℕ → List A → List (List A)
chunks size xs = (fill_chunks size zero xs).1

-- `Address::default()` and `Address::zero()`
abbrev pub zero_address : Bytes
zero_address = replicate 20 0

-- `v.as_u64()` panics on a larger number
abbrev pub as_u64 {ι} : {E : Type ι} → ℕ → Outcome E ℕ
as_u64 n = if ltb n u64_mod then ok n else panic

-- an account whose proof fails is left out
abbrev pub add_fetched : Bytes → Result Account → HashMap Account → EvmResult (HashMap Account)
add_fetched address (ok account) account_map = ok ((address, account) ∷ account_map)
add_fetched address (err e) account_map = ok account_map
add_fetched address panic account_map = panic

module _ ⦃lib : Primitives⦄ (rpc : ExecutionRpc) (payload : ExecutionPayload) where
  -- the accounts of one chunk
  unfoldable pub fetch_chunk : List AccessListItem → HashMap Account → EvmResult (HashMap Account)
  fetch_chunk [] account_map = ok account_map
  fetch_chunk (account ∷ chunk) account_map =
      add_fetched account.address
        (get_account rpc account.address (some account.storage_keys) payload) account_map
      >>= λ fetched. fetch_chunk chunk fetched

  unfoldable pub fetch_chunks :
      List (List AccessListItem) → HashMap Account → EvmResult (HashMap Account)
  unfolding fetch_chunk
  fetch_chunks [] account_map = ok account_map
  fetch_chunks (chunk ∷ rest) account_map =
      fetch_chunk chunk account_map >>= λ fetched. fetch_chunks rest fetched

  abbrev pub access_entry : Bytes → AccessListItem
  access_entry address = record { address = address; storage_keys = [] }

  -- the access list with the sender, the receiver and the producer of the block
  abbrev pub all_entries : CallOpts → List AccessListItem → Bytes → List AccessListItem
  all_entries opts list producer =
      list
      ++ (access_entry (unwrap_or opts.from zero_address)
          ∷ access_entry (unwrap_or opts.to zero_address)
          ∷ access_entry producer
          ∷ [])

  unfoldable pub batch_fetch_accounts : CallOpts → EvmResult (HashMap Account)
  unfolding fetch_chunks fill_chunks
  batch_fetch_accounts opts = do
    list ← map_err (rpc.create_access_list opts (fields payload).block_number) rpc_error
    producer ← unwrap (from_slice 20 (fields payload).fee_recipient)
    fetch_chunks (chunks parallel_query_batch_size (all_entries opts list producer)) []

  unfoldable pub get_env : ℕ → CallOpts → EvmResult Env
  get_env chain_id opts = do
    gas_limit ← elim opts.gas [ some v ↦ as_u64 v | none ↦ ok (u64_mod - 1) ]
    coinbase ← unwrap (from_slice 20 (fields payload).fee_recipient)
    ok (record {
      transact_to = unwrap_or opts.to zero_address;
      caller = unwrap_or opts.from zero_address;
      value = unwrap_or opts.value 0;
      call_data = unwrap_or opts.call_data [];
      gas_limit = gas_limit;
      gas_price = unwrap_or opts.gas_price 0;
      number = (fields payload).block_number;
      coinbase = coinbase;
      timestamp = (fields payload).timestamp;
      difficulty = lib.u256_from_little_endian (fields payload).prev_randao;
      chain_id = chain_id;
    })
