-- ===== src/Consensus/State.antt =====
-- consensus/src/consensus.rs: the state of `ConsensusClient` and its clock arithmetic. The RPC
-- client is an argument of the calls that use it. `now` is what `SystemTime::now()` reads, in whole
-- seconds since the Unix epoch; each reading is an argument of its own. Sums, products and
-- differences of `u64` wrap, as in a release build.
use forcerelay_verifier.Prelude.{
  ℕ, ◌-◌, ◌/◌, Bool, Option, none, replicate, leb, ltb, if◌then◌else◌, ok, panic, ◌>>=◌, unwrap,
  max, add64, sub64, mul64,
}
use forcerelay_verifier.Common.{Bytes}
use forcerelay_verifier.Config.Types.{Config}
use forcerelay_verifier.Consensus.Types.{Header, SyncCommittee}
use forcerelay_verifier.Common.Method.{Method}
use forcerelay_verifier.Consensus.Errors.{ConsensusError, Result}
use forcerelay_verifier.Consensus.Primitives.{Primitives}

pub record LightClientStore : Type 0 where
  pub finalized_header : Header
  pub current_sync_committee : SyncCommittee
  pub next_sync_committee : Option SyncCommittee
  pub optimistic_header : Header
  pub previous_max_active_participants : ℕ
  pub current_max_active_participants : ℕ

pub record ConsensusClient : Type 0 where
  pub store : LightClientStore
  pub initial_checkpoint : Bytes
  pub last_checkpoint : Option Bytes
  pub config : Config

-- `Header::default()` and `SyncCommittee::default()`
abbrev pub default_header : Header
default_header = record {
  slot = 0;
  proposer_index = 0;
  parent_root = replicate 32 0;
  state_root = replicate 32 0;
  body_root = replicate 32 0;
}

abbrev pub default_committee : SyncCommittee
default_committee = record {
  pubkeys = replicate 512 (replicate 48 0);
  aggregate_pubkey = replicate 48 0;
}

-- `ConsensusClient::new`
unfoldable pub new_client : Bytes → Config → ConsensusClient
new_client checkpoint_block_root config = record {
  store = record {
    finalized_header = default_header;
    current_sync_committee = default_committee;
    next_sync_committee = none;
    optimistic_header = default_header;
    previous_max_active_participants = 0;
    current_max_active_participants = 0;
  };
  initial_checkpoint = checkpoint_block_root;
  last_checkpoint = none;
  config = config;
}

-- a method of the client that takes `&mut self`
abbrev pub ClientMethod : Type 0 → Type 0
ClientMethod A = Method ConsensusClient ConsensusError A

-- `now - Duration::from_secs(secs)`: the difference of two durations panics below zero
abbrev pub duration_sub : ℕ → ℕ → Result ℕ
duration_sub now secs = if leb secs now then ok (now - secs) else panic

unfoldable pub slot_timestamp : Config → ℕ → ℕ
slot_timestamp config slot = add64 (mul64 slot 12) config.chain.genesis_time

unfoldable pub expected_current_slot : Config → ℕ → Result ℕ
expected_current_slot config now = do
  since_genesis ← duration_sub now config.chain.genesis_time
  ok (since_genesis / 12)

unfoldable pub age : ⦃lib : Primitives⦄ → Config → ℕ → ℕ → Result ℕ
unfolding slot_timestamp
age ⦃lib⦄ config slot now = do
  delay ← duration_sub now (slot_timestamp config slot)
  unwrap (lib.duration_from_std delay)

-- `now` is read once for the slot and once more for the distance.
unfoldable pub duration_until_next_update : Config → ℕ → ℕ → Result ℕ
unfolding slot_timestamp expected_current_slot
duration_until_next_update config now now' = do
  current_slot ← expected_current_slot config now
  let next_slot = add64 current_slot 1
  let time_to_next_slot = sub64 (slot_timestamp config next_slot) now'
  ok (add64 time_to_next_slot 4)

unfoldable pub is_valid_checkpoint : Config → ℕ → ℕ → Result Bool
unfolding slot_timestamp expected_current_slot
is_valid_checkpoint config blockhash_slot now = do
  current_slot ← expected_current_slot config now
  let slot_age = sub64 (slot_timestamp config current_slot) (slot_timestamp config blockhash_slot)
  ok (ltb slot_age config.max_checkpoint_age)

unfoldable pub safety_threshold : LightClientStore → ℕ
safety_threshold store =
    max store.current_max_active_participants store.previous_max_active_participants / 2
