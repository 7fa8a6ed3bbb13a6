-- ===== src/Client/Start.antt =====
-- client/src/client.rs: `Client::new`, `start` with the fallbacks for an old checkpoint, and the
-- saving of the last checkpoint; client/src/rpc.rs: `Rpc::new` and `Rpc::start`. The thread that
-- `start` spawns calls `advance` of the node, one call after the other. The locks are left out:
-- each method holds one for a call.
pub mod Create
pub mod Sources
pub mod Resume
pub mod Attempts
pub mod Booted
pub mod Fresh
use forcerelay_verifier.Prelude.{
  ℕ, Bool, true, false, ◌||◌, Option, none, some, List, HashMap, is_some, unwrap_or, ◌==◌,
  if◌then◌else◌, Outcome, ok, err, panic, ok_or, map_err,
}
use forcerelay_verifier.Common.{Bytes, Text}
use forcerelay_verifier.Common.Method.{Method, lift, reads, writes, on_field, ◌>>=◌, ◌>>◌}
use forcerelay_verifier.Config.Types.{Config, IpAddr, localhost}
use forcerelay_verifier.Config.Networks.{Network, mainnet_network, goerli_network}
use forcerelay_verifier.Config.Checkpoints.{
  RawSlotResponse, CheckpointFallback, CheckpointResult, ServiceList, new_fallback, build_fallback,
  fetch_checkpoint_from_api, fetch_latest_checkpoint,
}
use forcerelay_verifier.Consensus.Errors.{ConsensusError, checkpoint_too_old}
use forcerelay_verifier.Consensus.Primitives.{Primitives}
use forcerelay_verifier.Consensus.State.{new_client}
use forcerelay_verifier.Consensus.Sync.{Clock}
use forcerelay_verifier.Execution.Errors.{ExecutionError}
use forcerelay_verifier.Execution.Primitives as ExecutionPrimitives
use forcerelay_verifier.Execution.Rpc.{ExecutionRpc}
use forcerelay_verifier.Client.Errors.{NodeError, consensus_sync_error}
use forcerelay_verifier.Client.Node.{Node, new_node}
use forcerelay_verifier.Client.Node.Updates.{Servers, sync}
use forcerelay_verifier.Client.Node.Queries.{get_last_checkpoint}

-- client/src/database.rs: the trait `Database`, whose `none` is an error. `Disk` is what it writes to.
pub record Database : Type 1 where
  pub Db : Type 0
  pub Disk : Type 0
  pub create : Config → Option Db
  pub load : Db → Disk → Option Bytes
  pub save : Db → Bytes → Disk → Option Disk

-- a report of `Client`
pub data ClientError : Type 0 where
  node_failed : NodeError → ClientError
  consensus_failed : ConsensusError → ClientError
  database_failed server_failed no_fallback fallback_unanswered list_unanswered latest_unanswered :
      ClientError

-- the address of the JSON-RPC server, and whether it has a handle
pub record RpcServer : Type 0 where
  pub ip : IpAddr
  pub port : ℕ
  pub started : Bool

-- `Rpc::new`
unfoldable pub new_rpc : Option IpAddr → Option ℕ → RpcServer
new_rpc ip port = record { ip = unwrap_or ip localhost; port = unwrap_or port 0; started = false }

module _ (database : Database) where
  -- `disk` is `none` after a save that failed, which leaves open what was written.
  pub record Client : Type 0 where
    pub node : Node
    pub rpc : Option RpcServer
    pub db : database.Db
    pub fallback : Option Text
    pub load_external_fallback : Bool
    pub disk : Option database.Disk

-- What one call of the node's `sync` meets.
pub record Attempt ⦃lib : ExecutionPrimitives.Primitives⦄ : Type 0 where
  pub servers : Servers
  pub execution_rpc : ExecutionRpc
  pub clock : Clock

-- What a `start` meets: whether the server can be started, what each call of `sync` meets, what the
-- checkpoint services answer, and how a map is iterated.
pub record World ⦃lib : ExecutionPrimitives.Primitives⦄ : Type 0 where
  pub listens : Bool
  pub first_attempt : Attempt
  pub fallback_attempt : Attempt
  pub external_attempt : Attempt
  pub query : Text → Option RawSlotResponse
  pub iterate : HashMap ℕ → List (Bytes × ℕ)
  pub service_list : Option ServiceList

abbrev pub StartMethod : Database → Type 0 → Type 0
StartMethod database A = Method (Client database) ClientError A

abbrev pub external_network : Node → Network
external_network node = if node.config.chain.chain_id == 5 then goerli_network else mainnet_network

abbrev pub is_too_old : ConsensusError → Bool
is_too_old checkpoint_too_old = true
is_too_old _ = false

module _ {database : Database} where
  abbrev set_node : Node → Client database → Client database
  set_node node client = record client { node = node }

  -- `if let Some(rpc) = &mut self.rpc { rpc.start().await? }`
  unfoldable pub start_server : Bool → StartMethod database (Unit {0})
  start_server listens client = elim client.rpc [
    | none ↦ (ok tt, client)
    | some rpc ↦
        if listens
        then (ok tt, record client { rpc = some (record rpc { started = true }) })
        else (err server_failed, client)
  ]

  -- `save_last_checkpoint`: a save that fails is only logged
  unfoldable pub save_last_checkpoint : Client database → Client database
  unfolding get_last_checkpoint
  save_last_checkpoint client = record client {
    disk = saved (get_last_checkpoint client.node) client.disk;
  }
    where
      saved : Option Bytes → Option database.Disk → Option database.Disk
      saved none disk = disk
      saved (some checkpoint) none = none
      saved (some checkpoint) (some disk) = database.save client.db checkpoint disk

  module _ ⦃lib : Primitives⦄ ⦃execution_lib : ExecutionPrimitives.Primitives⦄ where
    -- a new consensus client for the checkpoint, and another `sync`
    unfoldable pub boot_from : Attempt → Bytes → StartMethod database (Unit {0})
    boot_from attempt checkpoint = do
      writes (λ client. ok (
          set_node (record client.node { consensus = new_client checkpoint client.node.config })
            client))
      on_field (λ client. client.node) set_node node_failed
          (sync attempt.servers attempt.execution_rpc attempt.clock)

    -- `if let Some(fallback) = &self.fallback { … } else { … }`
    unfoldable pub boot_from_url : World → Option Text → StartMethod database (Unit {0})
    unfolding boot_from
    boot_from_url world none = lift (err no_fallback)
    boot_from_url world (some url) = do
      checkpoint ← lift (
          map_err (fetch_checkpoint_from_api world.query world.iterate url)
            (λ _. fallback_unanswered))
      boot_from world.fallback_attempt checkpoint

    unfoldable pub boot_from_fallback : World → StartMethod database (Unit {0})
    unfolding boot_from_url
    boot_from_fallback world client = boot_from_url world client.fallback client

    unfoldable pub boot_from_external_fallbacks : World → StartMethod database (Unit {0})
    unfolding boot_from
    boot_from_external_fallbacks world = do
      list ← lift (map_err (build_fallback world.service_list new_fallback) (λ _. list_unanswered))
      checkpoint ← reads (λ client.
          map_err
            (fetch_latest_checkpoint world.query world.iterate list (external_network client.node))
            (λ _. latest_unanswered))
      boot_from world.external_attempt checkpoint

    -- what follows a fallback that fails, as the external fallbacks are allowed or not
    unfoldable pub after_failed_fallback : World → Bool → StartMethod database (Unit {0})
    unfolding boot_from_external_fallbacks
    after_failed_fallback world true = boot_from_external_fallbacks world
    after_failed_fallback world false = lift (err (consensus_failed checkpoint_too_old))

    unfoldable pub after_fallback :
        World
        → Outcome ClientError (Unit {0}) × Client database
        → Outcome ClientError (Unit {0}) × Client database
    unfolding after_failed_fallback
    after_fallback world (ok _, next) = (ok tt, next)
    after_fallback world (panic, next) = (panic, next)
    after_fallback world (err e, next) =
        after_failed_fallback world next.load_external_fallback next

    -- what follows a `sync` that found the checkpoint too old
    unfoldable pub recover : World → StartMethod database (Unit {0})
    unfolding boot_from_fallback after_fallback
    recover world client = after_fallback world (boot_from_fallback world client)

    -- the `match` on the result of `sync`
    unfoldable pub after_sync :
        World → Outcome NodeError (Unit {0}) → StartMethod database (Unit {0})
    unfolding recover
    after_sync world (ok _) = lift (ok tt)
    after_sync world panic = lift panic
    after_sync world (err (consensus_sync_error e)) =
        if is_too_old e then recover world else lift (err (consensus_failed e))
    after_sync world (err e) = lift (err (node_failed e))

    unfoldable pub start_sync : World → StartMethod database (Unit {0})
    unfolding after_sync
    start_sync world client =
        let (res, node) =
          sync world.first_attempt.servers world.first_attempt.execution_rpc
            world.first_attempt.clock client.node in
        after_sync world res (set_node node client)

    unfoldable pub start : World → StartMethod database (Unit {0})
    unfolding start_server start_sync save_last_checkpoint
    start world = do
      start_server world.listens
      start_sync world
      writes (λ client. ok (save_last_checkpoint client))

  unfoldable pub shutdown : Client database → Client database
  unfolding save_last_checkpoint
  shutdown client = save_last_checkpoint client
