-- ===== src/Tests/Client.antt =====
-- The theorems on client/src: a file system that keeps the file written last, the node of
-- `Tests/Node.antt`, and a client over both.
use forcerelay_verifier.Prelude.{
  ◌≡◌, refl, subst, true, some, [], ◌∷◌, replicate, bytes_eq, bytes_eq_refl, some-injective,
}
use forcerelay_verifier.Prelude.{
  ◌≢◌, ℕ, false, none, ok, panic, arith, length, min, leb, if◌then◌else◌,
}
use forcerelay_verifier.Prelude.{◌↔◌, ◌≤◌, ◌+◌}
use forcerelay_verifier.Common.{Bytes, Text, latest}
use forcerelay_verifier.Config.Types.{Config}
use forcerelay_verifier.Config.Networks.{mainnet_network}
use forcerelay_verifier.Config.Checkpoints.{fetch_checkpoint_from_api}
use forcerelay_verifier.Consensus.Bootstrap.{check_bootstrap}
use forcerelay_verifier.Consensus.Payloads
use forcerelay_verifier.Consensus.State.{is_valid_checkpoint, new_client}
use forcerelay_verifier.Consensus.Sync
use forcerelay_verifier.Execution.Client as ExecutionClient
use forcerelay_verifier.Client.Node.Updates.{advance, sync, update_payloads}
use forcerelay_verifier.Client.Node.Window.{
  IsWindow, IsBounded, updates-IsWindow, advance-IsBounded,
}
use forcerelay_verifier.Client.Node.Verified.{IsSound, advance-IsSound}
use forcerelay_verifier.Client.Node.Answers.{syncing_same_clock, check_head_age_iff}
use forcerelay_verifier.Client.Node.Queries.{get_payload, syncing, is_syncing, check_head_age}
use forcerelay_verifier.Client.Node.{Node, store_backfill, store_payloads, insert_all}
use forcerelay_verifier.Client.Node.Refines.{view, written, store_refines}
use forcerelay_verifier.Client.Node.Backfill.{update_payloads_latest}
use forcerelay_verifier.Client.Builder.{build_config, new_builder}
use forcerelay_verifier.Client.Start.{Client, World, Attempt, start, save_last_checkpoint}
use forcerelay_verifier.Client.Start.Create.{file_database, create_client}
use forcerelay_verifier.Client.Start.Resume.{create_client-save_last_checkpoint}
use forcerelay_verifier.Client.Start.Sources.{IsSource, start-IsSource}
use forcerelay_verifier.Tests.Light
use forcerelay_verifier.Tests.Ledger
use forcerelay_verifier.Tests.Node.{
  light, ledger, node, servers, node-IsSound, advances, forged, forging_servers, short_node,
  verifies_latest, verifies_finalized, backfills,
}
use forcerelay_verifier.Client.Database.{
  FileSystem, FileDb, KeepsWrites, save_checkpoint, checkpoint_file,
}

abbrev one_file : FileSystem
one_file = record {
  Files = Text × Bytes;
  join = λ folder name. folder;
  create_dir_all = λ folder files. some files;
  overwrite = λ name bytes files. some (name, bytes);
  read_to_end = λ name files. (bytes_eq name files.0, files.1);
}

one_file-KeepsWrites : KeepsWrites one_file
one_file-KeepsWrites name bytes files written e =
    subst (λ w. one_file.read_to_end name w ≡ (true, bytes)) (some-injective e)
      (λ i. (bytes_eq_refl name i, bytes))

abbrev db : FileDb
db = record { data_dir = 0x64 ∷ []; default_checkpoint = replicate 32 0 }

saved :
    save_checkpoint one_file db (replicate 32 7) ([], [])
    ≡ some (checkpoint_file one_file db, replicate 32 7)
unfolding save_checkpoint
saved = refl

updates-IsWindow_example :
    IsWindow (advance servers (λ i. Light.now) node).1
    × IsWindow (sync servers Ledger.rpc (λ i. Light.now) node).1
updates-IsWindow_example =
    updates-IsWindow servers (λ i. Light.now) Ledger.rpc node
      (((tt, tt), (refl, tt)), ((tt, tt), (refl, tt)))

advance-IsBounded_example : IsBounded (advance servers (λ i. Light.now) node).1
advance-IsBounded_example =
    advance-IsBounded servers (λ i. Light.now) node
      (λ i. (advances i, (advance servers (λ j. Light.now) node).1))

advance-IsSound_example : IsSound Light.config Light.root (advance servers (λ i. Light.now) node).1
advance-IsSound_example =
    advance-IsSound Light.config Light.root servers (λ i. Light.now) node node-IsSound

syncing_same_clock_example : syncing 5000 5000 5000 node ≢ ok (is_syncing 7 333 7)
syncing_same_clock_example = syncing_same_clock 5000 5000 node 7 333 7

-- a head at slot 70, five slots before the clock's
abbrev behind : Node
behind = record node { consensus = Light.client }

check_head_age_iff_example : (check_head_age 1900 behind ≡ ok tt) ↔ ((70 ≤ 75) × (75 ≤ 70 + 10))
check_head_age_iff_example =
    check_head_age_iff 1900 behind (omega arith) (omega arith) (omega arith)

update_payloads_latest_example :
    get_payload latest (update_payloads forging_servers short_node).1 ≡ ok forged
update_payloads_latest_example =
    update_payloads_latest forging_servers short_node (Light.payload_at 64) (Light.payload_at 64)
      forged verifies_latest verifies_finalized backfills (omega arith, (omega arith, tt))
      (omega arith)

-- With a network and one RPC address, a build panics.
half_built :
    build_config (record new_builder { network = some mainnet_network; consensus_rpc = some [] })
    ≡ panic
unfolding build_config
half_built = refl

abbrev advanced_client : Client (file_database one_file)
advanced_client = record {
  node = record node {
    consensus = record node.consensus { last_checkpoint = some (replicate 32 7) };
  };
  rpc = none;
  db = db;
  fallback = some (1 ∷ []);
  load_external_fallback = false;
  disk = some ([], []);
}

saves :
    (save_last_checkpoint advanced_client).disk ≡ some (checkpoint_file one_file db, replicate 32 7)
unfolding save_last_checkpoint save_checkpoint
saves = refl

abbrev next_config : Config
next_config = record Light.config { data_dir = some (0x64 ∷ []) }

create_client-save_last_checkpoint_example :
    (next : Client (file_database one_file)) × (create_client
        (file_database one_file)
        next_config
        (ok tt)
        (checkpoint_file one_file db, replicate 32 7)
      ≡ ok next)
    × (next.node.consensus.initial_checkpoint ≡ replicate 32 7)
create_client-save_last_checkpoint_example =
    create_client-save_last_checkpoint one_file advanced_client next_config (ok tt) (replicate 32 7)
      ([], []) (checkpoint_file one_file db, replicate 32 7) one_file-KeepsWrites refl refl refl
      saves refl refl

-- no bootstrap is young enough ten years later, and the fallback service gives another root
abbrev late : Attempt
late = record {
  servers = servers;
  execution_rpc = record Ledger.rpc { chain_id = ok 5 };
  clock = λ i. 400_000_000;
}

abbrev world : World
world = record {
  listens = true;
  first_attempt = late;
  fallback_attempt = late;
  external_attempt = late;
  query = λ url. some (record {
    response_data = record {
      slots =
          record {
            slot = 64;
            block_root = some (replicate 32 9);
            state_root = none;
            epoch = 2;
            time = record { start_time = []; end_time = [] };
          }
          ∷ [];
    };
  });
  iterate = λ m. m;
  service_list = none;
}

start-IsSource_example :
    IsSource world advanced_client (start world advanced_client).1.node.consensus.initial_checkpoint
start-IsSource_example = start-IsSource world advanced_client

-- The client takes the fallback's checkpoint, and finds that one too old as well.
falls_back : (start world advanced_client).1.node.consensus.initial_checkpoint ≡ replicate 32 9
unfolding start sync ExecutionClient.check_rpc Payloads.check_rpc Sync.sync Sync.boot
    check_bootstrap is_valid_checkpoint fetch_checkpoint_from_api new_client
falls_back = refl

store_refines_example :
    (length
        (store_backfill
          (forged ∷ [])
          (store_payloads (Light.payload_at 64) (Light.payload_at 64) node)).payloads
      ≡ min 64 (
          length
            (insert_all (Light.payload_at 64 ∷ Light.payload_at 64 ∷ forged ∷ []) node.payloads)))
    × ((bound : ℕ) × ((k : ℕ)
          → view
              (store_backfill
                (forged ∷ [])
                (store_payloads (Light.payload_at 64) (Light.payload_at 64) node)).payloads
              k
            ≡ (if leb bound k
                then written
                    (Light.payload_at 64 ∷ Light.payload_at 64 ∷ forged ∷ [])
                    (view node.payloads)
                    k
                else none)))
store_refines_example =
    store_refines (Light.payload_at 64) (Light.payload_at 64) (forged ∷ []) node
      (((tt, tt), (refl, tt)), ((tt, tt), (refl, tt)))
