-- ===== src/Client/Start/Create.antt =====
-- client/src/client.rs: `Client::new`, with the parts of client/src/database.rs that it calls.
use forcerelay_verifier.Prelude.{
  ◌||◌, none, some, is_some, if◌then◌else◌, Outcome, ok, ok_or, map_err, ◌>>=◌,
}
use forcerelay_verifier.Common.{Bytes}
use forcerelay_verifier.Config.Types.{Config}
use forcerelay_verifier.Execution.Errors.{ExecutionError}
use forcerelay_verifier.Client.Node.{new_node}
use forcerelay_verifier.Client.Database.{
  FileSystem, FileDb, ConfigDb, file_db, config_db, save_checkpoint, load_checkpoint,
}
use forcerelay_verifier.Client.Start.{
  Database, Client, ClientError, node_failed, database_failed, new_rpc,
}

-- `impl Database for FileDB` and `impl Database for ConfigDB`
abbrev pub file_database : FileSystem → Database
file_database fs = record {
  Db = FileDb;
  Disk = fs.Files;
  create = file_db;
  load = λ db files. some (load_checkpoint fs db files);
  save = save_checkpoint fs;
}

abbrev pub config_database : Database
config_database = record {
  Db = ConfigDb;
  Disk = Unit;
  create = λ config. some (config_db config);
  load = λ db disk. some db.checkpoint;
  save = λ db checkpoint disk. some disk;
}

module _ (database : Database) where
  -- the checkpoint of the configuration, or else that of the database
  unfoldable pub start_checkpoint : Config → database.Db → database.Disk → Outcome ClientError Bytes
  start_checkpoint config db disk = elim config.checkpoint [
    | some checkpoint ↦ ok checkpoint
    | none ↦ ok_or (database.load db disk) database_failed
  ]

  -- `Client::new`, where `created` is how `ExecutionClient::new` ends
  unfoldable pub create_client :
      Config
      → Outcome ExecutionError (Unit {0})
      → database.Disk
      → Outcome ClientError (Client database)
  unfolding start_checkpoint new_node new_rpc
  create_client config created disk = do
    db ← ok_or (database.create config) database_failed
    checkpoint ← start_checkpoint config db disk
    let config' = record config { checkpoint = some checkpoint }
    node ← map_err (new_node config' created) node_failed
    ok (record {
      node = node;
      rpc =
          if is_some config.rpc_bind_ip || is_some config.rpc_port
          then some (new_rpc config.rpc_bind_ip config.rpc_port)
          else none;
      db = db;
      fallback = config.fallback;
      load_external_fallback = config.load_external_fallback;
      disk = some disk;
    })
