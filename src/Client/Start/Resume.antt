-- ===== src/Client/Start/Resume.antt =====
-- client/src/client.rs and database.rs: a client that is shut down, and the next one.
use forcerelay_verifier.Prelude.{
  ◌≡◌, refl, none, some, length, ◌==◌, ◌∙◌, true, Outcome, ok, err, panic,
}
use forcerelay_verifier.Common.{Bytes, Text}
use forcerelay_verifier.Config.Types.{Config}
use forcerelay_verifier.Client.Database.{
  FileSystem, FileDb, KeepsWrites, file_db, save_checkpoint, load_checkpoint,
  load_checkpoint-save_checkpoint,
}
use forcerelay_verifier.Execution.Errors.{ExecutionError}
use forcerelay_verifier.Client.Errors.{execution_client_creation_error}
use forcerelay_verifier.Client.Start.{Client, ClientError, node_failed, save_last_checkpoint}
use forcerelay_verifier.Client.Start.Create.{file_database, create_client}

module _ (fs : FileSystem) where
  saved_checkpoint :
      (client : Client (file_database fs)) {checkpoint : Bytes} {disk saved : fs.Files}
      → client.node.consensus.last_checkpoint ≡ some checkpoint
      → client.disk ≡ some disk
      → (save_last_checkpoint client).disk ≡ some saved
      → save_checkpoint fs client.db checkpoint disk ≡ some saved
  unfolding save_last_checkpoint
  saved_checkpoint client p q e = rw (p, q) at e

  loaded :
      (db : FileDb) (config : Config) (checkpoint : Bytes) (disk saved : fs.Files)
      → KeepsWrites fs
      → (length checkpoint == 32) ≡ true
      → save_checkpoint fs db checkpoint disk ≡ some saved
      → load_checkpoint fs (record db { default_checkpoint = config.default_checkpoint }) saved
        ≡ checkpoint
  unfolding save_checkpoint
  loaded db config checkpoint disk saved keeps size e = rw size at (
      load_checkpoint-save_checkpoint fs
        (record db { default_checkpoint = config.default_checkpoint }) checkpoint disk saved keeps
        e)

  -- how `create_client` ends after `ExecutionClient::new`, with the client where that returns
  abbrev pub after_creation :
      Outcome ExecutionError (Unit {0})
      → Client (file_database fs)
      → Outcome ClientError (Client (file_database fs))
  after_creation (ok _) next = ok next
  after_creation (err e) next = err (node_failed (execution_client_creation_error e))
  after_creation panic next = panic

  next_client :
      (config : Config) (saved : fs.Files) {data_dir : Text}
      → config.checkpoint ≡ none
      → config.data_dir ≡ some data_dir
      → (next : Client (file_database fs)) × (create_client (file_database fs) config (ok tt) saved
          ≡ ok next)
        × (next.node.consensus.initial_checkpoint
            ≡ load_checkpoint fs
                (record { data_dir = data_dir; default_checkpoint = config.default_checkpoint })
                saved)
  unfolding create_client file_db
  next_client config saved no_checkpoint dir = rw (dir, no_checkpoint) (_, refl, refl)

  create_client-after_creation :
      (config : Config) (created : Outcome ExecutionError (Unit {0})) (saved : fs.Files)
      {next : Client (file_database fs)} {data_dir : Text}
      → config.checkpoint ≡ none
      → config.data_dir ≡ some data_dir
      → create_client (file_database fs) config (ok tt) saved ≡ ok next
      → create_client (file_database fs) config created saved ≡ after_creation created next
  unfolding create_client file_db
  create_client-after_creation config (ok u) saved no_checkpoint dir e = e
  create_client-after_creation config (err x) saved no_checkpoint dir e =
      rw (dir, no_checkpoint) refl
  create_client-after_creation config panic saved no_checkpoint dir e = rw (dir, no_checkpoint) refl

  -- On a file system that reads back what it wrote: a client that is shut down saves a last checkpoint
  -- of 32 bytes, and the next client has the same directory and no checkpoint of its own. Then its
  -- creation fails exactly as that of its execution client does, and where that returns, the next
  -- client is created, and is to boot from the saved checkpoint.
  pub create_client-save_last_checkpoint :
      (client : Client (file_database fs)) (config : Config)
      (created : Outcome ExecutionError (Unit {0})) (checkpoint : Bytes) (disk saved : fs.Files)
      → KeepsWrites fs
      → (length checkpoint == 32) ≡ true
      → client.node.consensus.last_checkpoint ≡ some checkpoint
      → client.disk ≡ some disk
      → (save_last_checkpoint client).disk ≡ some saved
      → config.checkpoint ≡ none
      → config.data_dir ≡ some client.db.data_dir
      → (next : Client (file_database fs)) × (create_client (file_database fs) config created saved
          ≡ after_creation created next)
        × (next.node.consensus.initial_checkpoint ≡ checkpoint)
  create_client-save_last_checkpoint client config created checkpoint disk saved keeps size p q e
        no_checkpoint dir =
      let (next, creates, boots) = next_client config saved no_checkpoint dir in
      (
        next,
        create_client-after_creation config created saved no_checkpoint dir creates,
        boots
            ∙ loaded client.db config checkpoint disk saved keeps size
                (saved_checkpoint client p q e),
      )
