-- ===== src/Client/Database.antt =====
-- client/src/database.rs: where the last checkpoint is kept between runs.
use forcerelay_verifier.Prelude.{
  ◌≡◌, refl, Bool, true, ◌&&◌, Option, none, some, [], ◌∷◌, length, ◌==◌, if◌then◌else◌, unwrap_or,
  Bool-cases, inl, inr,
}
use forcerelay_verifier.Common.{Bytes, Text}
use forcerelay_verifier.Config.Types.{Config}

-- The file system: `none` is an error. A read is whether the file could be opened, and the bytes that
-- were read before its end or an error.
pub record FileSystem : Type 1 where
  pub Files : Type 0
  pub join : Text → Text → Text
  pub create_dir_all : Text → Files → Option Files
  pub overwrite : Text → Bytes → Files → Option Files
  pub read_to_end : Text → Files → Bool × Bytes

pub record FileDb : Type 0 where
  pub data_dir : Text
  pub default_checkpoint : Bytes

pub record ConfigDb : Type 0 where
  pub checkpoint : Bytes

-- "checkpoint"
abbrev checkpoint_name : Text
checkpoint_name = 0x63 ∷ 0x68 ∷ 0x65 ∷ 0x63 ∷ 0x6b ∷ 0x70 ∷ 0x6f ∷ 0x69 ∷ 0x6e ∷ 0x74 ∷ []

-- `FileDB::new`: `none` is the error that the configuration has no directory
unfoldable pub file_db : Config → Option FileDb
file_db config = elim config.data_dir [
  | some data_dir ↦
      some (record { data_dir = data_dir; default_checkpoint = config.default_checkpoint })
  | none ↦ none
]

module _ (fs : FileSystem) where
  abbrev pub checkpoint_file : FileDb → Text
  checkpoint_file db = fs.join db.data_dir checkpoint_name

  -- `FileDB::save_checkpoint`
  unfoldable pub save_checkpoint : FileDb → Bytes → fs.Files → Option fs.Files
  save_checkpoint db checkpoint files = elim (fs.create_dir_all db.data_dir files) [
    | none ↦ none
    | some created ↦ fs.overwrite (checkpoint_file db) checkpoint created
  ]

  -- `FileDB::load_checkpoint`
  unfoldable pub load_checkpoint : FileDb → fs.Files → Bytes
  load_checkpoint db files =
      let (opened, buf) = fs.read_to_end (checkpoint_file db) files in
      if length buf == 32 && opened then buf else db.default_checkpoint

-- `ConfigDB::new`, whose checkpoint is loaded, and never saved
unfoldable pub config_db : Config → ConfigDb
config_db config = record { checkpoint = unwrap_or config.checkpoint config.default_checkpoint }

module _ (fs : FileSystem) where
  -- A file that was overwritten can be opened and holds what was written.
  abbrev pub KeepsWrites : Type 0
  KeepsWrites =
      (name : Text) (bytes : Bytes) (files written : fs.Files)
      → fs.overwrite name bytes files ≡ some written
      → fs.read_to_end name written ≡ (true, bytes)

  -- Where the file system reads back what it wrote, a checkpoint that was saved is what is loaded
  -- next if it has 32 bytes, and the default is loaded otherwise.
  pub load_checkpoint-save_checkpoint :
      (db : FileDb) (checkpoint : Bytes) (files saved : fs.Files)
      → KeepsWrites
      → save_checkpoint fs db checkpoint files ≡ some saved
      → load_checkpoint fs db saved
        ≡ (if length checkpoint == 32 then checkpoint else db.default_checkpoint)
  unfolding save_checkpoint load_checkpoint
  load_checkpoint-save_checkpoint db checkpoint files saved keeps h =
      go (fs.create_dir_all db.data_dir files) h
    where
      go :
          (created : Option fs.Files)
          → (elim created [
            | none ↦ none
            | some files' ↦ fs.overwrite (checkpoint_file fs db) checkpoint files'
          ])
            ≡ some saved
          → load_checkpoint fs db saved
            ≡ (if length checkpoint == 32 then checkpoint else db.default_checkpoint)
      go none e = cc
      go (some files') e =
          rw (keeps (checkpoint_file fs db) checkpoint files' saved e)
            (elim (Bool-cases (length checkpoint == 32)) [ inl q ↦ rw q refl | inr q ↦ rw q refl ])
