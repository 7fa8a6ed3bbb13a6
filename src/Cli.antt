-- ===== src/Cli.antt =====
-- cli/src/main.rs: the options of the command line, which clap reads, and the handler of ctrl-c.
-- The start of the program is calls of other parts: `get_config`, `ClientBuilder` and `start`.
pub mod Checkpoint
use forcerelay_verifier.Prelude.{
  ℕ, ◌+◌, ◌==◌, ◌≡◌, refl, Bool, true, false, Option, none, some, if◌then◌else◌, Outcome, ok, panic,
  unwrap, ◌++◌, ◌>>=◌,
}
use forcerelay_verifier.Common.{Bytes, Text, hex_str_to_bytes}
use forcerelay_verifier.Common.Numbers.{codes}
use forcerelay_verifier.Common.Tags.{DeError}
use forcerelay_verifier.Config.CommandLine.{CliConfig}
use forcerelay_verifier.Config.Types.{IpAddr}

pub record Cli : Type 0 where
  pub network : Text
  pub rpc_bind_ip : Option IpAddr
  pub rpc_port : Option ℕ
  pub checkpoint : Option Text
  pub execution_rpc : Option Text
  pub consensus_rpc : Option Text
  pub data_dir : Option Text
  pub fallback : Option Text
  pub load_external_fallback : Bool
  pub strict_checkpoint_age : Bool

-- The calls of the program that are not in `src`: `home_dir` of dirs, `Path::join`, `hex::decode`.
-- `PathBuf::from_str` of a text never fails.
pub record Platform : Type 0 where
  pub home_dir : Option Text
  pub join : Text → Text → Text
  pub hex_decode : Text → Option Bytes

-- no call returns an error: each returns or panics
abbrev pub Total : Type 0 → Type 0
Total A = Outcome ⊥ A

module _ (platform : Platform) where
  abbrev default_data_dir : Text → Total Text
  default_data_dir network = do
    home ← unwrap platform.home_dir
    ok (platform.join home (codes ".helios/data/" ++ network))

  unfoldable pub get_data_dir : Cli → Total Text
  get_data_dir cli = elim cli.data_dir [ some dir ↦ ok dir | none ↦ default_data_dir cli.network ]

  abbrev checkpoint_bytes : Option Text → Total (Option Bytes)
  unfolding hex_str_to_bytes
  checkpoint_bytes none = ok none
  checkpoint_bytes (some c) = do
    bytes ← unwrap (hex_str_to_bytes platform.hex_decode c)
    ok (some bytes)

  unfoldable pub as_cli_config : Cli → Total CliConfig
  unfolding checkpoint_bytes get_data_dir
  as_cli_config cli = do
    checkpoint ← checkpoint_bytes cli.checkpoint
    data_dir ← get_data_dir cli
    ok (record {
      checkpoint = checkpoint;
      execution_rpc = cli.execution_rpc;
      consensus_rpc = cli.consensus_rpc;
      data_dir = data_dir;
      rpc_bind_ip = cli.rpc_bind_ip;
      rpc_port = cli.rpc_port;
      fallback = cli.fallback;
      load_external_fallback = cli.load_external_fallback;
      strict_checkpoint_age = cli.strict_checkpoint_age;
    })

-- The handler of ctrl-c: its counter, the threads that it has spawned to shut the client down, and
-- whether it has ended the process.
pub record Handler : Type 0 where
  pub counter : ℕ
  pub shutdowns : ℕ
  pub exited : Bool

abbrev pub registered : Handler
registered = record { counter = 0; shutdowns = 0; exited = false }

-- a call of the handler
unfoldable pub press : Handler → Handler
press handler =
    let counter_value = handler.counter + 1 in
    if counter_value == 3
    then record handler { counter = counter_value; exited = true }
    else record handler {
      counter = counter_value;
      shutdowns = if counter_value == 1 then handler.shutdowns + 1 else handler.shutdowns;
    }

-- The first call starts the shutdown, the second only counts, and the third ends the process.
presses :
    (press registered ≡ record { counter = 1; shutdowns = 1; exited = false })
    × (press (press registered) ≡ record { counter = 2; shutdowns = 1; exited = false })
    × ((press (press (press registered))).exited ≡ true)
unfolding press
presses = (refl, refl, refl)
