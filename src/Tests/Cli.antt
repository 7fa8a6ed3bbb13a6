-- ===== src/Tests/Cli.antt =====
-- The theorem on the command line at a concrete input.
use forcerelay_verifier.Prelude.{◌≡◌, refl, true, false, none, some, [], ◌++◌, ok, panic, hash_get}
use forcerelay_verifier.Common.{Text, hex_str_to_bytes}
use forcerelay_verifier.Common.Numbers.{codes}
use forcerelay_verifier.Config.CommandLine.{
  CliConfig, entries, text, as_provider, bytes_opt_deserialize,
}
use forcerelay_verifier.Cli.{Cli, Platform, as_cli_config, get_data_dir}
use forcerelay_verifier.Cli.Checkpoint.{as_cli_config-as_provider}

-- a byte is its own digit
abbrev platform : Platform
platform = record { home_dir = none; join = λ a b. a ++ b; hex_decode = some }

abbrev cli : Cli
cli = record {
  network = codes "mainnet";
  rpc_bind_ip = none;
  rpc_port = some 8545;
  checkpoint = some (codes "0xab");
  execution_rpc = some (codes "http://localhost");
  consensus_rpc = none;
  data_dir = some (codes "data");
  fallback = none;
  load_external_fallback = false;
  strict_checkpoint_age = true;
}

-- Without a home directory the default data directory is a panic.
homeless : get_data_dir platform (record cli { data_dir = none }) ≡ panic
unfolding get_data_dir
homeless = refl

abbrev options : CliConfig
options = record {
  execution_rpc = some (codes "http://localhost");
  consensus_rpc = none;
  checkpoint = some (codes "ab");
  rpc_bind_ip = none;
  rpc_port = some 8545;
  data_dir = codes "data";
  fallback = none;
  load_external_fallback = false;
  strict_checkpoint_age = true;
}

converts : as_cli_config platform cli ≡ ok options
unfolding as_cli_config hex_str_to_bytes
converts = refl

as_cli_config-as_provider_example :
    (t : Text) × (hash_get (codes "checkpoint") (entries (λ b. b) (λ ip. []) options (codes "data"))
      ≡ some (text t))
    × (bytes_opt_deserialize some (ok (some t)) ≡ ok (some (codes "ab")))
unfolding as_provider hex_str_to_bytes
as_cli_config-as_provider_example =
    as_cli_config-as_provider (λ b. b) (λ ip. []) some platform cli refl refl refl refl converts
      refl
