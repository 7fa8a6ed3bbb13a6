-- ===== src/Client/Builder.antt =====
-- client/src/client.rs: `ClientBuilder`, as on a target other than wasm32. `hex_decode` is `hex::decode`.
pub mod Options
use forcerelay_verifier.Prelude.{
  ℕ, Bool, true, false, ◌||◌, Option, none, some, Outcome, ok, err, panic, unwrap, ok_or, ◌>>=◌,
}
use forcerelay_verifier.Common.{Bytes, Text, hex_str_to_bytes}
use forcerelay_verifier.Config.Types.{Config, BaseConfig, IpAddr}
use forcerelay_verifier.Config.Types
use forcerelay_verifier.Config.Networks.{Network}
use forcerelay_verifier.Config.Networks

pub record ClientBuilder : Type 0 where
  pub network : Option Network
  pub consensus_rpc : Option Text
  pub execution_rpc : Option Text
  pub checkpoint : Option Bytes
  pub rpc_bind_ip : Option IpAddr
  pub rpc_port : Option ℕ
  pub data_dir : Option Text
  pub config : Option Config
  pub fallback : Option Text
  pub load_external_fallback : Bool
  pub strict_checkpoint_age : Bool

-- the report of `build`
pub data BuildError : Type 0 where
  missing_network_config : BuildError

-- `ClientBuilder::new`, the derived default
abbrev pub new_builder : ClientBuilder
new_builder = record {
  network = none;
  consensus_rpc = none;
  execution_rpc = none;
  checkpoint = none;
  rpc_bind_ip = none;
  rpc_port = none;
  data_dir = none;
  config = none;
  fallback = none;
  load_external_fallback = false;
  strict_checkpoint_age = false;
}

-- the setters; `checkpoint` panics on what is no hexadecimal text
unfoldable set_network : Network → ClientBuilder → ClientBuilder
set_network network builder = record builder { network = some network }

unfoldable set_consensus_rpc : Text → ClientBuilder → ClientBuilder
set_consensus_rpc rpc builder = record builder { consensus_rpc = some rpc }

unfoldable set_execution_rpc : Text → ClientBuilder → ClientBuilder
set_execution_rpc rpc builder = record builder { execution_rpc = some rpc }

unfoldable set_checkpoint :
    (Text → Option Bytes) → Text → ClientBuilder → Outcome BuildError ClientBuilder
set_checkpoint hex_decode text builder = do
  checkpoint ← unwrap (hex_str_to_bytes hex_decode text)
  ok (record builder { checkpoint = some checkpoint })

unfoldable set_rpc_port : ℕ → ClientBuilder → ClientBuilder
set_rpc_port port builder = record builder { rpc_port = some port }

unfoldable set_data_dir : Text → ClientBuilder → ClientBuilder
set_data_dir dir builder = record builder { data_dir = some dir }

unfoldable pub set_config : Config → ClientBuilder → ClientBuilder
set_config config builder = record builder { config = some config }

unfoldable set_fallback : Text → ClientBuilder → ClientBuilder
set_fallback fallback builder = record builder { fallback = some fallback }

unfoldable set_load_external_fallback : ClientBuilder → ClientBuilder
set_load_external_fallback builder = record builder { load_external_fallback = true }

unfoldable set_strict_checkpoint_age : ClientBuilder → ClientBuilder
set_strict_checkpoint_age builder = record builder { strict_checkpoint_age = true }

-- the base configuration, of the network or else of the configuration
unfoldable pub base_config : ClientBuilder → Outcome BuildError BaseConfig
base_config builder = elim builder.network [
  | some network ↦ ok (Networks.to_base_config network)
  | none ↦ (do
    config ← ok_or builder.config missing_network_config
    ok (Types.to_base_config config))
]

-- `if self.x.is_some() { self.x } else if let Some(config) = &self.config { config.x } else { None }`
abbrev pub or_config {ℓ} : {A : Type ℓ} → Option A → (Config → Option A) → Option Config → Option A
or_config (some a) read config = some a
or_config none read none = none
or_config none read (some config) = read config

-- `self.x.unwrap_or_else(|| self.config.as_ref().expect(…).x.clone())`
abbrev pub expect_config {ℓ} :
    {A : Type ℓ} → Option A → (Config → A) → Option Config → Outcome BuildError A
expect_config (some a) read config = ok a
expect_config none read none = panic
expect_config none read (some config) = ok (read config)

-- the value of the configuration, or another where there is none
abbrev pub from_config {ℓ} : {A : Type ℓ} → (Config → A) → A → Option Config → A
from_config read a none = a
from_config read a (some config) = read config

-- `ClientBuilder::build` up to the call of `Client::new`
unfoldable pub build_config : ClientBuilder → Outcome BuildError Config
unfolding base_config
build_config builder = do
  base ← base_config builder
  consensus_rpc ← expect_config builder.consensus_rpc (λ c. c.consensus_rpc) builder.config
  execution_rpc ← expect_config builder.execution_rpc (λ c. c.execution_rpc) builder.config
  ok (record {
    consensus_rpc = consensus_rpc;
    execution_rpc = execution_rpc;
    rpc_bind_ip = or_config builder.rpc_bind_ip (λ c. c.rpc_bind_ip) builder.config;
    rpc_port = or_config builder.rpc_port (λ c. c.rpc_port) builder.config;
    default_checkpoint =
        from_config (λ c. c.default_checkpoint) base.default_checkpoint builder.config;
    checkpoint = or_config builder.checkpoint (λ c. c.checkpoint) builder.config;
    data_dir = or_config builder.data_dir (λ c. c.data_dir) builder.config;
    chain = base.chain;
    forks = base.forks;
    max_checkpoint_age = base.max_checkpoint_age;
    fallback = or_config builder.fallback (λ c. c.fallback) builder.config;
    load_external_fallback =
        from_config (λ c. builder.load_external_fallback || c.load_external_fallback)
          builder.load_external_fallback builder.config;
    strict_checkpoint_age =
        from_config (λ c. builder.strict_checkpoint_age || c.strict_checkpoint_age)
          builder.strict_checkpoint_age builder.config;
  })
