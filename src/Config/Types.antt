-- ===== src/Config/Types.antt =====
-- config/src/types.rs, config.rs and base.rs: the records of the configuration.
-- IP addresses and paths are the numbers and texts that the program passes on and never reads.
use forcerelay_verifier.Prelude.{
  ℕ, ◌/◌, [], Bool, Option, none, some, unwrap_or, leb, if◌then◌else◌,
}
use forcerelay_verifier.Common.{Bytes, Text}

pub record ChainConfig : Type 0 where
  pub chain_id : ℕ
  pub genesis_time : ℕ
  pub genesis_root : Bytes

pub record Fork : Type 0 where
  pub epoch : ℕ
  pub fork_version : Bytes

pub record Forks : Type 0 where
  pub genesis : Fork
  pub altair : Fork
  pub bellatrix : Fork
  pub capella : Fork

-- An `IpAddr`; the program only hands it to the RPC server.
pub data IpAddr : Type 0 where
  v4 : ℕ → IpAddr
  v6 : ℕ → IpAddr

-- `Ipv4Addr::LOCALHOST`, 127.0.0.1
abbrev pub localhost : IpAddr
localhost = v4 0x7f000001

pub record Config : Type 0 where
  pub consensus_rpc : Text
  pub execution_rpc : Text
  pub rpc_bind_ip : Option IpAddr
  pub rpc_port : Option ℕ
  pub default_checkpoint : Bytes
  pub checkpoint : Option Bytes
  pub data_dir : Option Text
  pub chain : ChainConfig
  pub forks : Forks
  pub max_checkpoint_age : ℕ
  pub fallback : Option Text
  pub load_external_fallback : Bool
  pub strict_checkpoint_age : Bool

pub record BaseConfig : Type 0 where
  pub rpc_bind_ip : IpAddr
  pub rpc_port : ℕ
  pub consensus_rpc : Option Text
  pub default_checkpoint : Bytes
  pub chain : ChainConfig
  pub forks : Forks
  pub max_checkpoint_age : ℕ

-- `BaseConfig::default()`; the default of a chain and of a fork is zeros and empty byte strings
abbrev pub base_default : BaseConfig
base_default = record {
  rpc_bind_ip = localhost;
  rpc_port = 0;
  consensus_rpc = none;
  default_checkpoint = [];
  chain = record { chain_id = 0; genesis_time = 0; genesis_root = [] };
  forks = record {
    genesis = record { epoch = 0; fork_version = [] };
    altair = record { epoch = 0; fork_version = [] };
    bellatrix = record { epoch = 0; fork_version = [] };
    capella = record { epoch = 0; fork_version = [] };
  };
  max_checkpoint_age = 0;
}

unfoldable pub fork_version : Config → ℕ → Bytes
fork_version config slot =
    let epoch = slot / 32 in
    if leb config.forks.capella.epoch epoch
    then config.forks.capella.fork_version
    else if leb config.forks.bellatrix.epoch epoch
    then config.forks.bellatrix.fork_version
    else if leb config.forks.altair.epoch epoch
    then config.forks.altair.fork_version
    else config.forks.genesis.fork_version

unfoldable pub to_base_config : Config → BaseConfig
to_base_config config = record {
  rpc_bind_ip = unwrap_or config.rpc_bind_ip localhost;
  rpc_port = unwrap_or config.rpc_port 8545;
  consensus_rpc = some config.consensus_rpc;
  default_checkpoint = config.default_checkpoint;
  chain = config.chain;
  forks = config.forks;
  max_checkpoint_age = config.max_checkpoint_age;
}
