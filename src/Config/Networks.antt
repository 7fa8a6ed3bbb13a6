-- ===== src/Config/Networks.antt =====
-- config/src/networks.rs: the networks and their base configurations.
use forcerelay_verifier.Config.Forks.{IsSchedule}
use forcerelay_verifier.Prelude.{refl, arith, [], ◌∷◌, none, some}
use forcerelay_verifier.Config.Types.{BaseConfig, base_default}

pub data Network : Type 0 where
  mainnet_network goerli_network : Network

abbrev pub mainnet : BaseConfig
mainnet = record {
  rpc_bind_ip = base_default.rpc_bind_ip;
  rpc_port = 8545;
  consensus_rpc = some (
      0x68 ∷ 0x74 ∷ 0x74 ∷ 0x70 ∷ 0x73 ∷ 0x3a ∷ 0x2f ∷ 0x2f ∷ 0x77 ∷ 0x77 ∷ 0x77 ∷ 0x2e ∷ 0x6c
      ∷ 0x69 ∷ 0x67 ∷ 0x68 ∷ 0x74 ∷ 0x63 ∷ 0x6c ∷ 0x69 ∷ 0x65 ∷ 0x6e ∷ 0x74 ∷ 0x64 ∷ 0x61 ∷ 0x74
      ∷ 0x61 ∷ 0x2e ∷ 0x6f ∷ 0x72 ∷ 0x67 ∷ []);
  default_checkpoint =
      (0x76 ∷ 0x66 ∷ 0x47 ∷ 0xf3 ∷ 0xc4 ∷ 0xe1 ∷ 0xfc ∷ 0x91 ∷ 0xc0 ∷ 0xdb ∷ 0x9a ∷ 0x93 ∷ 0x74
        ∷ 0x03 ∷ 0x2a ∷ 0xe0 ∷ 0x38 ∷ 0x77 ∷ 0x84 ∷ 0x11 ∷ 0xfb ∷ 0xff ∷ 0x22 ∷ 0x29 ∷ 0x74 ∷ 0xe1
        ∷ 0x1f ∷ 0x2e ∷ 0x3c ∷ 0xe7 ∷ 0xda ∷ 0xdf ∷ []);
  chain = record {
    chain_id = 1;
    genesis_time = 1606824023;
    genesis_root =
        (0x4b ∷ 0x36 ∷ 0x3d ∷ 0xb9 ∷ 0x4e ∷ 0x28 ∷ 0x61 ∷ 0x20 ∷ 0xd7 ∷ 0x6e ∷ 0xb9 ∷ 0x05 ∷ 0x34
          ∷ 0x0f ∷ 0xdd ∷ 0x4e ∷ 0x54 ∷ 0xbf ∷ 0xe9 ∷ 0xf0 ∷ 0x6b ∷ 0xf3 ∷ 0x3f ∷ 0xf6 ∷ 0xcf ∷ 0x5a
          ∷ 0xd2 ∷ 0x7f ∷ 0x51 ∷ 0x1b ∷ 0xfe ∷ 0x95 ∷ []);
  };
  forks = record {
    genesis = record { epoch = 0; fork_version = (0x00 ∷ 0x00 ∷ 0x00 ∷ 0x00 ∷ []) };
    altair = record { epoch = 74240; fork_version = (0x01 ∷ 0x00 ∷ 0x00 ∷ 0x00 ∷ []) };
    bellatrix = record { epoch = 144896; fork_version = (0x02 ∷ 0x00 ∷ 0x00 ∷ 0x00 ∷ []) };
    capella = record { epoch = 194048; fork_version = (0x03 ∷ 0x00 ∷ 0x00 ∷ 0x00 ∷ []) };
  };
  max_checkpoint_age = 1209600;
}

abbrev pub goerli : BaseConfig
goerli = record {
  rpc_bind_ip = base_default.rpc_bind_ip;
  rpc_port = 8545;
  consensus_rpc = none;
  default_checkpoint =
      (0xd4 ∷ 0x34 ∷ 0x46 ∷ 0x82 ∷ 0x86 ∷ 0x6d ∷ 0xbe ∷ 0xde ∷ 0x54 ∷ 0x33 ∷ 0x95 ∷ 0xec ∷ 0xf5
        ∷ 0xad ∷ 0xf9 ∷ 0x44 ∷ 0x3a ∷ 0x27 ∷ 0xf4 ∷ 0x23 ∷ 0xa4 ∷ 0xb0 ∷ 0x0f ∷ 0x27 ∷ 0x04 ∷ 0x58
        ∷ 0xe7 ∷ 0x93 ∷ 0x26 ∷ 0x86 ∷ 0xce ∷ 0xd1 ∷ []);
  chain = record {
    chain_id = 5;
    genesis_time = 1616508000;
    genesis_root =
        (0x04 ∷ 0x3d ∷ 0xb0 ∷ 0xd9 ∷ 0xa8 ∷ 0x38 ∷ 0x13 ∷ 0x55 ∷ 0x1e ∷ 0xe2 ∷ 0xf3 ∷ 0x34 ∷ 0x50
          ∷ 0xd2 ∷ 0x37 ∷ 0x97 ∷ 0x75 ∷ 0x7d ∷ 0x43 ∷ 0x09 ∷ 0x11 ∷ 0xa9 ∷ 0x32 ∷ 0x05 ∷ 0x30 ∷ 0xad
          ∷ 0x8a ∷ 0x0e ∷ 0xab ∷ 0xc4 ∷ 0x3e ∷ 0xfb ∷ []);
  };
  forks = record {
    genesis = record { epoch = 0; fork_version = (0x00 ∷ 0x00 ∷ 0x10 ∷ 0x20 ∷ []) };
    altair = record { epoch = 36660; fork_version = (0x01 ∷ 0x00 ∷ 0x10 ∷ 0x20 ∷ []) };
    bellatrix = record { epoch = 112260; fork_version = (0x02 ∷ 0x00 ∷ 0x10 ∷ 0x20 ∷ []) };
    capella = record { epoch = 162304; fork_version = (0x03 ∷ 0x00 ∷ 0x10 ∷ 0x20 ∷ []) };
  };
  max_checkpoint_age = 1209600;
}

unfoldable pub to_base_config : Network → BaseConfig
to_base_config mainnet_network = mainnet
to_base_config goerli_network = goerli

-- The forks of each network begin in the order of their names, the first at epoch 0.
pub networks-IsSchedule : (network : Network) → IsSchedule (to_base_config network).forks
unfolding to_base_config
networks-IsSchedule mainnet_network = record {
  from_zero = refl;
  altair_later = omega arith;
  bellatrix_later = omega arith;
  capella_later = omega arith;
}
networks-IsSchedule goerli_network = record {
  from_zero = refl;
  altair_later = omega arith;
  bellatrix_later = omega arith;
  capella_later = omega arith;
}
