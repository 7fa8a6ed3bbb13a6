-- ===== src/Client/Builder/Options.antt =====
-- client/src/client.rs: what a build makes of the options.
use forcerelay_verifier.Prelude.{◌≡◌, refl, ok, is_ok, is_some, ◌||◌, ◌&&◌, arith}
use forcerelay_verifier.Config.Types.{Config}
use forcerelay_verifier.Config.Types
use forcerelay_verifier.Client.Builder.{ClientBuilder, new_builder, set_config, build_config}

-- A builder that was only given a configuration builds that configuration.
pub build_config-set_config :
    (config : Config) → build_config (set_config config new_builder) ≡ ok config
unfolding build_config set_config Types.to_base_config
build_config-set_config config = refl

-- A build returns exactly if it has a configuration, or else a network and both RPC addresses.
pub build_config_returns :
    (builder : ClientBuilder)
    → is_ok (build_config builder) ≡ (
        is_some builder.config
        || (is_some builder.network
            && is_some builder.consensus_rpc
            && is_some builder.execution_rpc))
unfolding build_config
build_config_returns builder = ground arith
