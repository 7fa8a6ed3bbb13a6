-- ===== src/Config/Loading.antt =====
-- config/src/config.rs: `Config::from_file`. figment is a parameter: what it extracts for a profile
-- from providers that are merged one after the other.
use forcerelay_verifier.Prelude.{
  List, [], ◌∷◌, ◌++◌, map, Option, ◌==◌, if◌then◌else◌, bytes_eq, Outcome, unwrap, map_err, ◌>>=◌,
}
use forcerelay_verifier.Common.{Bytes, Text}
use forcerelay_verifier.Common.Numbers.{codes}
use forcerelay_verifier.Config.CommandLine.{CliConfig, Dict, as_provider}
use forcerelay_verifier.Config.Networks.{mainnet, goerli}
use forcerelay_verifier.Config.Types.{IpAddr, Config, BaseConfig, base_default}

-- `Serialized::from` a record or a dictionary with its profile, and `Toml::file(path).nested()`
pub data Provider : Type 0 where
  base : BaseConfig → Text → Provider
  toml : Text → Provider
  user : Dict → Text → Provider

-- figment's error: a missing field, or another kind with the text of the error
pub data FigmentError : Type 0 where
  missing_field : Text → FigmentError
  other_kind : Text → FigmentError

unfoldable pub base_config : Text → BaseConfig
base_config network =
    if bytes_eq network (codes "mainnet")
    then mainnet
    else if bytes_eq network (codes "goerli")
    then goerli
    else base_default

-- `field.replace('_', "-")`
abbrev pub dashed : Text → Text
dashed = map (λ c. if c == b'_' then b'-' else c)

abbrev red_error : Text
red_error = 0x1b ∷ codes "[91merror" ++ 0x1b ∷ codes "[0m"

-- what is printed, a `println!` each
unfoldable pub report : FigmentError → List Text
report (missing_field field) =
    (red_error ++ codes ": missing configuration field: " ++ dashed field)
    ∷ (0x0a ∷ 0x09 ∷ codes "try supplying the proper command line argument: --" ++ dashed field)
    ∷ (0x09
        ∷ codes
            "alternatively, you can add the field to your helios.toml file or as an environment variable")
    ∷ (0x0a ∷ codes "for more information, check the github README")
    ∷ []
report (other_kind text) = (codes "cannot parse configuration: " ++ text) ∷ []

module _ (extract : List Provider → Text → Outcome FigmentError Config) (hex_encode : Bytes → Text)
    (ip_text : IpAddr → Text) (to_str : Text → Option Text) where
  -- The error is what is printed before the process exits with status 1.
  unfoldable pub from_file : Text → Text → CliConfig → Outcome (List Text) Config
  unfolding base_config report as_provider
  from_file config_path network cli_config = do
    user_dict ← unwrap (as_provider hex_encode ip_text to_str cli_config)
    map_err
        (extract
          (base (base_config network) network ∷ toml config_path ∷ user user_dict network ∷ [])
          network)
        report
