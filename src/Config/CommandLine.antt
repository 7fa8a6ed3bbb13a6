-- ===== src/Config/CommandLine.antt =====
-- config/src/cli.rs and utils.rs: the options of the command line as a dictionary of figment, and the
-- texts of byte strings in it. hex, `IpAddr::to_string` and `Path::to_str` are parameters.
use mathlib.Core.Option
use forcerelay_verifier.Prelude.{
  ℕ, Bool, Option, none, some, List, [], ◌∷◌, ◌++◌, ok, unwrap, ◌>>=◌,
}
use forcerelay_verifier.Common.{Bytes, Text, hex_str_to_bytes}
use forcerelay_verifier.Common.Numbers.{codes}
use forcerelay_verifier.Common.Tags.{Deserialized}
use forcerelay_verifier.Config.Types.{IpAddr}

pub record CliConfig : Type 0 where
  pub execution_rpc : Option Text
  pub consensus_rpc : Option Text
  pub checkpoint : Option Bytes
  pub rpc_bind_ip : Option IpAddr
  pub rpc_port : Option ℕ
  pub data_dir : Text
  pub fallback : Option Text
  pub load_external_fallback : Bool
  pub strict_checkpoint_age : Bool

-- figment's `Value`, as far as it is built
pub data Value : Type 0 where
  text : Text → Value
  num : ℕ → Value
  flag : Bool → Value

-- the `HashMap`, whose keys are all different
abbrev pub Dict : Type 0
Dict = List (Text × Value)

-- `if let Some(v) = option { user_dict.insert(key, Value::from(v)) }`
abbrev pub entry {ℓ} : {A : Type ℓ} → Text → (A → Value) → Option A → Dict
entry key value none = []
entry key value (some a) = (key, value a) ∷ []

module _ (hex_encode : Bytes → Text) (ip_text : IpAddr → Text) where
  -- the entries, where the path is this text
  abbrev pub entries : CliConfig → Text → Dict
  entries cli data_dir =
      entry (codes "execution_rpc") text cli.execution_rpc
      ++ (entry (codes "consensus_rpc") text cli.consensus_rpc
          ++ (entry (codes "checkpoint") (λ c. text (hex_encode c)) cli.checkpoint
              ++ (entry (codes "rpc_bind_ip") (λ ip. text (ip_text ip)) cli.rpc_bind_ip
                  ++ (entry (codes "rpc_port") num cli.rpc_port
                      ++ ((codes "data_dir", text data_dir)
                          ∷ (entry (codes "fallback") text cli.fallback
                              ++ ((codes "load_external_fallback", flag cli.load_external_fallback)
                                  ∷ (codes "strict_checkpoint_age", flag cli.strict_checkpoint_age)
                                  ∷ [])))))))

  -- A path that is not Unicode is a panic.
  unfoldable pub as_provider : (Text → Option Text) → CliConfig → Option Dict
  as_provider to_str cli = Option.map (entries cli) (to_str cli.data_dir)

module _ (hex_decode : Text → Option Bytes) where
  -- a text that cannot be decoded is a panic
  unfoldable pub bytes_deserialize : Deserialized Text → Deserialized Bytes
  unfolding hex_str_to_bytes
  bytes_deserialize read = do bytes ← read; unwrap (hex_str_to_bytes hex_decode bytes)

  abbrev pub decoded : Option Text → Deserialized (Option Bytes)
  unfolding hex_str_to_bytes
  decoded none = ok none
  decoded (some bytes) = do decoded ← unwrap (hex_str_to_bytes hex_decode bytes); ok (some decoded)

  unfoldable pub bytes_opt_deserialize : Deserialized (Option Text) → Deserialized (Option Bytes)
  unfolding decoded
  bytes_opt_deserialize read = do bytes_opt ← read; decoded bytes_opt

-- the text that the serializer is given
unfoldable pub bytes_serialize : (Bytes → Text) → Bytes → Text
bytes_serialize hex_encode bytes = hex_encode bytes
