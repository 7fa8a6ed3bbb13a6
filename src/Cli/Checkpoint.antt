-- ===== src/Cli/Checkpoint.antt =====
-- cli/src/main.rs with config/src/cli.rs and utils.rs: the way of a checkpoint from the command line
-- into the configuration.
use forcerelay_verifier.Prelude.{
  ◌≡◌, refl, sym, ap, ◌∙◌, subst, inl, inr, ◌++◌, ◌∷◌, Option-cases, Option, none, some, hash_get,
  bytes_eq, ok, >>=-eq-ok, ok-injective, some-injective,
}
use forcerelay_verifier.Common.{Bytes, Text, hex_str_to_bytes, strip_prefix}
use forcerelay_verifier.Common.Numbers.{codes}
use forcerelay_verifier.Config.CommandLine.{
  CliConfig, Dict, Value, text, entry, as_provider, bytes_opt_deserialize,
}
use forcerelay_verifier.Config.Types.{IpAddr}
use forcerelay_verifier.Cli.{Cli, Platform, as_cli_config, checkpoint_bytes, get_data_dir}

-- the checkpoint that the options are converted to
as_cli_config-checkpoint :
    (platform : Platform) (cli : Cli) {config : CliConfig} {c : Text} {bytes : Bytes}
    → cli.checkpoint ≡ some c
    → hex_str_to_bytes platform.hex_decode c ≡ some bytes
    → as_cli_config platform cli ≡ ok config
    → config.checkpoint ≡ some bytes
unfolding as_cli_config
as_cli_config-checkpoint platform cli given reads e =
    let (checkpoint, p, e1) = >>=-eq-ok (checkpoint_bytes platform cli.checkpoint) _ e in
    let (data_dir, q, e2) = >>=-eq-ok (get_data_dir platform cli) _ e1 in
    ap (λ config. config.checkpoint) (sym (ok-injective e2))
    ∙ sym (ok-injective (rw (given, reads) refl ∙ p))

module _ (hex_encode : Bytes → Text) (ip_text : IpAddr → Text) (to_str : Text → Option Text) where
  -- behind the two addresses, whether they are given or not
  third_entry :
      (execution_rpc consensus_rpc : Option Text) (value : Value) (rest : Dict)
      → hash_get (codes "checkpoint") (
          entry (codes "execution_rpc") text execution_rpc
          ++ (entry (codes "consensus_rpc") text consensus_rpc
              ++ ((codes "checkpoint", value) ∷ rest)))
        ≡ some value
  unfolding bytes_eq
  third_entry none none value rest = refl
  third_entry none (some b) value rest = refl
  third_entry (some a) none value rest = refl
  third_entry (some a) (some b) value rest = refl

  as_provider-checkpoint :
      (config : CliConfig) {dict : Dict} {bytes : Bytes}
      → config.checkpoint ≡ some bytes
      → as_provider hex_encode ip_text to_str config ≡ some dict
      → hash_get (codes "checkpoint") dict ≡ some (text (hex_encode bytes))
  unfolding as_provider
  as_provider-checkpoint config {bytes = bytes} has e =
      elim (Option-cases (to_str config.data_dir)) [
        | inl p ↦ cc
        | inr (dir, p) ↦
            let same = some-injective (rw p at e) in
            subst (λ d. hash_get (codes "checkpoint") d ≡ some (text (hex_encode bytes))) same
              (rw has
                (third_entry config.execution_rpc config.consensus_rpc (text (hex_encode bytes)) _))
      ]

  -- A checkpoint that is given on the command line as a text that can be decoded stands in the
  -- dictionary of the options as a text that the configuration reads as the same bytes. `encode` writes
  -- no prefix, and what it writes of these bytes is decoded to them.
  pub as_cli_config-as_provider :
      (platform : Platform) (cli : Cli) {config : CliConfig} {dict : Dict} {c : Text}
      {bytes : Bytes}
      → strip_prefix (hex_encode bytes) ≡ none
      → platform.hex_decode (hex_encode bytes) ≡ some bytes
      → cli.checkpoint ≡ some c
      → hex_str_to_bytes platform.hex_decode c ≡ some bytes
      → as_cli_config platform cli ≡ ok config
      → as_provider hex_encode ip_text to_str config ≡ some dict
      → (t : Text) × (hash_get (codes "checkpoint") dict ≡ some (text t))
        × (bytes_opt_deserialize platform.hex_decode (ok (some t)) ≡ ok (some bytes))
  unfolding bytes_opt_deserialize hex_str_to_bytes
  as_cli_config-as_provider platform cli {config = config} {bytes = bytes} plain decodes given reads
        e f =
      (
        hex_encode bytes,
        as_provider-checkpoint config (as_cli_config-checkpoint platform cli given reads e) f,
        rw (plain, decodes) refl,
      )
