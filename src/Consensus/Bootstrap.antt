-- ===== src/Consensus/Bootstrap.antt =====
-- consensus/src/consensus.rs: the checks of `bootstrap` on the server's answer, and the store that
-- it builds. A checkpoint is a block root; it is compared as text, in hexadecimal.
pub mod Spec
use forcerelay_verifier.Prelude.{
  ℕ, not, ◌&&◌, none, ◌∷◌, [], ◌++◌, bytes_eq, guard, ok_or, ◌>>=◌, ◌>>◌,
}
pub use forcerelay_verifier.Common.Numbers.{hex_prefix}
use forcerelay_verifier.Common.{Text}
use forcerelay_verifier.Consensus.Types.{Bootstrap}
use forcerelay_verifier.Consensus.Errors.{
  Result, checkpoint_too_old, invalid_header_hash, invalid_current_sync_committee_proof, other,
}
use forcerelay_verifier.Consensus.Primitives.{Primitives}
use forcerelay_verifier.Consensus.Utils.{is_current_committee_proof_valid}
use forcerelay_verifier.Consensus.State.{LightClientStore, ConsensusClient, is_valid_checkpoint}

-- "0x"
unfoldable pub initial_store : Bootstrap → LightClientStore
initial_store bootstrap = record {
  finalized_header = bootstrap.header;
  current_sync_committee = bootstrap.current_sync_committee;
  next_sync_committee = none;
  optimistic_header = bootstrap.header;
  previous_max_active_participants = 0;
  current_max_active_participants = 0;
}

unfoldable pub check_bootstrap :
    ⦃lib : Primitives⦄ → ℕ → Bootstrap → ConsensusClient → Result (Unit {0})
check_bootstrap ⦃lib⦄ now bootstrap client = do
  is_valid ← is_valid_checkpoint client.config bootstrap.header.slot now
  guard (not (not is_valid && client.config.strict_checkpoint_age)) checkpoint_too_old
  committee_valid ←
      is_current_committee_proof_valid bootstrap.header bootstrap.current_sync_committee
        bootstrap.current_sync_committee_branch
  root ← ok_or (lib.header_root bootstrap.header) other
  let header_hash = lib.node_to_string root
  let expected_hash = hex_prefix ++ lib.hex_encode client.initial_checkpoint
  guard (bytes_eq header_hash expected_hash) (invalid_header_hash expected_hash header_hash)
  guard committee_valid invalid_current_sync_committee_proof
