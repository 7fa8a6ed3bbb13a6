-- ===== src/Consensus/Rpc.antt =====
-- consensus/src/rpc/mod.rs: the trait `ConsensusRpc`, as the answers that the server gives to the
-- requests of one call of a client's method. Nothing is assumed of them.
pub mod Nimbus
pub mod Mock
use forcerelay_verifier.Prelude.{ℕ, List}
use forcerelay_verifier.Common.{Bytes}
use forcerelay_verifier.Consensus.Types.{Bootstrap, Update, FinalityUpdate, OptimisticUpdate}
use forcerelay_verifier.Consensus.Blocks.{BeaconBlock}
use forcerelay_verifier.Consensus.Errors.{Result}

pub record ConsensusRpc : Type 0 where
  pub get_bootstrap : Bytes → Result Bootstrap
  pub get_updates : ℕ → ℕ → Result (List Update)
  pub get_finality_update : Result FinalityUpdate
  pub get_optimistic_update : Result OptimisticUpdate
  pub get_block : ℕ → Result BeaconBlock
  pub chain_id : Result ℕ

-- consensus/src/constants.rs
abbrev pub max_request_light_client_updates : ℕ
max_request_light_client_updates = 128
