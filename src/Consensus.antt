-- ===== src/Consensus.antt =====
-- consensus/src: the light client of the consensus layer.
pub mod Types
pub mod Blocks
pub mod Primitives
pub mod Errors
pub mod Utils
pub mod State
pub mod Verify
pub mod Apply
pub mod Safety
pub mod Trust
pub mod Rpc
pub mod Bootstrap
pub mod Sync
pub mod Payloads
pub mod Deserialize
