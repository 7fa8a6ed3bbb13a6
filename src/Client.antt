-- ===== src/Client.antt =====
-- client/src: the node, its queries, and the checkpoint database.
pub mod Rpc
pub mod Errors
pub mod Node
pub mod Database
pub mod Builder
pub mod Start
mod Queries
pub mod Thread
