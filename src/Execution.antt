-- ===== src/Execution.antt =====
-- execution/src: proofs of accounts, transactions and logs against verified payloads.
pub mod Primitives
pub mod Errors
pub mod Types
pub mod Serializers
pub mod Rpc
pub mod Proof
pub mod Client
pub mod Evm
