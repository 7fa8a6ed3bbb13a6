-- ===== src/Config.antt =====
-- config/src/{types,base,config}.rs: the chain, its forks, and the configuration of the client.
pub mod Types
pub mod CommandLine
pub mod Loading
pub mod Forks
pub mod Networks
pub mod Checkpoints
