-- ===== src/Tests.antt =====
-- Concrete inputs: tests of the definitions, and each theorem at an input that meets its hypotheses.
mod Light
mod Common
mod Messages
mod Server
mod Launch
mod Stale
mod Trie
mod Cli
mod Consensus
mod Execution
mod Ledger
mod Config
mod Node
mod Client
