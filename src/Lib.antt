-- ===== src/Lib.antt =====
-- The light client of Forcerelay's fork of Helios, verified.
--
-- The program follows the Ethereum beacon chain through sync committees and answers queries about the
-- execution chain that it can prove against what the committees signed. The parts, and the files here
-- that model them:
--
--  * common (common/src): byte strings, block tags and hexadecimal prefixes, in `Common`, numbers as text
--    in `Common.Numbers`, the text of block tags in `Common.Tags`, and the shared errors in
--    `Common.Errors`. The crates pass these on to each other.
--  * config (config/src): the records of the configuration and the version of a fork, in
--    `Config.Types`; the two networks, in `Config.Networks`. The consensus client reads both.
--    `Config.Loading` is `Config::from_file`, over figment as a parameter.
--    `Config.Checkpoints` is checkpoints.rs, the services that a checkpoint can be fetched from.
--  * The consensus client (consensus/src/consensus.rs, utils.rs, types.rs, errors.rs). The messages
--    are in `Consensus.Types`, the functions that serde calls to read their fields in
--    `Consensus.Deserialize`, the beacon blocks in `Consensus.Blocks`, with the calls of ssz_rs that
--    their enums hand on in `Consensus.Blocks.Ssz`, and the errors in `Consensus.Errors`.
--    `Consensus.State` is `ConsensusClient` with its `LightClientStore`, and the
--    functions that read the clock. `Consensus.Verify` is `verify_generic_update` with its three
--    callers, `Consensus.Apply` is `apply_generic_update` with its three, `Consensus.Bootstrap` and
--    `Consensus.Sync` are `bootstrap`, `sync` and `advance`, and `Consensus.Payloads` is
--    `get_execution_payload` and `get_payloads`, which feed the execution client. A large function of
--    the source is a chain of small definitions, one for each of its blocks, in the order of the
--    source. `Consensus.Utils` are the Merkle proofs, signatures and domains.
--  * The execution client (execution/src): `Execution.Proof` is proof.rs, the Merkle-Patricia proofs,
--    and `Execution.Client` is `ExecutionClient` of execution.rs, with `get_logs` in
--    `Execution.Client.Logs`, `get_block` in `Execution.Client.Blocks` and the fee histories in
--    `Execution.Client.Fees`, over the arithmetic of f64 as a parameter. `Execution.Serializers` are the
--    functions of types.rs that serde reads and writes fields by.
--  * The EVM (execution/src/evm.rs): `Execution.Evm` is the prefetch of the accounts of an access list
--    and the environment of a call, and `Execution.Evm.Database` is `ProofDB`, whose accounts come from
--    `get_account` of the execution client, with `call` and `estimate_gas`.
--  * client (client/src): `Client.Node` is node.rs. `Client.Node.Updates` are `sync` and `advance`, which
--    run the consensus client and then store the payloads that it hands on; `Client.Node.Queries` are the
--    queries, which run the execution client and the EVM on a stored payload. `Client.Builder` and
--    `Client.Start` are client.rs: the merging of the options into a configuration, and the client that
--    starts the node, with its fallbacks for a checkpoint that is too old. `Client.Database` is
--    database.rs, which keeps the last checkpoint between two runs, and `Client.Errors` is errors.rs.
--    `Client.Rpc` are the methods of the JSON-RPC server, of rpc.rs, which read text, call the node and
--    write text; `Client.Thread` is a client that runs: the loop that advances the node beside
--    `shutdown`, as a relation between states, and `Client.Queries` are the queries of the client.
--
--  * Servers: `Consensus.Rpc.Nimbus` is consensus/src/rpc/nimbus_rpc.rs and `Execution.Rpc.Http` is
--    execution/src/rpc/http_rpc.rs, which fill the two interfaces over HTTP and JSON as parameters; the
--    `Mock` beside each is mock_rpc.rs, over files of test data.
--  * The command line (cli/src/main.rs, config/src/cli.rs, config/src/utils.rs): `Cli` converts the
--    options, and has the handler of ctrl-c; `Config.CommandLine` writes them into a dictionary and
--    reads byte strings from it.
--
-- How state and effects are modelled:
--
--  * `Outcome` of `Prelude.Results` is what a call that returns `Result` may do: return, return an
--    error, or panic. An arithmetic operation on u64 or usize wraps, as in a release build; a
--    subtraction of durations below zero panics; an `unwrap` and an index out of range panic. A panic
--    of a task that is awaited is one of the caller, as the release profile aborts on it.
--  * `&mut self` is explicit state. `Common.Method` is a monad that keeps the state that a call
--    leaves where it returns an error, so that what a half-finished `sync` did to the store is not
--    lost; `apply_generic_update` is a function that returns the new client.
--  * The clock is the seconds since the Unix epoch. A function that reads it takes the reading; `sync`
--    and `advance` take a sequence of readings, one for each place that may read.
--  * A server is a record of answers, `ConsensusRpc` and `ExecutionRpc`, the same during one call of a
--    client; a second call may be given another record, and the node's updates, which make several
--    calls, take a record for each. Nothing is assumed of the answers.
--  * The code of other packages is a parameter: the records `Primitives` of `Consensus.Primitives`
--    (the hash tree roots and Merkle branches of ssz_rs, the signatures of milagro_bls, hex, chrono) and
--    of `Execution.Primitives` (keccak-256, RLP, trie roots, the types of ethers), `Revm` (a run of
--    revm as a function of its environment and of the methods of its database), and `FileSystem`. The
--    order in which a `HashMap` is iterated is a parameter too. What a theorem relies on beyond that is
--    a hypothesis of it.
--  * A vector or list of a fixed or bounded length is a list of any length; where the source converts
--    to a fixed length the conversion tests it. A hash in an error stands for its text.
--
-- Every loop of the source runs over a list or a counted range, and is structural recursion on it, so
-- that none has fuel. The digits of a number have the number itself as fuel, which is enough since each
-- step divides by the radix. The loops of `paths_match` and `shared_prefix_length` recur on their
-- number of offsets.
--
-- The chain of trust is described apart from the code, in `Consensus.Trust`: which committee is
-- authentic in which period and which headers are then trusted. `Consensus.Verify.Spec` describes an
-- acceptable update without the order of the checks. `Execution.Proof.Nibbles` describes a path as the
-- list of its nibbles, and `Execution.Proof.Spec` what a Merkle-Patricia proof proves.
--
-- Not modelled: the deserializers that serde derives for whole records, the HTTP server, whose work is in
-- other packages, the parsing of arguments by clap and the merging of configurations by figment, the
-- WebAssembly bindings, and the text of log lines and of most errors. The locks are left out: each call
-- holds one as long as it runs, so that a run is a sequence of calls.
pub mod Prelude
pub mod Common
pub mod Config
pub mod Consensus
pub mod Execution
pub mod Client
pub mod Cli
mod Tests
