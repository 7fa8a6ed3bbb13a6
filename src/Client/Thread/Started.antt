-- ===== src/Client/Thread/Started.antt =====
-- client/src/client.rs and rpc.rs: what the JSON-RPC server answers after a start of the client.
use forcerelay_verifier.Prelude.{◌≡◌, ◌⊎◌, ℕ, false, true, none, some, [], Outcome, ok}
use forcerelay_verifier.Common.{Bytes, Text, finalized}
use forcerelay_verifier.Config.Types.{Config}
use forcerelay_verifier.Consensus.Bootstrap.Spec.{PrintsHex}
use forcerelay_verifier.Consensus.Primitives as ConsensusPrimitives
use forcerelay_verifier.Execution.Errors.{ExecutionError}
use forcerelay_verifier.Execution.Primitives.{Primitives}
use forcerelay_verifier.Execution.Rpc.{ExecutionRpc}
use forcerelay_verifier.Execution.Types.{Account}
use forcerelay_verifier.Client.Node.Answers.{IsTrustedAccount}
use forcerelay_verifier.Client.Rpc.{format_hex, get_balance}
use forcerelay_verifier.Client.Rpc.Errors.{Formats}
use forcerelay_verifier.Client.Start.{Database, Client, World, start}
use forcerelay_verifier.Client.Start.Attempts.{IsBooted, IsBooted-root}
use forcerelay_verifier.Client.Start.Booted.{start-IsBooted}
use forcerelay_verifier.Client.Start.Create.{create_client}
use forcerelay_verifier.Client.Start.Fresh.{create_client-IsFresh}
use forcerelay_verifier.Client.Start.Sources.{IsSource}
use forcerelay_verifier.Client.Thread.{Running, Reach}
use forcerelay_verifier.Client.Thread.Sound.{Reach-IsSound, get_balance_sound}

module _ ⦃consensus_lib : ConsensusPrimitives.Primitives⦄ ⦃lib : Primitives⦄
    {database : Database} where
  -- the client once it is started, with its thread
  abbrev pub launched : Client database → Running database
  launched client = record { client = client; alive = true }

  -- From the creation of a client to an answer: when `start` returns, and the configuration has not
  -- both a fallback and the external ones, then after any rounds and shutdowns what `eth_getBalance`
  -- answers for the finalized block is the text of the balance of an account that is proven against
  -- the payload of a trusted block, for the address that was asked for. The trust begins with a
  -- bootstrap that passed its checks, whose header has for its root the client's own checkpoint or one
  -- that a fallback gave. The hash of the empty byte string is revm's hash of empty code, and different
  -- roots print differently.
  pub launched_balance_sound :
      (config : Config) (created : Outcome ExecutionError (Unit {0})) (disk : database.Disk)
      (world : World) {client started : Client database}
      → create_client database config created disk ≡ ok client
      → (config.load_external_fallback ≡ false) ⊎ (config.fallback ≡ none)
      → start world client ≡ (ok tt, started)
      → PrintsHex consensus_lib
      → (formats : Formats) (rpc : ExecutionRpc) (now : ℕ) {q : Running database}
        (reached : Reach (launched started) q) (empty_code : lib.keccak256 [] ≡ lib.keccak_empty)
        (s : Text) {answer : Text}
      → get_balance formats rpc now q.client.node s finalized ≡ ok answer
      → (booted : IsBooted client.node.config started.node) × IsSource world client
          started.node.consensus.initial_checkpoint
        × (consensus_lib.header_root booted.root.header
            ≡ some started.node.consensus.initial_checkpoint)
        × (address : Bytes) × (formats.address_from_str s ≡ some address)
        × (account : Account) × IsTrustedAccount client.node.config booted.root rpc now
            q.client.node
            (Reach-IsSound client.node.config booted.root reached booted.sound)
            empty_code
            address
            account
        × (format_hex formats account.balance ≡ ok answer)
  launched_balance_sound config created disk world {client} made one starts prints formats rpc now
        reached empty_code s e =
      let fresh = create_client-IsFresh config created disk made in
      let (booted, source) =
        start-IsBooted world client (rw (fresh.same_external, fresh.same_fallback) one)
          fresh.node.empty fresh.node.configured starts in
      let (address, reads_address, account, trusted, same) =
        get_balance_sound client.node.config booted.root formats rpc now reached booted.sound
          empty_code s e in
      (booted, source, IsBooted-root prints booted, address, reads_address, account, trusted, same)
