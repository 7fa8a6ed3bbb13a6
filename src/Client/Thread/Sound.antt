-- ===== src/Client/Thread/Sound.antt =====
-- client/src/client.rs and rpc.rs: what the JSON-RPC server answers in the course of a run.
use forcerelay_verifier.Prelude.{
  ℕ, ◌≡◌, ap, ◌∙◌, some, ok, map_err, map_err-eq-ok, ok_or-eq-ok, >>=-eq-ok, [],
}
use forcerelay_verifier.Common.{Bytes, Text, finalized}
use forcerelay_verifier.Config.Types.{Config}
use forcerelay_verifier.Consensus.Primitives as ConsensusPrimitives
use forcerelay_verifier.Consensus.Types.{Bootstrap}
use forcerelay_verifier.Execution.Primitives.{Primitives}
use forcerelay_verifier.Execution.Rpc.{ExecutionRpc}
use forcerelay_verifier.Execution.Types.{Account}
use forcerelay_verifier.Client.Node.Queries
use forcerelay_verifier.Client.Node.Verified.{IsSound, advance-IsSound}
use forcerelay_verifier.Client.Node.Answers.{IsTrustedAccount, finalized_balance_sound}
use forcerelay_verifier.Client.Rpc.{format_hex, parse_address, get_balance}
use forcerelay_verifier.Client.Rpc.Errors.{Formats}
use forcerelay_verifier.Client.Start.{Database, shutdown}
use forcerelay_verifier.Client.Thread.{
  Running, Step, round, interval, stop, Reach, here, next, advance_round, tick,
}

module _ ⦃consensus_lib : ConsensusPrimitives.Primitives⦄ {database : Database} (config : Config)
    (root : Bootstrap) where
  Step-IsSound :
      {p q : Running database}
      → Step p q
      → IsSound config root p.client.node
      → IsSound config root q.client.node
  unfolding advance_round tick shutdown
  Step-IsSound (round servers clock now now' p alive) h =
      advance-IsSound config root servers clock p.client.node h
  Step-IsSound (interval servers clock p) h =
      advance-IsSound config root servers clock p.client.node h
  Step-IsSound (stop p) h = h

  pub Reach-IsSound :
      {p q : Running database}
      → Reach p q
      → IsSound config root p.client.node
      → IsSound config root q.client.node
  Reach-IsSound here h = h
  Reach-IsSound (next r step) h = Step-IsSound step (Reach-IsSound r h)

  -- In a run that starts from a sound node, with any answers of the servers and any shutdowns
  -- between, what `eth_getBalance` answers for the finalized block is the text of a balance, and that
  -- of an account proven against the payload of a trusted block, for the address that was asked for.
  -- The hash of the empty byte string is revm's hash of empty code.
  pub get_balance_sound :
      ⦃lib : Primitives⦄ (formats : Formats) (rpc : ExecutionRpc) (now : ℕ) {p q : Running database}
      (reached : Reach p q) (sound : IsSound config root p.client.node)
      (empty_code : lib.keccak256 [] ≡ lib.keccak_empty) (s : Text) {answer : Text}
      → get_balance formats rpc now q.client.node s finalized ≡ ok answer
      → (address : Bytes) × (formats.address_from_str s ≡ some address)
        × (account : Account) × IsTrustedAccount config root rpc now q.client.node
            (Reach-IsSound reached sound)
            empty_code
            address
            account
        × (format_hex formats account.balance ≡ ok answer)
  unfolding get_balance
  get_balance_sound formats rpc now {q = q} reached sound empty_code s e =
      let (address, p, e1) = >>=-eq-ok (parse_address formats s) _ e in
      let (balance, r, e2) =
        >>=-eq-ok (map_err (Queries.get_balance rpc now q.client.node address finalized) _) _ e1 in
      let (account, trusted, same) =
        finalized_balance_sound config root rpc now q.client.node (Reach-IsSound reached sound)
          empty_code address (map_err-eq-ok _ _ r) in
      (
        address,
        ok_or-eq-ok (formats.address_from_str s) _ p,
        account,
        trusted,
        ap (format_hex formats) same ∙ e2,
      )
