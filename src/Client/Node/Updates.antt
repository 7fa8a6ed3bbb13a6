-- ===== src/Client/Node/Updates.antt =====
-- client/src/node.rs: `sync`, `advance` and `update_payloads`, which change the node.
use forcerelay_verifier.Prelude.{ℕ, ok, map_err}
use forcerelay_verifier.Common.Method.{Method, reads, writes, on_field, ◌>>=◌, ◌>>◌}
use forcerelay_verifier.Consensus.Errors.{ConsensusError}
use forcerelay_verifier.Consensus.Primitives.{Primitives}
use forcerelay_verifier.Consensus.State.{ClientMethod}
use forcerelay_verifier.Consensus.Rpc.{ConsensusRpc}
use forcerelay_verifier.Consensus.Payloads
use forcerelay_verifier.Consensus.Sync
use forcerelay_verifier.Consensus.Sync.{Clock}
use forcerelay_verifier.Execution.Primitives as ExecutionPrimitives
use forcerelay_verifier.Execution.Rpc.{ExecutionRpc}
use forcerelay_verifier.Execution.Client
use forcerelay_verifier.Client.Errors.{
  NodeError, consensus_sync_error, consensus_advance_error, execution_error,
}
use forcerelay_verifier.Client.Node.{
  Node, latest_payload, finalized_payload, backfill_payloads, store_payloads, store_backfill,
}

abbrev pub NodeMethod : Type 0 → Type 0
NodeMethod A = Method Node NodeError A

-- a call of a method of the consensus client
abbrev pub on_consensus :
    {A : Type 0} → (ConsensusError → NodeError) → ClientMethod A → NodeMethod A
on_consensus =
    on_field (λ node. node.consensus) (λ consensus node. record node { consensus = consensus })

-- `servers i` holds the answers to the i-th call of a method of the consensus client: two calls may
-- get different answers to the same request.
abbrev pub Servers : Type 0
Servers = ℕ → ConsensusRpc

module _ ⦃lib : Primitives⦄ (servers : Servers) where
  unfoldable pub update_payloads : NodeMethod (Unit {0})
  unfolding latest_payload finalized_payload backfill_payloads store_payloads store_backfill
  update_payloads = do
    latest ← reads (latest_payload (servers 1))
    finalized ← reads (finalized_payload (servers 2))
    writes (λ node. ok (store_payloads latest finalized node))
    backfill ← reads (backfill_payloads (servers 3))
    writes (λ node. ok (store_backfill backfill node))

  unfoldable pub advance : Clock → NodeMethod (Unit {0})
  unfolding update_payloads
  advance clock = do
    on_consensus consensus_advance_error (Sync.advance (servers 0) clock)
    update_payloads

  unfoldable pub sync :
      ⦃execution_lib : ExecutionPrimitives.Primitives⦄
      → ExecutionRpc
      → Clock
      → NodeMethod (Unit {0})
  unfolding update_payloads
  sync execution_rpc clock = do
    reads (λ node.
        map_err (Client.check_rpc execution_rpc node.config.chain.chain_id) execution_error)
    reads (λ node. map_err (Payloads.check_rpc (servers 4) node.consensus) consensus_sync_error)
    on_consensus consensus_sync_error (Sync.sync (servers 0) clock)
    update_payloads
