-- ===== src/Client/Node/Failed.antt =====
-- client/src/node.rs: what a `sync` that fails in the consensus client leaves of the node.
use forcerelay_verifier.Prelude.{◌≡◌, refl, ap, subst, ok, err, map_err}
use forcerelay_verifier.Common.Method.{reads, writes}
use forcerelay_verifier.Common.Method.Failures.{
  Fails, bind-eq-err, Fails-bind, Fails-reads, Fails-writes,
}
use forcerelay_verifier.Consensus.Errors.{ConsensusError}
use forcerelay_verifier.Consensus.Payloads
use forcerelay_verifier.Consensus.Primitives.{Primitives}
use forcerelay_verifier.Consensus.Sync
use forcerelay_verifier.Consensus.Sync.{Clock}
use forcerelay_verifier.Execution.Client
use forcerelay_verifier.Execution.Primitives as ExecutionPrimitives
use forcerelay_verifier.Execution.Rpc.{ExecutionRpc}
use forcerelay_verifier.Client.Errors.{
  NodeError, NodeResult, consensus_payload_error, consensus_sync_error, execution_error,
}
use forcerelay_verifier.Client.Node.{
  Node, latest_payload, finalized_payload, backfill_payloads, store_payloads, store_backfill,
}
use forcerelay_verifier.Client.Node.Updates.{Servers, on_consensus, update_payloads, sync}

module _ ⦃lib : Primitives⦄ where
  abbrev IsPayloadError : NodeError → Type 0
  IsPayloadError e = (x : ConsensusError) × (e ≡ consensus_payload_error x)

  update_payloads-IsPayloadError :
      (servers : Servers) → Fails IsPayloadError (update_payloads servers)
  unfolding update_payloads latest_payload finalized_payload backfill_payloads
  update_payloads-IsPayloadError servers =
      Fails-bind (reads (latest_payload (servers 1))) _
        (Fails-reads _ consensus_payload_error λ x. (x, refl))
        λ latest.
          Fails-bind (reads (finalized_payload (servers 2))) _
            (Fails-reads _ consensus_payload_error λ x. (x, refl))
            λ finalized.
              Fails-bind (writes (λ node. ok (store_payloads latest finalized node))) _
                (Fails-writes _)
                λ _.
                  Fails-bind (reads (backfill_payloads (servers 3))) _
                    (Fails-reads _ consensus_payload_error λ x. (x, refl))
                    λ backfill. Fails-writes (store_backfill backfill)

  -- the configuration and the finalized payloads are those of `node`
  abbrev pub IsUnstored : Node → Node → Type 0
  IsUnstored node failed =
      (failed.config ≡ node.config) × (failed.finalized_payloads ≡ node.finalized_payloads)

  module _ ⦃execution_lib : ExecutionPrimitives.Primitives⦄ where
    -- A `sync` that fails with an error of the consensus client has stored no payload, and has left the
    -- configuration.
    pub sync-IsUnstored :
        (servers : Servers) (rpc : ExecutionRpc) (clock : Clock) (node : Node) {x : ConsensusError}
        {failed : Node}
        → sync servers rpc clock node ≡ (err (consensus_sync_error x), failed)
        → IsUnstored node failed
    unfolding sync
    sync-IsUnstored servers rpc clock node {x} {failed} e =
        bind-eq-err
          (reads
            (λ node. map_err (Client.check_rpc rpc node.config.chain.chain_id) execution_error))
          _ node e _ at_once
          λ _ _ e1.
            bind-eq-err
              (reads (λ node.
                map_err (Payloads.check_rpc (servers 4) node.consensus) consensus_sync_error))
              _ node e1 _ at_once
              λ _ _ e2.
                bind-eq-err (on_consensus consensus_sync_error (Sync.sync (servers 0) clock)) _ node
                  e2 _ (λ q. subst (IsUnstored node) (ap (λ r. r.1) q) (refl, refl))
                  λ _ _ e3. let (y, p) = (update_payloads-IsPayloadError servers).at _ e3 in cc
      where
        at_once :
            {A : Type 0} {r : NodeResult A}
            → Path (NodeResult A × Node) (r, node) (err (consensus_sync_error x), failed)
            → IsUnstored node failed
        at_once q = subst (IsUnstored node) (ap (λ r. r.1) q) (refl, refl)
