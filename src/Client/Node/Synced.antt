-- ===== src/Client/Node/Synced.antt =====
-- client/src/node.rs: what a `sync` that returns establishes.
use forcerelay_verifier.Prelude.{◌≡◌, sym, ap, subst, [], All, ok, map_err, map_err-eq-ok}
use forcerelay_verifier.Common.Method.{reads, bind-eq-ok}
use forcerelay_verifier.Consensus.Types.{Bootstrap}
use forcerelay_verifier.Consensus.Primitives.{Primitives}
use forcerelay_verifier.Consensus.Bootstrap.{check_bootstrap}
use forcerelay_verifier.Consensus.Payloads
use forcerelay_verifier.Consensus.Sync
use forcerelay_verifier.Consensus.Sync.{Clock}
use forcerelay_verifier.Consensus.Trust.Sync.{synced-IsBooted}
use forcerelay_verifier.Execution.Client
use forcerelay_verifier.Execution.Primitives as ExecutionPrimitives
use forcerelay_verifier.Execution.Rpc.{ExecutionRpc}
use forcerelay_verifier.Client.Errors.{execution_error, consensus_sync_error}
use forcerelay_verifier.Client.Node.{Node}
use forcerelay_verifier.Client.Node.Updates.{Servers, on_consensus, sync}
use forcerelay_verifier.Client.Node.Verified.{IsVerified, IsSound, update_payloads-IsSound}

module _ ⦃lib : Primitives⦄ ⦃execution_lib : ExecutionPrimitives.Primitives⦄ where
  -- From a node that has no finalized payloads, as a new one, a `sync` that returns has got a bootstrap
  -- for the checkpoint that passed its checks; the consensus client then rests on the chain of trust
  -- from that bootstrap, and each finalized payload is that of a block with the root of a trusted
  -- header.
  pub sync-IsSound :
      (servers : Servers) (rpc : ExecutionRpc) (clock : Clock) (node : Node) {synced : Node}
      → node.finalized_payloads ≡ []
      → sync servers rpc clock node ≡ (ok tt, synced)
      → (b : Bootstrap) × ((servers 0).get_bootstrap node.consensus.initial_checkpoint ≡ ok b)
        × (check_bootstrap (clock 0) b node.consensus ≡ ok tt)
        × IsSound node.consensus.config b synced
  unfolding sync
  sync-IsSound servers rpc clock node empty e =
      let (_, _, e1) =
        bind-eq-ok
          (reads
            (λ node. map_err (Client.check_rpc rpc node.config.chain.chain_id) execution_error))
          _ node e in
      let (_, _, e2) =
        bind-eq-ok
          (reads
            (λ node. map_err (Payloads.check_rpc (servers 4) node.consensus) consensus_sync_error))
          _ node e1 in
      let (_, returned, e3) =
        bind-eq-ok (on_consensus consensus_sync_error (Sync.sync (servers 0) clock)) _ node e2 in
      let (b, (asked, checked, authentic)) = synced-IsBooted (servers 0) clock node.consensus (
        map_err-eq-ok (Sync.sync (servers 0) clock node.consensus).0 consensus_sync_error
          (ap (λ r. r.0) returned)) in
      (
        b,
        asked,
        checked,
        subst (IsSound node.consensus.config b) (ap (λ r. r.1) e3) (
            (update_payloads-IsSound node.consensus.config b servers).at
              (record node { consensus = (Sync.sync (servers 0) clock node.consensus).1 })
              (
                authentic,
                subst (All (λ e. IsVerified node.consensus.config b e.1)) (sym empty) tt,
              )),
      )
