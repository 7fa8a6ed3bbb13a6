-- ===== src/Client/Start/Attempts.antt =====
-- client/src/client.rs: what one attempt of a `start` to sync establishes, the first one or that of a
-- fallback.
use forcerelay_verifier.Prelude.{
  ◌≡◌, refl, sym, ap, subst, ◌∙◌, Bool, true, false, Option, none, some, [], ok, map_err,
}
use forcerelay_verifier.Common.{Bytes, Text}
use forcerelay_verifier.Common.Method.{bind-eq-ok, lift, reads}
use forcerelay_verifier.Common.Method.Failures.{on_field-eq-ok}
use forcerelay_verifier.Config.Types.{Config}
use forcerelay_verifier.Config.Checkpoints.{
  new_fallback, build_fallback, fetch_checkpoint_from_api, fetch_latest_checkpoint,
}
use forcerelay_verifier.Consensus.Bootstrap.{check_bootstrap}
use forcerelay_verifier.Consensus.Bootstrap.Spec.{PrintsHex, check_bootstrap_sound}
use forcerelay_verifier.Consensus.Primitives.{Primitives}
use forcerelay_verifier.Consensus.State.{ConsensusClient, new_client}
use forcerelay_verifier.Consensus.Types.{Bootstrap}
use forcerelay_verifier.Execution.Primitives as ExecutionPrimitives
use forcerelay_verifier.Client.Node.{Node}
use forcerelay_verifier.Client.Node.Synced.{sync-IsSound}
use forcerelay_verifier.Client.Node.Updates.{sync}
use forcerelay_verifier.Client.Node.Verified.{IsSound}
use forcerelay_verifier.Client.Start.{
  Database, Client, Attempt, World, set_node, boot_from, boot_from_url,
  boot_from_external_fallbacks, external_network, after_failed_fallback, fallback_unanswered,
  list_unanswered, latest_unanswered, node_failed,
}
use forcerelay_verifier.Client.Start.Sources.{sync-origin}

module _ ⦃lib : Primitives⦄ ⦃execution_lib : ExecutionPrimitives.Primitives⦄ where
  -- One of the attempts has got a bootstrap for the node's checkpoint, the checks of the consensus
  -- client that booted from it have passed, and the node rests on the chain of trust from it.
  pub record IsBooted (config : Config) (node : Node) : Type 0 where
    pub attempt : Attempt
    pub root : Bootstrap
    pub asked : (attempt.servers 0).get_bootstrap node.consensus.initial_checkpoint ≡ ok root
    pub before : ConsensusClient
    pub same_checkpoint : before.initial_checkpoint ≡ node.consensus.initial_checkpoint
    pub same_config : before.config ≡ config
    pub checked : check_bootstrap (attempt.clock 0) root before ≡ ok tt
    pub sound : IsSound config root node

  -- Where different roots print differently, the trust begins with a header that has the checkpoint
  -- for its root.
  pub IsBooted-root :
      {config : Config} {node : Node}
      → PrintsHex lib
      → (booted : IsBooted config node)
      → lib.header_root booted.root.header ≡ some node.consensus.initial_checkpoint
  IsBooted-root prints booted =
      (check_bootstrap_sound prints (booted.attempt.clock 0) booted.root booted.before
        booted.checked).0
      ∙ ap some booted.same_checkpoint

  pub sync-IsBooted :
      (attempt : Attempt) (node : Node) {synced : Node}
      → node.finalized_payloads ≡ []
      → sync attempt.servers attempt.execution_rpc attempt.clock node ≡ (ok tt, synced)
      → IsBooted node.consensus.config synced
  sync-IsBooted attempt node {synced} empty e =
      let (root, asked, checked, sound) =
        sync-IsSound attempt.servers attempt.execution_rpc attempt.clock node empty e in
      let same : synced.consensus.initial_checkpoint ≡ node.consensus.initial_checkpoint =
        subst (λ n. n.consensus.initial_checkpoint ≡ node.consensus.initial_checkpoint)
          (ap (λ r. r.1) e)
          ((sync-origin node.consensus.initial_checkpoint attempt.servers attempt.execution_rpc
              attempt.clock).at
            node refl) in
      record {
        attempt = attempt;
        root = root;
        asked = subst (λ c. (attempt.servers 0).get_bootstrap c ≡ ok root) (sym same) asked;
        before = node.consensus;
        same_checkpoint = sym same;
        same_config = refl;
        checked = checked;
        sound = sound;
      }

  module _ {database : Database} where
    -- No payload is stored as a finalized one.
    abbrev pub IsEmpty : Client database → Type 0
    IsEmpty c = c.node.finalized_payloads ≡ []

    boot_from-IsBooted :
        (attempt : Attempt) (checkpoint : Bytes) (c : Client database) {next : Client database}
        → IsEmpty c
        → boot_from attempt checkpoint c ≡ (ok tt, next)
        → IsBooted c.node.config next.node
    unfolding boot_from new_client
    boot_from-IsBooted attempt checkpoint c {next} empty e =
        let booting =
          set_node (record c.node { consensus = new_client checkpoint c.node.config }) c in
        let (synced, same) =
          on_field-eq-ok (λ (d : Client database). d.node) set_node node_failed
            (sync attempt.servers attempt.execution_rpc attempt.clock) booting e in
        subst (λ d. IsBooted c.node.config d.node) same
          (sync-IsBooted attempt booting.node empty synced)

    pub boot_from_url-IsBooted :
        (world : World) (o : Option Text) (c : Client database) {next : Client database}
        → IsEmpty c
        → boot_from_url world o c ≡ (ok tt, next)
        → IsBooted c.node.config next.node
    unfolding boot_from_url
    boot_from_url-IsBooted world none c empty e = cc
    boot_from_url-IsBooted world (some url) c empty e =
        let (checkpoint, _, e1) =
          bind-eq-ok
            (lift (
              map_err (fetch_checkpoint_from_api world.query world.iterate url)
                (λ _. fallback_unanswered)))
            _ c e in
        boot_from-IsBooted world.fallback_attempt checkpoint c empty e1

    boot_from_external_fallbacks-IsBooted :
        (world : World) (c : Client database) {next : Client database}
        → IsEmpty c
        → boot_from_external_fallbacks world c ≡ (ok tt, next)
        → IsBooted c.node.config next.node
    unfolding boot_from_external_fallbacks
    boot_from_external_fallbacks-IsBooted world c empty e =
        let (list, _, e1) =
          bind-eq-ok
            (lift (map_err (build_fallback world.service_list new_fallback) (λ _. list_unanswered)))
            _ c e in
        let (checkpoint, _, e2) =
          bind-eq-ok
            (reads (λ (d : Client database).
              map_err
                (fetch_latest_checkpoint world.query world.iterate list (external_network d.node))
                (λ _. latest_unanswered)))
            _ c e1 in
        boot_from-IsBooted world.external_attempt checkpoint c empty e2

    pub after_failed_fallback-IsBooted :
        (world : World) (allowed : Bool) (c : Client database) {next : Client database}
        → IsEmpty c
        → after_failed_fallback world allowed c ≡ (ok tt, next)
        → IsBooted c.node.config next.node
    unfolding after_failed_fallback
    after_failed_fallback-IsBooted world true c empty e =
        boot_from_external_fallbacks-IsBooted world c empty e
    after_failed_fallback-IsBooted world false c empty e = cc
