-- ===== src/Client/Start/Sources.antt =====
-- client/src/client.rs: where the checkpoint comes from that a client boots from.
use forcerelay_verifier.Prelude.{
  ◌≡◌, refl, sym, subst, ◌⊎◌, inl, inr, Bool, true, false, Bool-cases, Option, none, some, Outcome,
  ok, err, panic, map_err-eq-ok, if◌then◌else◌, map_err,
}
use forcerelay_verifier.Common.{Bytes, Text}
use forcerelay_verifier.Common.Method.{
  Keeps, Keeps-bind, Keeps-reads, Keeps-bind_reads, Keeps-writes, Keeps-lift, Keeps-if, reads,
  writes, on_field,
}
use forcerelay_verifier.Config.Networks.{Network}
use forcerelay_verifier.Config.Checkpoints.{
  CheckpointFallback, new_fallback, build_fallback, fetch_checkpoint_from_api,
  fetch_latest_checkpoint,
}
use forcerelay_verifier.Consensus.Primitives.{Primitives}
use forcerelay_verifier.Consensus.State.{ConsensusClient, new_client}
use forcerelay_verifier.Consensus.Errors.{ConsensusError}
use forcerelay_verifier.Consensus.Payloads
use forcerelay_verifier.Consensus.Sync
use forcerelay_verifier.Consensus.Sync.{Clock}
use forcerelay_verifier.Consensus.Sync.Origin.{HasOrigin, sync-HasOrigin}
use forcerelay_verifier.Execution.Client
use forcerelay_verifier.Execution.Primitives as ExecutionPrimitives
use forcerelay_verifier.Execution.Rpc.{ExecutionRpc}
use forcerelay_verifier.Client.Errors.{NodeResult, execution_error, consensus_sync_error}
use forcerelay_verifier.Client.Node.{
  Node, latest_payload, finalized_payload, backfill_payloads, store_payloads, store_backfill,
}
use forcerelay_verifier.Client.Node.Updates.{Servers, on_consensus, update_payloads, sync}
use forcerelay_verifier.Client.Start.{
  Database, Client, Attempt, World, set_node, boot_from, boot_from_fallback,
  boot_from_external_fallbacks, external_network, recover, after_sync, after_fallback,
  after_failed_fallback, boot_from_url, is_too_old, RpcServer, server_failed, start_sync,
  start_server, save_last_checkpoint, start, fallback_unanswered, list_unanswered,
  latest_unanswered, node_failed, no_fallback, ClientError,
}

module _ ⦃lib : Primitives⦄ where
  update_payloads-consensus :
      (P : ConsensusClient → Type 0) (servers : Servers)
      → Keeps (λ node. P node.consensus) (update_payloads servers)
  unfolding update_payloads store_payloads store_backfill
  update_payloads-consensus P servers =
      Keeps-bind (reads (latest_payload (servers 1))) _ (Keeps-reads _) λ latest.
        Keeps-bind (reads (finalized_payload (servers 2))) _ (Keeps-reads _) λ finalized.
          Keeps-bind (writes (λ node. ok (store_payloads latest finalized node))) _
            (Keeps-writes _ λ c h. h)
            λ _.
              Keeps-bind (reads (backfill_payloads (servers 3))) _ (Keeps-reads _)
                λ backfill. Keeps-writes (store_backfill backfill) λ c h. h

  pub sync-origin :
      ⦃execution_lib : ExecutionPrimitives.Primitives⦄ (checkpoint : Bytes) (servers : Servers)
      (rpc : ExecutionRpc) (clock : Clock)
      → Keeps (λ (node : Node). HasOrigin checkpoint node.consensus) (sync servers rpc clock)
  unfolding sync
  sync-origin checkpoint servers rpc clock =
      Keeps-bind
        (reads (λ node. map_err (Client.check_rpc rpc node.config.chain.chain_id) execution_error))
        _ (Keeps-reads _)
        λ _.
          Keeps-bind
            (reads (λ node.
              map_err (Payloads.check_rpc (servers 4) node.consensus) consensus_sync_error))
            _ (Keeps-reads _)
            λ _.
              Keeps-bind (on_consensus consensus_sync_error (Sync.sync (servers 0) clock)) _
                (record {
                  at = λ node h. (sync-HasOrigin checkpoint (servers 0) clock).at node.consensus h;
                })
                λ _. update_payloads-consensus (HasOrigin checkpoint) servers

module _ ⦃lib : Primitives⦄ ⦃execution_lib : ExecutionPrimitives.Primitives⦄ {database : Database}
    (world : World) (client : Client database) where
  -- The checkpoint that the client was created with, or that of its own fallback service, or, if the
  -- external services are allowed, the one that these give most often.
  abbrev pub IsSource : Bytes → Type 0
  IsSource checkpoint =
      (checkpoint ≡ client.node.consensus.initial_checkpoint)
      ⊎ ((url : Text) × (client.fallback ≡ some url)
          × (fetch_checkpoint_from_api world.query world.iterate url ≡ ok checkpoint))
      ⊎ ((client.load_external_fallback ≡ true)
          × ((list : CheckpointFallback) × (network : Network) × (build_fallback world.service_list
                  new_fallback
                ≡ ok list)
              × (fetch_latest_checkpoint world.query world.iterate list network ≡ ok checkpoint)))

  abbrev HasSource : Client database → Type 0
  HasSource c =
      (c.fallback ≡ client.fallback)
      × (c.load_external_fallback ≡ client.load_external_fallback)
      × IsSource c.node.consensus.initial_checkpoint

  boot_from-HasSource :
      (attempt : Attempt) (checkpoint : Bytes)
      → IsSource checkpoint
      → Keeps HasSource (boot_from attempt checkpoint)
  unfolding boot_from new_client
  boot_from-HasSource attempt checkpoint source =
      Keeps-bind
        (writes (λ (c : Client database).
          ok (set_node (record c.node { consensus = new_client checkpoint c.node.config }) c)))
        (λ _.
          on_field (λ c. c.node) set_node node_failed
            (sync attempt.servers attempt.execution_rpc attempt.clock))
        (Keeps-writes _ λ c h. (h.0, h.1, source))
        λ _. record {
          at = λ c h. (
            h.0,
            h.1,
            subst IsSource
                (sym (
                  (sync-origin c.node.consensus.initial_checkpoint attempt.servers
                      attempt.execution_rpc attempt.clock).at
                    c.node refl))
                h.2,
          );
        }

  boot_from_url-HasSource :
      (o : Option Text) → client.fallback ≡ o → Keeps HasSource (boot_from_url world o)
  unfolding boot_from_url
  boot_from_url-HasSource none e = Keeps-lift (err no_fallback)
  boot_from_url-HasSource (some url) e =
      Keeps-bind_reads
        (λ _.
          map_err (fetch_checkpoint_from_api world.query world.iterate url)
            (λ _. fallback_unanswered))
        (boot_from world.fallback_attempt)
        λ checkpoint c h p.
          (boot_from-HasSource world.fallback_attempt checkpoint
              (inr (inl (url, e, map_err-eq-ok _ _ p)))).at
            c h

  pub boot_from_fallback-HasSource : Keeps HasSource (boot_from_fallback world)
  unfolding boot_from_fallback
  boot_from_fallback-HasSource = record {
    at = λ c h. (boot_from_url-HasSource c.fallback (sym h.0)).at c h;
  }

  boot_from_external_fallbacks-HasSource :
      client.load_external_fallback ≡ true → Keeps HasSource (boot_from_external_fallbacks world)
  unfolding boot_from_external_fallbacks
  boot_from_external_fallbacks-HasSource allowed =
      Keeps-bind_reads
        (λ _. map_err (build_fallback world.service_list new_fallback) (λ _. list_unanswered)) _
        λ list c h p.
          (Keeps-bind_reads
              (λ d.
                map_err
                  (fetch_latest_checkpoint world.query world.iterate list (external_network d.node))
                  (λ _. latest_unanswered))
              (boot_from world.external_attempt)
              λ checkpoint d k q.
                (boot_from-HasSource world.external_attempt checkpoint (
                    inr (
                      inr (
                        allowed,
                        (list, external_network d.node, map_err-eq-ok _ _ p, map_err-eq-ok _ _ q),
                      )))).at
                  d k).at
            c h

  after_failed_fallback-HasSource :
      (allowed : Bool)
      → client.load_external_fallback ≡ allowed
      → Keeps HasSource (after_failed_fallback world allowed)
  unfolding after_failed_fallback
  after_failed_fallback-HasSource true e = boot_from_external_fallbacks-HasSource e
  after_failed_fallback-HasSource false e = Keeps-lift _

  after_fallback-HasSource :
      (r : Outcome ClientError (Unit {0}) × Client database)
      → HasSource r.1
      → HasSource (after_fallback world r).1
  unfolding after_fallback
  after_fallback-HasSource (ok u, next) h = h
  after_fallback-HasSource (panic, next) h = h
  after_fallback-HasSource (err x, next) h =
      (after_failed_fallback-HasSource next.load_external_fallback (sym h.1)).at next h

  recover-HasSource : Keeps HasSource (recover world)
  unfolding recover
  recover-HasSource = record {
    at = λ c h.
        after_fallback-HasSource (boot_from_fallback world c) (boot_from_fallback-HasSource.at c h);
  }

  too_old-HasSource :
      (e : ConsensusError) → Keeps HasSource (after_sync world (err (consensus_sync_error e)))
  unfolding after_sync
  too_old-HasSource e = Keeps-if (is_too_old e) (recover world) _ recover-HasSource (Keeps-lift _)

  after_sync-HasSource : (r : NodeResult (Unit {0})) → Keeps HasSource (after_sync world r)
  unfolding after_sync
  after_sync-HasSource (ok u) = Keeps-lift _
  after_sync-HasSource panic = Keeps-lift _
  after_sync-HasSource (err (consensus_sync_error e)) = too_old-HasSource e
  after_sync-HasSource (err e) = Keeps-lift _

  start_sync-HasSource : Keeps HasSource (start_sync world)
  unfolding start_sync
  start_sync-HasSource = record {
    at = λ c h.
        (after_sync-HasSource _).at
          (set_node
            (sync world.first_attempt.servers world.first_attempt.execution_rpc
              world.first_attempt.clock c.node).1
            c)
          (
            h.0,
            h.1,
            subst IsSource
                (sym (
                  (sync-origin c.node.consensus.initial_checkpoint world.first_attempt.servers
                      world.first_attempt.execution_rpc world.first_attempt.clock).at
                    c.node refl))
                h.2,
          );
  }

  start_server-HasSource : (listens : Bool) → Keeps HasSource (start_server listens)
  unfolding start_server
  start_server-HasSource listens = record { at = λ c h. go c h c.rpc }
    where
      go :
          (c : Client database)
          → HasSource c
          → (o : Option RpcServer)
          → HasSource
              (elim o as (λ _. Outcome ClientError (Unit {0}) × Client database) [
                | none ↦ (ok tt, c)
                | some rpc ↦
                    if listens
                    then (ok tt, record c { rpc = some (record rpc { started = true }) })
                    else (err server_failed, c)
              ]).1
      go c h none = h
      go c h (some rpc) = elim (Bool-cases listens) [ inl e ↦ rw e h | inr e ↦ rw e h ]

  save_last_checkpoint-HasSource :
      (c : Client database) → HasSource c → HasSource (save_last_checkpoint c)
  unfolding save_last_checkpoint
  save_last_checkpoint-HasSource c h = h

  -- After `start`, also when it fails, the checkpoint that the client boots from is the one it was
  -- created with, or the one that its own fallback service gave, or, only if the external fallbacks
  -- are allowed, the one that the external services gave.
  pub start-IsSource : IsSource (start world client).1.node.consensus.initial_checkpoint
  unfolding start
  start-IsSource =
      ((Keeps-bind (start_server world.listens) _ (start_server-HasSource world.listens) λ _.
          Keeps-bind (start_sync world) _ start_sync-HasSource
            λ _. Keeps-writes save_last_checkpoint save_last_checkpoint-HasSource).at
        client (refl, refl, inl refl)).2
