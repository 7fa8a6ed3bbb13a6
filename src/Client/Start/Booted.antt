-- ===== src/Client/Start/Booted.antt =====
-- client/src/client.rs: what a `start` that returns establishes.
use forcerelay_verifier.Prelude.{
  ◌≡◌, refl, sym, ap, subst, ◌∙◌, ◌⊎◌, inl, inr, Bool, true, false, Bool-cases, Option, none, some,
  Outcome, ok, err, panic, if◌then◌else◌,
}
use forcerelay_verifier.Common.Method.{bind-eq-ok}
use forcerelay_verifier.Consensus.Primitives.{Primitives}
use forcerelay_verifier.Execution.Primitives as ExecutionPrimitives
use forcerelay_verifier.Client.Errors.{NodeResult, consensus_sync_error}
use forcerelay_verifier.Client.Node.{Node}
use forcerelay_verifier.Client.Node.Failed.{sync-IsUnstored}
use forcerelay_verifier.Client.Node.Updates.{sync}
use forcerelay_verifier.Client.Start.{
  RpcServer, server_failed, Database, Client, World, ClientError, set_node, boot_from_url,
  boot_from_fallback, recover, after_sync, after_fallback, after_failed_fallback, is_too_old,
  start_sync, start_server, save_last_checkpoint, start,
}
use forcerelay_verifier.Client.Start.Sources.{
  IsSource, start-IsSource, boot_from_fallback-HasSource,
}
use forcerelay_verifier.Client.Start.Attempts.{
  IsBooted, IsEmpty, sync-IsBooted, boot_from_url-IsBooted, after_failed_fallback-IsBooted,
}

module _ ⦃lib : Primitives⦄ ⦃execution_lib : ExecutionPrimitives.Primitives⦄
    {database : Database} where
  -- A fallback of its own and the external ones are not both there to be tried.
  abbrev pub HasOneFallback : Client database → Type 0
  HasOneFallback c = (c.load_external_fallback ≡ false) ⊎ (c.fallback ≡ none)

  recover-IsBooted :
      (world : World) (c : Client database) {next : Client database}
      → HasOneFallback c
      → IsEmpty c
      → recover world c ≡ (ok tt, next)
      → IsBooted c.node.config next.node
  unfolding recover boot_from_fallback after_fallback after_failed_fallback boot_from_url
  recover-IsBooted world c {next} one empty e = go one (boot_from_fallback world c) refl e
    where
      go :
          HasOneFallback c
          → (r : Outcome ClientError (Unit {0}) × Client database) → boot_from_fallback world c ≡ r
          → after_fallback world r ≡ (ok tt, next)
          → IsBooted c.node.config next.node
      go one (ok u, d) p e = boot_from_url-IsBooted world c.fallback c empty (p ∙ e)
      go one (panic, d) p e = cc
      go (inl closed) (err x, d) p e =
          let kept : d.load_external_fallback ≡ false =
            subst (λ (a : Client database). a.load_external_fallback ≡ c.load_external_fallback)
              (ap (λ r. r.1) p)
              ((boot_from_fallback-HasSource world c).at c (refl, refl, inl refl)).1
            ∙ closed in
          let e' = rw kept at e in cc
      go (inr no_url) (err x, d) p e =
          let same : c ≡ d =
            ap (λ r. r.1)
              (subst
                (λ o.
                  Path (Outcome ClientError (Unit {0}) × Client database) (boot_from_url world o c)
                    (err x, d))
                no_url p) in
          subst (λ (a : Client database). IsBooted a.node.config next.node) (sym same)
            (after_failed_fallback-IsBooted world d.load_external_fallback d
              (subst IsEmpty same empty) e)

  after_sync-IsBooted :
      (world : World) (c : Client database) {next : Client database} (r : NodeResult (Unit {0}))
      (node : Node)
      → HasOneFallback c
      → IsEmpty c
      → c.node.consensus.config ≡ c.node.config
      → sync world.first_attempt.servers world.first_attempt.execution_rpc world.first_attempt.clock
          c.node
        ≡ (r, node)
      → after_sync world r (set_node node c) ≡ (ok tt, next)
      → IsBooted c.node.config next.node
  unfolding after_sync
  after_sync-IsBooted world c (ok u) node one empty configured p e =
      subst (λ (d : Client database). IsBooted c.node.config d.node) (ap (λ r. r.1) e)
        (subst (λ config. IsBooted config node) configured
          (sync-IsBooted world.first_attempt c.node empty p))
  after_sync-IsBooted world c panic node one empty configured p e = cc
  after_sync-IsBooted world c {next} (err (consensus_sync_error x)) node one empty configured p e =
      elim (Bool-cases (is_too_old x)) [
        | inl old ↦
            let (kept, unstored) =
              sync-IsUnstored world.first_attempt.servers world.first_attempt.execution_rpc
                world.first_attempt.clock c.node p in
            subst (λ config. IsBooted config next.node) kept
              (recover-IsBooted world (set_node node c) one (unstored ∙ empty) (rw old at e))
        | inr other ↦ (let e' = rw other at e in cc)
      ]
  after_sync-IsBooted world c (err x) node one empty configured p e = cc

  start_sync-IsBooted :
      (world : World) (c : Client database) {next : Client database}
      → HasOneFallback c
      → IsEmpty c
      → c.node.consensus.config ≡ c.node.config
      → start_sync world c ≡ (ok tt, next)
      → IsBooted c.node.config next.node
  unfolding start_sync
  start_sync-IsBooted world c one empty configured e =
      let (r, node) =
        sync world.first_attempt.servers world.first_attempt.execution_rpc world.first_attempt.clock
          c.node in
      after_sync-IsBooted world c r node one empty configured refl e

  IsSameStart : Client database → Client database → Type 0
  IsSameStart c d =
      (d.node ≡ c.node)
      × (d.fallback ≡ c.fallback)
      × (d.load_external_fallback ≡ c.load_external_fallback)

  start_server_lem :
      (listens : Bool) (c : Client database) {d : Client database}
      → start_server listens c ≡ (ok tt, d)
      → IsSameStart c d
  unfolding start_server IsSameStart
  start_server_lem listens c {d} e = go c.rpc e
    where
      go :
          (o : Option RpcServer)
          → Path
              (Outcome ClientError (Unit {0}) × Client database)
              (elim o [
                | none ↦ (ok tt, c)
                | some rpc ↦
                    if listens
                    then (ok tt, record c { rpc = some (record rpc { started = true }) })
                    else (err server_failed, c)
              ])
              (ok tt, d)
          → IsSameStart c d
      go none p = subst (IsSameStart c) (ap (λ r. r.1) p) (refl, refl, refl)
      go (some rpc) p = elim (Bool-cases listens) [
        | inl yes_it ↦ subst (IsSameStart c) (ap (λ r. r.1) (rw yes_it at p)) (refl, refl, refl)
        | inr no_it ↦ (let p' = rw no_it at p in cc)
      ]

  -- Where a client has not both an own fallback and the external ones, no finalized payloads, and a
  -- consensus client with the configuration of its node: a
  -- `start` that returns has got a bootstrap for a checkpoint, and its checks have passed; the
  -- checkpoint is the client's own, or one that a fallback gave; and the node rests on the chain of
  -- trust from that bootstrap, with each finalized payload that of a block of a trusted header.
  pub start-IsBooted :
      (world : World) (c : Client database) {started : Client database}
      → HasOneFallback c
      → IsEmpty c
      → c.node.consensus.config ≡ c.node.config
      → start world c ≡ (ok tt, started)
      → IsBooted c.node.config started.node
        × IsSource world c started.node.consensus.initial_checkpoint
  unfolding start IsSameStart save_last_checkpoint
  start-IsBooted world c {started} one empty configured e =
      let (_, served, e1) = bind-eq-ok (start_server world.listens) _ c e in
      let d = (start_server world.listens c).1 in
      let (_, synced, e2) = bind-eq-ok (start_sync world) _ d e1 in
      let next = (start_sync world d).1 in
      let (node, fallback, external) = start_server_lem world.listens c served in
      let booted : IsBooted d.node.config next.node =
        start_sync-IsBooted world d (rw (fallback, external) one)
          (ap (λ n. n.finalized_payloads) node ∙ empty)
          (ap (λ n. n.consensus.config) node ∙ configured ∙ ap (λ n. n.config) (sym node)) synced in
      (
        subst (λ (a : Client database). IsBooted c.node.config a.node) (ap (λ r. r.1) e2)
            (subst (λ n. IsBooted n.config next.node) node booted),
        subst (λ (a : Client database). IsSource world c a.node.consensus.initial_checkpoint)
            (ap (λ r. r.1) e) (start-IsSource world c),
      )
