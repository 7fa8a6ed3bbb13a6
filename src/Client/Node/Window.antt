-- ===== src/Client/Node/Window.antt =====
-- client/src/node.rs: the windows of payloads that the node keeps.
use forcerelay_verifier.Prelude.{
  ◌/◌, ◌≤◌, ◌≡◌, refl, some, List, [], ◌∷◌, BTreeMap, length, IsSorted, All, All-insert,
  All-pop_until, insert-IsSorted, pop_until-IsSorted, length-pop_until, min, max, ok, map_err,
  arith, ap, subst, length-insert_pos,
}
use forcerelay_verifier.Common.Method.{
  Keeps, Keeps-bind, Keeps-reads, Keeps-writes, Ensures, Ensures-bind, bind-eq-ok, reads, writes,
}
use forcerelay_verifier.Consensus.Primitives.{Primitives}
use forcerelay_verifier.Consensus.Errors.{ConsensusError}
use forcerelay_verifier.Consensus.Blocks.{ExecutionPayload, fields}
use forcerelay_verifier.Consensus.State.{ClientMethod}
use forcerelay_verifier.Consensus.Payloads
use forcerelay_verifier.Consensus.Sync
use forcerelay_verifier.Consensus.Sync.{Clock}
use forcerelay_verifier.Execution.Client
use forcerelay_verifier.Execution.Primitives as ExecutionPrimitives
use forcerelay_verifier.Execution.Rpc.{ExecutionRpc}
use forcerelay_verifier.Client.Errors.{
  NodeError, execution_error, consensus_sync_error, consensus_advance_error,
}
use forcerelay_verifier.Client.Node.{
  Node, insert_payload, insert_all, store_payloads, store_backfill, latest_payload,
  finalized_payload, backfill_payloads,
}
use forcerelay_verifier.Client.Node.Updates.{Servers, on_consensus, update_payloads, advance, sync}

-- The keys ascend, and each payload stands under its own block number.
abbrev pub IsKeyed : BTreeMap ExecutionPayload → Type 0
IsKeyed m = IsSorted m × All (λ e. (fields e.1).block_number ≡ e.0) m

abbrev pub IsWindow : Node → Type 0
IsWindow node = IsKeyed node.payloads × IsKeyed node.finalized_payloads

insert_payload-IsKeyed :
    (p : ExecutionPayload) (m : BTreeMap ExecutionPayload)
    → IsKeyed m
    → IsKeyed (insert_payload p m)
insert_payload-IsKeyed p m h = (
  insert-IsSorted (fields p).block_number p m h.0,
  All-insert _ (fields p).block_number p m refl h.1,
)

pub insert_all-IsKeyed :
    (ps : List ExecutionPayload) (m : BTreeMap ExecutionPayload)
    → IsKeyed m
    → IsKeyed (insert_all ps m)
unfolding insert_all
insert_all-IsKeyed [] m h = h
insert_all-IsKeyed (p ∷ ps) m h =
    insert_all-IsKeyed ps (insert_payload p m) (insert_payload-IsKeyed p m h)

store_payloads-IsWindow :
    (p q : ExecutionPayload) (node : Node) → IsWindow node → IsWindow (store_payloads p q node)
unfolding store_payloads
store_payloads-IsWindow p q node h = (
  insert_payload-IsKeyed q (insert_payload p node.payloads)
      (insert_payload-IsKeyed p node.payloads h.0),
  insert_payload-IsKeyed q node.finalized_payloads h.1,
)

store_backfill-IsWindow :
    (ps : List ExecutionPayload) (node : Node) → IsWindow node → IsWindow (store_backfill ps node)
unfolding store_backfill
store_backfill-IsWindow ps node (h, k) =
    let all = insert_all-IsKeyed ps node.payloads h in
    (
      (
        pop_until-IsSorted _ (insert_all ps node.payloads) all.0,
        All-pop_until _ _ (insert_all ps node.payloads) all.1,
      ),
      (
        pop_until-IsSorted _ node.finalized_payloads k.0,
        All-pop_until _ _ node.finalized_payloads k.1,
      ),
    )

-- The windows are within their sizes and not empty, but that a history of size zero keeps nothing,
-- and the node knows up to which slot they reach.
abbrev pub IsBounded : Node → Type 0
IsBounded node =
    (min node.history_size 1 ≤ length node.payloads)
    × (length node.payloads ≤ node.history_size)
    × (1 ≤ length node.finalized_payloads)
    × (length node.finalized_payloads ≤ max (node.history_size / 32) 1)
    × (node.current_slot ≡ some node.consensus.store.optimistic_header.slot)

insert_all-length :
    (ps : List ExecutionPayload) (m : BTreeMap ExecutionPayload)
    → 1 ≤ length m
    → 1 ≤ length (insert_all ps m)
unfolding insert_all
insert_all-length [] m h = h
insert_all-length (p ∷ ps) m h =
    insert_all-length ps (insert_payload p m) (length-insert_pos (fields p).block_number p m)

-- What the insertions leave, with the payloads that were verified before them.
store_backfill-IsBounded :
    (latest finalized : ExecutionPayload) (ps : List ExecutionPayload) (node : Node)
    → IsBounded (store_backfill ps (store_payloads latest finalized node))
unfolding store_backfill store_payloads
store_backfill-IsBounded latest finalized ps node =
    let stored = insert_payload finalized (insert_payload latest node.payloads) in
    let kept = insert_payload finalized node.finalized_payloads in
    let first = length-pop_until node.history_size (insert_all ps stored) in
    let second = length-pop_until (max (node.history_size / 32) 1) kept in
    let some_stored = insert_all-length ps stored (
      length-insert_pos (fields finalized).block_number finalized
        (insert_payload latest node.payloads)) in
    let some_kept =
      length-insert_pos (fields finalized).block_number finalized node.finalized_payloads in
    (
      omega (arith, first, some_stored),
      omega (arith, first),
      omega (arith, second, some_kept),
      omega (arith, second),
      refl,
    )

module _ ⦃lib : Primitives⦄ (servers : Servers) (clock : Clock) where
  update_payloads-IsWindow : Keeps IsWindow (update_payloads servers)
  unfolding update_payloads
  update_payloads-IsWindow =
      Keeps-bind (reads (latest_payload (servers 1))) _ (Keeps-reads _) λ latest.
        Keeps-bind (reads (finalized_payload (servers 2))) _ (Keeps-reads _) λ finalized.
          Keeps-bind (writes (λ node. ok (store_payloads latest finalized node))) _
            (Keeps-writes _ (store_payloads-IsWindow latest finalized))
            λ _.
              Keeps-bind (reads (backfill_payloads (servers 3))) _ (Keeps-reads _) λ backfill.
                Keeps-writes (store_backfill backfill) (store_backfill-IsWindow backfill)

  on_consensus-IsWindow :
      {A : Type 0} (f : ConsensusError → NodeError) (m : ClientMethod A)
      → Keeps IsWindow (on_consensus f m)
  on_consensus-IsWindow f m = record { at = λ node h. h }

  advance-IsWindow : Keeps IsWindow (advance servers clock)
  unfolding advance
  advance-IsWindow = Keeps-bind _ _ (on_consensus-IsWindow _ _) λ _. update_payloads-IsWindow

  sync-IsWindow :
      ⦃execution_lib : ExecutionPrimitives.Primitives⦄ (rpc : ExecutionRpc)
      → Keeps IsWindow (sync servers rpc clock)
  unfolding sync
  sync-IsWindow rpc =
      Keeps-bind
        (reads (λ node. map_err (Client.check_rpc rpc node.config.chain.chain_id) execution_error))
        _ (Keeps-reads _)
        λ _.
          Keeps-bind
            (reads (λ node.
              map_err (Payloads.check_rpc (servers 4) node.consensus) consensus_sync_error))
            _ (Keeps-reads _)
            λ _.
              Keeps-bind (on_consensus consensus_sync_error (Sync.sync (servers 0) clock)) _
                (on_consensus-IsWindow consensus_sync_error _) λ _. update_payloads-IsWindow

  -- From a node whose two windows have their keys in ascending order, and each payload under its own
  -- block number, `advance` and `sync` lead to such a node, whatever the servers answer and also when
  -- they fail.
  pub updates-IsWindow :
      ⦃execution_lib : ExecutionPrimitives.Primitives⦄ (rpc : ExecutionRpc) (node : Node)
      → IsWindow node
      → IsWindow (advance servers clock node).1 × IsWindow (sync servers rpc clock node).1
  updates-IsWindow rpc node h = (advance-IsWindow.at node h, (sync-IsWindow rpc).at node h)

  update_payloads-IsBounded : Ensures IsBounded (update_payloads servers)
  unfolding update_payloads
  update_payloads-IsBounded = record {
    at = λ node e.
        let (latest, _, e1) = bind-eq-ok (reads (latest_payload (servers 1))) _ node e in
        let (finalized, _, e2) = bind-eq-ok (reads (finalized_payload (servers 2))) _ node e1 in
        let stored = store_payloads latest finalized node in
        let (backfill, _, e3) = bind-eq-ok (reads (backfill_payloads (servers 3))) _ stored e2 in
        subst IsBounded (ap (λ r. r.1) e3)
          (store_backfill-IsBounded latest finalized backfill node);
  }

  -- After an `advance` that returns, the node has at least one payload, unless its history size is
  -- zero, and no more than that size; at least one finalized payload, and no more than a 32nd of the
  -- history size, or than one where that is less; and its current slot is the one of the optimistic
  -- header.
  pub advance-IsBounded :
      (node : Node) {last : Node} → advance servers clock node ≡ (ok tt, last) → IsBounded last
  unfolding advance
  advance-IsBounded node e =
      (Ensures-bind (on_consensus consensus_advance_error (Sync.advance (servers 0) clock)) _
          λ _. update_payloads-IsBounded).at
        node e

  -- The same of a `sync` that returns.
  sync-IsBounded :
      ⦃execution_lib : ExecutionPrimitives.Primitives⦄ (rpc : ExecutionRpc) (node : Node)
      {last : Node}
      → sync servers rpc clock node ≡ (ok tt, last)
      → IsBounded last
  unfolding sync
  sync-IsBounded rpc node e =
      (Ensures-bind
          (reads
            (λ node. map_err (Client.check_rpc rpc node.config.chain.chain_id) execution_error))
          _
          λ _.
            Ensures-bind
              (reads (λ node.
                map_err (Payloads.check_rpc (servers 4) node.consensus) consensus_sync_error))
              _
              λ _.
                Ensures-bind (on_consensus consensus_sync_error (Sync.sync (servers 0) clock)) _
                  λ _. update_payloads-IsBounded).at
        node e
