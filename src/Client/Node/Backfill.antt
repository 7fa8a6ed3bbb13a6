-- ===== src/Client/Node/Backfill.antt =====
-- client/src/node.rs: what `update_payloads` makes of the payloads that it backfills.
use forcerelay_verifier.Prelude.{last-insert, last-pop_until, ◌≤◌, ◌<◌, ◌≡◌, refl, [], ◌∷◌, All, ok}
use forcerelay_verifier.Common.{latest}
use forcerelay_verifier.Consensus.Primitives.{Primitives}
use forcerelay_verifier.Consensus.Blocks.{ExecutionPayload, fields}
use forcerelay_verifier.Client.Node.{
  Node, insert_payload, insert_all, store_payloads, store_backfill, latest_payload,
  finalized_payload, backfill_payloads,
}
use forcerelay_verifier.Client.Node.Updates.{Servers, update_payloads}
use forcerelay_verifier.Client.Node.Queries.{get_payload}

-- The number of a backfilled payload is not tested: when `update_payloads` gets one payload besides
-- the two that it verifies, and that payload claims a higher number than all that the node keeps,
-- and the history holds at least one, the node takes it for the latest one, whatever else it holds.
pub update_payloads_latest :
    ⦃lib : Primitives⦄ (servers : Servers) (node : Node)
    (latest_verified finalized_verified backfilled : ExecutionPayload)
    → latest_payload (servers 1) node ≡ ok latest_verified
    → finalized_payload (servers 2) node ≡ ok finalized_verified
    → backfill_payloads (servers 3) (store_payloads latest_verified finalized_verified node)
      ≡ ok (backfilled ∷ [])
    → All
        (λ e. e.0 < (fields backfilled).block_number)
        (insert_payload finalized_verified (insert_payload latest_verified node.payloads))
    → 1 ≤ node.history_size
    → get_payload latest (update_payloads servers node).1 ≡ ok backfilled
unfolding update_payloads store_payloads store_backfill get_payload
update_payloads_latest servers node p q r h k l below size =
    rw (h, k, l) (stored node p q r below size)
  where
    stored :
        (node : Node) (p q r : ExecutionPayload)
        → All
            (λ e. e.0 < (fields r).block_number)
            (insert_payload q (insert_payload p node.payloads))
        → 1 ≤ node.history_size
        → get_payload latest (store_backfill (r ∷ []) (store_payloads p q node)) ≡ ok r
    stored node p q r below size =
        rw
          (
            last-pop_until node.history_size
                (insert_all (r ∷ []) (insert_payload q (insert_payload p node.payloads))) size,
            last-insert (fields r).block_number r
                (insert_payload q (insert_payload p node.payloads)) below,
          )
          refl
