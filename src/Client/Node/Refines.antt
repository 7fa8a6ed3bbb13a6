-- ===== src/Client/Node/Refines.antt =====
-- client/src/node.rs: the stored payloads as a function from block numbers, which forgets how the map
-- is kept.
use forcerelay_verifier.Prelude.{
  ℕ, ◌≡◌, refl, ◌∙◌, ap, Option, none, some, List, [], ◌∷◌, BTreeMap, lookup, length, lookup-insert,
  lookup-pop_until, length-pop_until, min, leb, ◌==◌, if◌then◌else◌,
}
use forcerelay_verifier.Consensus.Blocks.{ExecutionPayload, fields}
use forcerelay_verifier.Client.Node.{
  Node, insert_payload, insert_all, store_payloads, store_backfill,
}
use forcerelay_verifier.Client.Node.Window.{IsWindow, insert_all-IsKeyed}

-- what is stored under each block number
abbrev pub PayloadView : Type 0
PayloadView = ℕ → Option ExecutionPayload

abbrev pub view : BTreeMap ExecutionPayload → PayloadView
view payloads number = lookup number payloads

-- each payload overwrites what stands under its block number
abbrev pub written : List ExecutionPayload → PayloadView → PayloadView
written [] stored = stored
written (p ∷ ps) stored =
    written ps (λ k. if k == (fields p).block_number then some p else stored k)

written-same :
    (ps : List ExecutionPayload) (f g : PayloadView)
    → ((k : ℕ) → f k ≡ g k)
    → (k : ℕ) → written ps f k ≡ written ps g k
written-same [] f g same k = same k
written-same (p ∷ ps) f g same k =
    written-same ps _ _ (λ j. ap (λ o. if j == (fields p).block_number then some p else o) (same j))
      k

view-insert_all :
    (ps : List ExecutionPayload) (m : BTreeMap ExecutionPayload) (k : ℕ)
    → view (insert_all ps m) k ≡ written ps (view m) k
unfolding insert_all
view-insert_all [] m k = refl
view-insert_all (p ∷ ps) m k =
    view-insert_all ps (insert_payload p m) k
    ∙ written-same ps _ _ (λ j. lookup-insert j (fields p).block_number p m) k

-- From a node whose windows are in order, storing the latest and the finalized payload and then the
-- backfilled ones is, on the function from block numbers to payloads, to overwrite it by them one
-- after the other, and then to forget the numbers below some bound; as many entries are left as the
-- history holds, or all of them.
pub store_refines :
    (latest finalized : ExecutionPayload) (backfill : List ExecutionPayload) (node : Node)
    → IsWindow node
    → (length (store_backfill backfill (store_payloads latest finalized node)).payloads
        ≡ min node.history_size (length (insert_all (latest ∷ finalized ∷ backfill) node.payloads)))
      × ((bound : ℕ) × ((k : ℕ)
            → view (store_backfill backfill (store_payloads latest finalized node)).payloads k ≡ (
                if leb bound k
                then written (latest ∷ finalized ∷ backfill) (view node.payloads) k
                else none)))
unfolding store_backfill store_payloads insert_all
store_refines latest finalized backfill node h =
    let all = latest ∷ finalized ∷ backfill in
    let (bound, same) =
      lookup-pop_until node.history_size (insert_all all node.payloads)
        (insert_all-IsKeyed all node.payloads h.0).0 in
    (
      length-pop_until node.history_size (insert_all all node.payloads),
      (
        bound,
        λ k.
            same k
            ∙ ap (λ o. if leb bound k then o else none) (view-insert_all all node.payloads k),
      ),
    )
