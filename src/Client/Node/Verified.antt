-- ===== src/Client/Node/Verified.antt =====
-- client/src/node.rs: which of the node's payloads are those of trusted blocks.
use forcerelay_verifier.Prelude.{
  ◌≡◌, inl, inr, some, List, All, All-insert, All-pop_until, ok, map_err-eq-ok,
}
use forcerelay_verifier.Common.Method.{
  Keeps, Keeps-bind, Keeps-reads, Keeps-bind_reads, Keeps-writes, reads, writes, ◌>>=◌,
}
use forcerelay_verifier.Common.{Bytes32}
use forcerelay_verifier.Config.Types.{Config}
use forcerelay_verifier.Consensus.Types.{Header, Bootstrap}
use forcerelay_verifier.Consensus.Primitives.{Primitives}
use forcerelay_verifier.Consensus.Blocks.{BeaconBlock, ExecutionPayload, execution_payload}
use forcerelay_verifier.Consensus.Rpc.{ConsensusRpc}
use forcerelay_verifier.Consensus.Payloads.Chain.{get_execution_payload_sound}
use forcerelay_verifier.Consensus.Sync
use forcerelay_verifier.Consensus.Sync.{Clock}
use forcerelay_verifier.Consensus.Trust.{IsTrusted, IsAuthentic}
use forcerelay_verifier.Consensus.Trust.Sync.{advance-IsAuthentic}
use forcerelay_verifier.Client.Errors.{consensus_advance_error}
use forcerelay_verifier.Client.Node.{
  Node, store_payloads, store_backfill, latest_payload, finalized_payload, backfill_payloads,
}
use forcerelay_verifier.Client.Node.Updates.{Servers, on_consensus, update_payloads, advance}

module _ ⦃lib : Primitives⦄ (config : Config) (root : Bootstrap) where
  -- The payload of a block that has the root of a trusted header.
  pub record IsVerified (payload : ExecutionPayload) : Type 0 where
    pub header : Header
    pub block : BeaconBlock
    pub block_root : Bytes32
    pub trusted : IsTrusted config root header
    pub header_root : lib.header_root header ≡ some block_root
    pub same_root : lib.block_root block ≡ some block_root
    pub in_block : payload ≡ execution_payload block.body

  -- The consensus client rests on the chain of trust, and so does each finalized payload.
  abbrev pub IsSound : Node → Type 0
  IsSound node =
      IsAuthentic config root node.consensus × All (λ e. IsVerified e.1) node.finalized_payloads

  finalized_payload-IsVerified :
      (rpc : ConsensusRpc) (node : Node) {payload : ExecutionPayload}
      → IsAuthentic config root node.consensus
      → finalized_payload rpc node ≡ ok payload
      → IsVerified payload
  unfolding finalized_payload
  finalized_payload-IsVerified rpc node h e =
      let (block, r, p, q, s, of_store) =
        get_execution_payload_sound rpc node.consensus node.consensus.store.finalized_header.slot
          (map_err-eq-ok _ _ e) in
      elim of_store [
        | inl (same, t) ↦ record {
          header = node.consensus.store.optimistic_header;
          block = block;
          block_root = r;
          trusted = h.optimistic;
          header_root = t;
          same_root = s;
          in_block = q;
        }
        | inr (same, t) ↦ record {
          header = node.consensus.store.finalized_header;
          block = block;
          block_root = r;
          trusted = h.finalized;
          header_root = t;
          same_root = s;
          in_block = q;
        }
      ]

  module _ (servers : Servers) where
    pub update_payloads-IsSound : Keeps IsSound (update_payloads servers)
    unfolding update_payloads store_payloads store_backfill
    update_payloads-IsSound =
        Keeps-bind (reads (latest_payload (servers 1))) _ (Keeps-reads _) λ latest.
          Keeps-bind_reads (finalized_payload (servers 2)) _ λ finalized node h e.
            (rest latest finalized).at (store_payloads latest finalized node)
              (stored latest finalized node h e)
      where
        stored :
            (latest finalized : ExecutionPayload) (node : Node)
            → IsSound node
            → finalized_payload (servers 2) node ≡ ok finalized
            → IsSound (store_payloads latest finalized node)
        stored latest finalized node h e = (
          h.0,
          All-insert _ _ finalized node.finalized_payloads
              (finalized_payload-IsVerified (servers 2) node h.0 e) h.1,
        )

        trimmed :
            (ps : List ExecutionPayload) (node : Node)
            → IsSound node
            → IsSound (store_backfill ps node)
        trimmed ps node h = (h.0, All-pop_until _ _ node.finalized_payloads h.1)

        rest :
            (latest finalized : ExecutionPayload)
            → Keeps IsSound (
                reads (backfill_payloads (servers 3)) >>= λ ps.
                writes (λ node. ok (store_backfill ps node)))
        rest latest finalized =
            Keeps-bind (reads (backfill_payloads (servers 3))) _ (Keeps-reads _)
              λ ps. Keeps-writes (store_backfill ps) (trimmed ps)

    -- From a node whose consensus client rests on the chain of trust, and whose finalized payloads are
    -- those of blocks with the root of a trusted header, `advance` leads to such a node, whatever the
    -- servers answer and also when it fails.
    pub advance-IsSound :
        (clock : Clock) (node : Node) → IsSound node → IsSound (advance servers clock node).1
    unfolding advance
    advance-IsSound clock node h =
        (Keeps-bind (on_consensus consensus_advance_error (Sync.advance (servers 0) clock)) _
            (record {
              at = λ node h.
                  (advance-IsAuthentic config root (servers 0) clock node.consensus h.0, h.1);
            })
            λ _. update_payloads-IsSound).at
          node h
