-- ===== src/Consensus/Payloads/Chain.antt =====
-- The payloads that the consensus client hands on.
use forcerelay_verifier.Prelude.{
  ℕ, ◌-◌, ◌≡◌, Option, none, subst, ok-injective, ◌≢◌, refl, ◌⊎◌, inl, inr, true, some, List, [],
  ◌∷◌, map, arith, ok_or-eq-ok, ok, err, >>=-eq-ok, bytes_eq, bytes_eq→eq, bytes_eq_refl,
  Bool-cases, ok_or,
}
use forcerelay_verifier.Common.{Bytes32, Node}
use forcerelay_verifier.Consensus.Blocks.{BeaconBlock, ExecutionPayload, execution_payload, fields}
use forcerelay_verifier.Consensus.Errors.{payload_not_found, other}
use forcerelay_verifier.Consensus.Primitives.{Primitives}
use forcerelay_verifier.Consensus.State.{ConsensusClient}
use forcerelay_verifier.Consensus.Rpc.{ConsensusRpc}
use forcerelay_verifier.Consensus.Payloads.{
  verified_block_hash, get_execution_payload, descending, join_all, backfill, get_payloads,
}

-- Each payload is the parent of the one before it; `hash` is the parent of the first one's child.
abbrev pub IsChain : Bytes32 → List ExecutionPayload → Type 0
IsChain hash [] = Unit
IsChain hash (p ∷ ps) = ((fields p).block_hash ≡ hash) × IsChain (fields p).parent_hash ps

backfill-IsChain :
    (hash : Bytes32) (answers : List (Option BeaconBlock)) → IsChain hash (backfill hash answers)
unfolding backfill
backfill-IsChain hash [] = tt
backfill-IsChain hash (none ∷ answers) = backfill-IsChain hash answers
backfill-IsChain hash (some block ∷ answers) =
    elim (Bool-cases (bytes_eq (fields (execution_payload block.body)).block_hash hash)) [
      | inr other_block ↦ rw other_block tt
      | inl parent ↦ rw parent (
        bytes_eq→eq _ _ parent,
        backfill-IsChain (fields (execution_payload block.body)).parent_hash answers,
      )
    ]

-- When `get_payloads` returns, its payloads are a chain of parents, newest first, from the parent of the block that
-- the server gives for the end slot.
pub get_payloads-IsChain :
    (rpc : ConsensusRpc) (start_slot end_slot : ℕ) {ps : List ExecutionPayload}
    → get_payloads rpc start_slot end_slot ≡ ok ps
    → (block : BeaconBlock) × (rpc.get_block end_slot ≡ ok block)
      × IsChain (fields (execution_payload block.body)).parent_hash ps
unfolding get_payloads
get_payloads-IsChain rpc start_slot end_slot e =
    let (block, p, e1) = >>=-eq-ok (rpc.get_block end_slot) _ e in
    let (answers, _, e2) =
      >>=-eq-ok (join_all (map rpc.get_block (descending (end_slot - start_slot) start_slot))) _
        e1 in
    let hash = (fields (execution_payload block.body)).parent_hash in
    (block, p, subst (IsChain hash) (ok-injective e2) (backfill-IsChain hash answers))

module _ (rpc : ConsensusRpc) (blocks : ℕ → BeaconBlock) where
  abbrev pub payload_of : ℕ → ExecutionPayload
  payload_of slot = execution_payload (blocks slot).body

  join_all_complete :
      (slots : List ℕ)
      → ((slot : ℕ) → rpc.get_block slot ≡ ok (blocks slot))
      → join_all (map rpc.get_block slots) ≡ ok (map (λ slot. some (blocks slot)) slots)
  unfolding join_all
  join_all_complete [] answers = refl
  join_all_complete (slot ∷ slots) answers = rw (answers slot, join_all_complete slots answers) refl

  backfill_complete :
      (hash : Bytes32) (slots : List ℕ)
      → IsChain hash (map payload_of slots)
      → backfill hash (map (λ slot. some (blocks slot)) slots) ≡ map payload_of slots
  unfolding backfill
  backfill_complete hash [] h = refl
  backfill_complete hash (slot ∷ slots) h =
      rw
        (
          h.0,
          bytes_eq_refl hash,
          backfill_complete (fields (payload_of slot)).parent_hash slots h.1,
        )
        refl

  -- When the server has a block for every slot, and the payloads of the slots from the start to
  -- before the end are a chain under the block of the end slot, `get_payloads` returns them all,
  -- newest first.
  pub get_payloads_complete :
      (start_slot end_slot : ℕ)
      → ((slot : ℕ) → rpc.get_block slot ≡ ok (blocks slot))
      → IsChain
          (fields (payload_of end_slot)).parent_hash
          (map payload_of (descending (end_slot - start_slot) start_slot))
      → get_payloads rpc start_slot end_slot
        ≡ ok (map payload_of (descending (end_slot - start_slot) start_slot))
  unfolding get_payloads
  get_payloads_complete start_slot end_slot answers h =
      rw
        (
          answers end_slot,
          join_all_complete (descending (end_slot - start_slot) start_slot) answers,
          backfill_complete (fields (payload_of end_slot)).parent_hash
              (descending (end_slot - start_slot) start_slot) h,
        )
        refl

module _ ⦃lib : Primitives⦄ (rpc : ConsensusRpc) (client : ConsensusClient) where
  -- The root of the optimistic or of the finalized header, whichever has the slot.
  abbrev pub IsStoreRoot : ℕ → Node → Type 0
  IsStoreRoot slot root =
      ((slot ≡ client.store.optimistic_header.slot)
        × (lib.header_root client.store.optimistic_header ≡ some root))
      ⊎ ((slot ≡ client.store.finalized_header.slot)
          × (lib.header_root client.store.finalized_header ≡ some root))

  verified_block_hash-IsStoreRoot :
      (slot : ℕ) {root : Node} → verified_block_hash client slot ≡ ok root → IsStoreRoot slot root
  unfolding verified_block_hash
  verified_block_hash-IsStoreRoot slot e = ground arith

  payload_parts :
      (slot : ℕ) (block : BeaconBlock) (block_hash root : Node) {payload : ExecutionPayload}
      → rpc.get_block slot ≡ ok block
      → lib.block_root block ≡ some block_hash
      → verified_block_hash client slot ≡ ok root
      → get_execution_payload rpc (some slot) client ≡ ok payload
      → (bytes_eq root block_hash ≡ true) × (payload ≡ execution_payload block.body)
  unfolding get_execution_payload
  payload_parts slot block block_hash root p q r e = ground arith

  payload_returns :
      (slot : ℕ) {payload : ExecutionPayload}
      → get_execution_payload rpc (some slot) client ≡ ok payload
      → (block : BeaconBlock) × (block_hash : Node) × (root : Node) × (rpc.get_block slot
          ≡ ok block)
        × (lib.block_root block ≡ some block_hash)
        × (verified_block_hash client slot ≡ ok root)
  unfolding get_execution_payload
  payload_returns slot e =
      let (block, p, e₁) = >>=-eq-ok (rpc.get_block slot) _ e in
      let (block_hash, q, e₂) = >>=-eq-ok (ok_or (lib.block_root block) other) _ e₁ in
      let (root, r, _) = >>=-eq-ok (verified_block_hash client slot) _ e₂ in
      (block, block_hash, root, p, ok_or-eq-ok _ _ q, r)

  -- A payload that is returned is that of the server's block at the slot, whose root is the root of
  -- a header of the store with that slot.
  pub get_execution_payload_sound :
      (slot : ℕ) {payload : ExecutionPayload}
      → get_execution_payload rpc (some slot) client ≡ ok payload
      → (block : BeaconBlock) × (root : Node) × (rpc.get_block slot ≡ ok block)
        × (payload ≡ execution_payload block.body)
        × (lib.block_root block ≡ some root)
        × IsStoreRoot slot root
  get_execution_payload_sound slot {payload} e = go (payload_returns slot e)
    where
      go :
          ((block : BeaconBlock) × (block_hash : Node) × (root : Node) × (rpc.get_block slot
              ≡ ok block)
            × (lib.block_root block ≡ some block_hash)
            × (verified_block_hash client slot ≡ ok root))
          → (block : BeaconBlock) × (root : Node) × (rpc.get_block slot ≡ ok block)
            × (payload ≡ execution_payload block.body)
            × (lib.block_root block ≡ some root)
            × IsStoreRoot slot root
      go (block, block_hash, root, p, q, r) =
          let (same, d) = payload_parts slot block block_hash root p q r e in
          (
            block,
            root,
            p,
            d,
            rw (bytes_eq→eq root block_hash same) q,
            verified_block_hash-IsStoreRoot slot r,
          )

-- A slot that is neither that of the optimistic nor that of the finalized header is refused as not
-- found, also when the server has a block there.
pub get_execution_payload_other_slot :
    ⦃lib : Primitives⦄ (rpc : ConsensusRpc) (client : ConsensusClient) (slot : ℕ)
    (block : BeaconBlock) (root : Node)
    → slot ≢ client.store.optimistic_header.slot
    → slot ≢ client.store.finalized_header.slot
    → rpc.get_block slot ≡ ok block
    → lib.block_root block ≡ some root
    → get_execution_payload rpc (some slot) client ≡ err (payload_not_found slot)
unfolding get_execution_payload
get_execution_payload_other_slot rpc client slot block root n m e f = ground arith
