-- ===== src/Tests/Consensus.antt =====
-- The theorems on the light client at the inputs of `Tests/Light.antt`.
use forcerelay_verifier.Prelude.{
  ◌≡◌, ◌⊎◌, ◌↔◌, refl, map, ◌-◌, true, false, some, [], ◌∷◌, arith, ok,
}
use forcerelay_verifier.Consensus.Types.{SyncCommittee, Bootstrap, from_update}
use forcerelay_verifier.Consensus.Blocks.{BeaconBlock, execution_payload, fields}
use forcerelay_verifier.Common.{Node, bytes32_to_node, slice_to}
use forcerelay_verifier.Prelude.{bytes_eq}
use forcerelay_verifier.Consensus.Utils.{
  is_current_committee_proof_valid, branch_to_nodes, get_bits, calc_sync_period,
}
use forcerelay_verifier.Consensus.State.{
  ConsensusClient, is_valid_checkpoint, expected_current_slot, safety_threshold, age,
}
use forcerelay_verifier.Consensus.Verify.{
  verify_generic_update, is_valid_time, is_valid_period, is_relevant, check_finality_proof,
  check_next_committee_proof, check_signature,
}
use forcerelay_verifier.Consensus.Verify.Spec.{IsAcceptable, verify_generic_update_iff}
use forcerelay_verifier.Consensus.Verify.Branches.{from_update-HasBranches}
use forcerelay_verifier.Consensus.Apply.{apply_generic_update}
use forcerelay_verifier.Consensus.Apply.Quorum.{
  IsFinalizedBy, IsAttestedBy, apply_generic_update-quorum,
}
use forcerelay_verifier.Consensus.Safety.{verified_update_applies}
use forcerelay_verifier.Consensus.Bootstrap.{check_bootstrap, initial_store}
use forcerelay_verifier.Consensus.Bootstrap.Spec.{PrintsHex, check_bootstrap_sound}
use forcerelay_verifier.Consensus.Sync.{sync, advance}
use forcerelay_verifier.Consensus.Sync.Progress.{advance_progresses}
use forcerelay_verifier.Prelude.{◌≤◌}
use forcerelay_verifier.Consensus.Types.{from_finality_update}
use forcerelay_verifier.Consensus.Apply.{has_majority}
use forcerelay_verifier.Consensus.Sync.Slots.{IsAhead, advance-IsAhead}
use forcerelay_verifier.Consensus.Payloads.{get_payloads, descending, get_execution_payload}
use forcerelay_verifier.Consensus.Payloads.Chain.{
  IsChain, IsStoreRoot, get_payloads-IsChain, get_payloads_complete, payload_of,
  get_execution_payload_sound,
}
use forcerelay_verifier.Consensus.Trust.{IsAuthentic, trusted_committee, trusted_header}
use forcerelay_verifier.Consensus.Trust.Invariant.{apply_generic_update-IsAuthentic}
use forcerelay_verifier.Consensus.Trust.Sync.{advance-IsAuthentic, sync-IsAuthentic}
use forcerelay_verifier.Tests.Light.{
  toy, header_at, config, client, update, now, verifies, updated, applies, root, block_at, rpc,
  fresh_client, newest_update, newest_verifies, newest_applies,
}

fresh_client-IsAuthentic : IsAuthentic config root fresh_client
unfolding initial_store
fresh_client-IsAuthentic = record {
  same_config = refl;
  current = trusted_committee refl;
  next = λ c e. cc;
  finalized = trusted_header;
  optimistic = trusted_header;
}

sync-IsAuthentic_example :
    ((sync rpc (λ i. now) client).1 ≡ client)
    ⊎ ((b : Bootstrap) × (rpc.get_bootstrap client.initial_checkpoint ≡ ok b)
        × (check_bootstrap now b client ≡ ok tt)
        × IsAuthentic client.config b (sync rpc (λ i. now) client).1)
sync-IsAuthentic_example = sync-IsAuthentic rpc (λ i. now) client

advance-IsAuthentic_example : IsAuthentic config root (advance rpc (λ i. now) fresh_client).1
advance-IsAuthentic_example =
    advance-IsAuthentic config root rpc (λ i. now) fresh_client fresh_client-IsAuthentic

-- `client` from a bootstrap at its own finalized header, but for the optimistic header
abbrev restarted : ConsensusClient
restarted = record client { store = record client.store { optimistic_header = header_at 64 } }

restarted-IsAuthentic : IsAuthentic config root restarted
restarted-IsAuthentic = record {
  same_config = refl;
  current = trusted_committee refl;
  next = λ c e. cc;
  finalized = trusted_header;
  optimistic = trusted_header;
}

verify_generic_update_iff_example :
    (verify_generic_update client now (from_update update) ≡ ok tt)
    ↔ ((c : SyncCommittee) × IsAcceptable client now (from_update update) c)
verify_generic_update_iff_example = verify_generic_update_iff client now (from_update update)

verified_update_applies_example :
    (d : ConsensusClient) × (apply_generic_update now now (from_update update) client ≡ ok d)
verified_update_applies_example =
    verified_update_applies client now now now now (from_update update) verifies (omega arith)
      (omega arith) (omega arith) (omega arith) (omega arith) (λ d h. refl)

apply_generic_update-quorum_example :
    ((header_at 96 ≡ header_at 64)
      ⊎ IsFinalizedBy (from_update update) (header_at 64) (header_at 96))
    × ((header_at 160 ≡ header_at 70)
        ⊎ IsAttestedBy (from_update update) client.store (header_at 160)
        ⊎ ((header_at 160 ≡ header_at 96)
            × IsFinalizedBy (from_update update) (header_at 64) (header_at 96)))
apply_generic_update-quorum_example =
    apply_generic_update-quorum (from_update update) now now client {d = updated} applies

advance-IsAhead_example : IsAhead client (advance rpc (λ i. now) client).1
advance-IsAhead_example = advance-IsAhead rpc (λ i. now) client (omega arith)

pub toy-PrintsHex : PrintsHex toy
toy-PrintsHex = record { node = λ n. refl; injective = λ a b e. e }

checks : check_bootstrap now root client ≡ ok tt
unfolding check_bootstrap is_valid_checkpoint is_current_committee_proof_valid bytes32_to_node
    branch_to_nodes bytes_eq
checks = refl

check_bootstrap_sound_example :
    (toy.header_root root.header ≡ some client.initial_checkpoint)
    × (is_current_committee_proof_valid root.header root.current_sync_committee
          root.current_sync_committee_branch
        ≡ ok true)
    × ((is_valid_checkpoint config 64 now ≡ ok true) ⊎ (◌≡◌ config.strict_checkpoint_age false))
check_bootstrap_sound_example = check_bootstrap_sound toy-PrintsHex now root client checks

backfilled :
    get_payloads rpc 66 70
    ≡ ok (
        execution_payload (block_at 69).body
        ∷ execution_payload (block_at 68).body
        ∷ execution_payload (block_at 67).body
        ∷ execution_payload (block_at 66).body
        ∷ [])
unfolding get_payloads bytes_eq
backfilled = refl

get_payloads-IsChain_example :
    (block : BeaconBlock) × (rpc.get_block 70 ≡ ok block)
    × IsChain (fields (execution_payload block.body)).parent_hash (
        execution_payload (block_at 69).body
        ∷ execution_payload (block_at 68).body
        ∷ execution_payload (block_at 67).body
        ∷ execution_payload (block_at 66).body
        ∷ [])
get_payloads-IsChain_example = get_payloads-IsChain rpc 66 70 backfilled

get_payloads_complete_example :
    get_payloads rpc 66 70 ≡ ok (map (payload_of rpc block_at) (descending (70 - 66) 66))
unfolding get_payloads descending
get_payloads_complete_example =
    get_payloads_complete rpc block_at 66 70 (λ slot. refl) (refl, (refl, (refl, (refl, tt))))

payload_64 : get_execution_payload rpc (some 64) client ≡ ok (execution_payload (block_at 64).body)
unfolding get_execution_payload bytes_eq
payload_64 = refl

get_execution_payload_sound_example :
    (block : BeaconBlock) × (r : Node) × (rpc.get_block 64 ≡ ok block)
    × (execution_payload (block_at 64).body ≡ execution_payload block.body)
    × (toy.block_root block ≡ some r)
    × IsStoreRoot rpc client 64 r
get_execution_payload_sound_example = get_execution_payload_sound rpc client 64 payload_64

restarted_verifies : verify_generic_update restarted now (from_update update) ≡ ok tt
unfolding verify_generic_update get_bits from_update expected_current_slot is_valid_time
    is_valid_period calc_sync_period is_relevant check_finality_proof bytes32_to_node
    branch_to_nodes check_next_committee_proof check_signature slice_to bytes_eq
restarted_verifies = refl

restarted_applies : apply_generic_update now now (from_update update) restarted ≡ ok updated
unfolding apply_generic_update get_bits from_update safety_threshold age calc_sync_period
restarted_applies = refl

apply_generic_update-IsAuthentic_example : IsAuthentic config root updated
apply_generic_update-IsAuthentic_example =
    apply_generic_update-IsAuthentic config root restarted now now now (from_update update)
      restarted-IsAuthentic (from_update-HasBranches update) restarted_verifies restarted_applies

advance_progresses_example : 128 ≤ (advance rpc (λ i. now) updated).1.store.finalized_header.slot
unfolding from_finality_update has_majority get_bits
advance_progresses_example =
    advance_progresses rpc (λ i. now) updated newest_update refl newest_verifies newest_applies refl
      (omega arith)
