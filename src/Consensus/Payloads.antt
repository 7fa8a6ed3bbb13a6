-- ===== src/Consensus/Payloads.antt =====
-- consensus/src/consensus.rs: `check_rpc`, `get_execution_payload` and `get_payloads`.
pub mod Chain
use forcerelay_verifier.Prelude.{
  ℕ, zero, suc, ◌+◌, ◌-◌, Bool, Option, none, some, List, [], ◌∷◌, map, ◌==◌, bytes_eq, not,
  unwrap_or, if◌then◌else◌, ok, err, panic, guard, ok_or, ◌>>=◌, ◌>>◌,
}
use forcerelay_verifier.Common.{Bytes32, Node}
use forcerelay_verifier.Consensus.Blocks.{BeaconBlock, ExecutionPayload, execution_payload, fields}
use forcerelay_verifier.Consensus.Errors.{
  Result, incorrect_rpc_network, payload_not_found, invalid_header_hash, other,
}
use forcerelay_verifier.Consensus.Primitives.{Primitives}
use forcerelay_verifier.Consensus.State.{ConsensusClient}
use forcerelay_verifier.Consensus.Rpc.{ConsensusRpc}

unfoldable pub check_rpc : ConsensusRpc → ConsensusClient → Result (Unit {0})
check_rpc rpc client = do
  chain_id ← rpc.chain_id
  guard (chain_id == client.config.chain.chain_id) incorrect_rpc_network

-- the root of the header that the store has for the slot
unfoldable pub verified_block_hash : ⦃lib : Primitives⦄ → ConsensusClient → ℕ → Result Node
verified_block_hash ⦃lib⦄ client slot =
    if slot == client.store.optimistic_header.slot
    then ok_or (lib.header_root client.store.optimistic_header) other
    else if slot == client.store.finalized_header.slot
    then ok_or (lib.header_root client.store.finalized_header) other
    else err (payload_not_found slot)

unfoldable pub get_execution_payload :
    ⦃lib : Primitives⦄ → ConsensusRpc → Option ℕ → ConsensusClient → Result ExecutionPayload
unfolding verified_block_hash
get_execution_payload ⦃lib⦄ rpc slot client = do
  let slot' = unwrap_or slot client.store.optimistic_header.slot
  block ← rpc.get_block slot'
  block_hash ← ok_or (lib.block_root block) other
  verified ← verified_block_hash client slot'
  guard (bytes_eq verified block_hash)
      (invalid_header_hash (lib.node_to_string block_hash) (lib.node_to_string verified))
  ok (execution_payload block.body)

-- `(start..start + n).rev()`
unfoldable pub descending : ℕ → ℕ → List ℕ
descending zero start = []
descending (suc n) start = (start + n) ∷ descending n start

-- `join_all`, which polls every call to its end: an error is `none`, and any panic is one of the whole
unfoldable pub join_all : {A : Type 0} → List (Result A) → Result (List (Option A))
join_all [] = ok []
join_all (ok a ∷ results) = do answers ← join_all results; ok (some a ∷ answers)
join_all (err e ∷ results) = do answers ← join_all results; ok (none ∷ answers)
join_all (panic ∷ results) = panic

-- the loop of `get_payloads` over the answers, newest first: an error is passed over, and a block
-- that is not the parent of the one before ends the loop
unfoldable pub backfill : Bytes32 → List (Option BeaconBlock) → List ExecutionPayload
backfill prev_parent_hash [] = []
backfill prev_parent_hash (none ∷ answers) = backfill prev_parent_hash answers
backfill prev_parent_hash (some block ∷ answers) =
    let payload = execution_payload block.body in
    let rest = backfill (fields payload).parent_hash answers in
    if bytes_eq (fields payload).block_hash prev_parent_hash then payload ∷ rest else []

unfoldable pub get_payloads : ConsensusRpc → ℕ → ℕ → Result (List ExecutionPayload)
unfolding descending join_all backfill
get_payloads rpc start_slot end_slot = do
  block ← rpc.get_block end_slot
  answers ← join_all (map rpc.get_block (descending (end_slot - start_slot) start_slot))
  ok (backfill (fields (execution_payload block.body)).parent_hash answers)
