-- ===== src/Tests/Node.antt =====
-- A node over the light client of `Tests/Light.antt` and the ledger of `Tests/Ledger.antt`, whose
-- payload stands in the block of the bootstrap.
use forcerelay_verifier.Prelude.{
  ℕ, ◌≡◌, refl, none, some, [], ◌∷◌, replicate, ok, err, bytes_eq, ◌+◌, ◌*◌, ◌==◌, if◌then◌else◌,
}
use forcerelay_verifier.Common.{finalized}
use forcerelay_verifier.Consensus.Primitives as ConsensusPrimitives
use forcerelay_verifier.Execution.Primitives as ExecutionPrimitives
use forcerelay_verifier.Consensus.Blocks.{ExecutionPayload}
use forcerelay_verifier.Consensus.Trust.{trusted_header, trusted_committee}
use forcerelay_verifier.Consensus.Bootstrap.{initial_store, check_bootstrap}
use forcerelay_verifier.Client.Node.{Node}
use forcerelay_verifier.Client.Node.Updates.{Servers}
use forcerelay_verifier.Client.Node.Verified.{IsSound}
use forcerelay_verifier.Common.{bytes32_to_node, slice_to, hex_str_to_bytes}
use forcerelay_verifier.Consensus.Types.{from_update, from_finality_update, from_optimistic_update}
use forcerelay_verifier.Consensus.Payloads.{
  get_execution_payload, get_payloads, verified_block_hash, descending, backfill,
}
use forcerelay_verifier.Consensus.Sync
use forcerelay_verifier.Consensus.Sync.{
  accept_updates, accept_update, accept_latest, accept_finality_update, accept_optimistic_update,
  find_next_committee, try_committee_update,
}
use forcerelay_verifier.Consensus.Utils.{
  is_current_committee_proof_valid, get_bits, calc_sync_period, branch_to_nodes,
}
use forcerelay_verifier.Consensus.State.{
  is_valid_checkpoint, expected_current_slot, safety_threshold, age,
}
use forcerelay_verifier.Consensus.Verify.{
  verify_generic_update, is_valid_time, is_valid_period, is_relevant, check_finality_proof,
  check_next_committee_proof, check_signature, verify_update, verify_finality_update,
  verify_optimistic_update,
}
use forcerelay_verifier.Consensus.Apply.{
  apply_generic_update, apply_update, apply_finality_update, apply_optimistic_update,
}
use forcerelay_verifier.Client.Node.{
  latest_payload, finalized_payload, backfill_payloads, store_payloads,
}
use forcerelay_verifier.Client.Node.Updates.{advance, sync, update_payloads}
use forcerelay_verifier.Execution.Rpc.{ExecutionRpc}
use forcerelay_verifier.Execution.Client as ExecutionClient
use forcerelay_verifier.Consensus.Payloads
use forcerelay_verifier.Execution.Client.{get_account}
use forcerelay_verifier.Execution.Proof.{
  verify_proof, verify_node, get_nibble, encode_account, skip_length,
}
use forcerelay_verifier.Client.Errors.{node_error, out_of_sync}
use forcerelay_verifier.Client.Node.Queries.{
  get_balance, get_storage_at, check_head_age, check_blocktag_age, get_payload, get_block_number,
  syncing, is_false,
}
use forcerelay_verifier.Tests.Light
use forcerelay_verifier.Tests.Ledger

instance abbrev pub light : ConsensusPrimitives.Primitives
light = Light.toy

instance abbrev pub ledger : ExecutionPrimitives.Primitives
ledger = Ledger.toy

abbrev pub node : Node
node = record {
  consensus = Light.fresh_client;
  config = Light.config;
  payloads = (7, Ledger.payload) ∷ [];
  finalized_payloads = (7, Ledger.payload) ∷ [];
  current_slot = none;
  history_size = 64;
}

pub node-IsSound : IsSound Light.config Light.root node
unfolding initial_store
node-IsSound = (
  record {
    same_config = refl;
    current = trusted_committee refl;
    next = λ c e. cc;
    finalized = trusted_header;
    optimistic = trusted_header;
  },
  (
    record {
      header = Light.header_at 64;
      block = Light.block_with 64 Ledger.payload;
      block_root = 64 ∷ replicate 31 0;
      trusted = trusted_header;
      header_root = refl;
      same_root = refl;
      in_block = refl;
    },
    tt,
  ),
)

-- the same answers to every call
abbrev pub servers : Servers
servers i = Light.rpc

pub advances : (advance servers (λ i. Light.now) node).0 ≡ ok tt
unfolding advance update_payloads latest_payload finalized_payload backfill_payloads
    get_execution_payload get_payloads verified_block_hash descending backfill Sync.advance
    accept_latest accept_finality_update accept_optimistic_update verify_finality_update
    verify_optimistic_update apply_finality_update apply_optimistic_update from_finality_update
    from_optimistic_update verify_generic_update get_bits expected_current_slot is_valid_time
    is_valid_period calc_sync_period is_relevant check_finality_proof bytes32_to_node
    branch_to_nodes check_next_committee_proof check_signature slice_to bytes_eq
    apply_generic_update safety_threshold age initial_store find_next_committee try_committee_update
    verify_update apply_update from_update
advances = refl

abbrev pub new_node : Node
new_node = record node { consensus = Light.client; payloads = []; finalized_payloads = [] }

abbrev pub goerli_rpc : ExecutionRpc
goerli_rpc = record Ledger.rpc { chain_id = ok 5 }

pub syncs : (sync servers goerli_rpc (λ i. Light.now) new_node).0 ≡ ok tt
unfolding sync update_payloads latest_payload finalized_payload backfill_payloads
    get_execution_payload get_payloads verified_block_hash descending backfill Sync.sync
    accept_latest accept_finality_update accept_optimistic_update verify_finality_update
    verify_optimistic_update apply_finality_update apply_optimistic_update from_finality_update
    from_optimistic_update verify_generic_update get_bits expected_current_slot is_valid_time
    is_valid_period calc_sync_period is_relevant check_finality_proof bytes32_to_node
    branch_to_nodes check_next_committee_proof check_signature slice_to bytes_eq
    apply_generic_update safety_threshold age initial_store find_next_committee try_committee_update
    verify_update apply_update from_update Sync.boot check_bootstrap is_valid_checkpoint
    accept_updates accept_update ExecutionClient.check_rpc Payloads.check_rpc
    is_current_committee_proof_valid store_payloads
syncs = refl

-- The balance and a slot of the ledger's account at the finalized block, within the ten slots.
abbrev pub soon : ℕ
soon = 1000 + 12 * 66

pub balance : get_balance Ledger.rpc soon node Ledger.address finalized ≡ ok 100
unfolding get_balance check_blocktag_age get_payload get_account verify_proof verify_node get_nibble
    encode_account hex_str_to_bytes bytes_eq skip_length
balance = refl

pub storage : get_storage_at Ledger.rpc soon node Ledger.address Ledger.slot finalized ≡ ok 5
unfolding get_storage_at check_head_age expected_current_slot get_payload get_account verify_proof
    verify_node get_nibble encode_account hex_str_to_bytes bytes_eq skip_length initial_store
storage = refl

-- Far from the head, `syncing` fails with the first reading of the clock for both.
pub in_sync : syncing soon soon soon node ≡ ok is_false
unfolding syncing check_head_age expected_current_slot initial_store
in_sync = refl

out_of_sync_fails : syncing 5000 5000 5000 node ≡ err (node_error (out_of_sync 269))
unfolding syncing check_head_age expected_current_slot initial_store get_block_number get_payload
out_of_sync_fails = refl

-- a server that puts a payload with the number 9000 under the block of the bootstrap
abbrev pub forged : ExecutionPayload
forged = Ledger.numbered 9000 (63 ∷ [])

abbrev pub forging_servers : Servers
forging_servers i =
    if i == 3
    then record Light.rpc {
      get_block =
          λ slot. ok (if slot == 63 then Light.block_with 63 forged else Light.block_at slot);
    }
    else Light.rpc

abbrev pub short_node : Node
short_node = record node { current_slot = some 63 }

pub verifies_latest : latest_payload (forging_servers 1) short_node ≡ ok (Light.payload_at 64)
unfolding latest_payload get_execution_payload verified_block_hash initial_store bytes_eq
verifies_latest = refl

pub verifies_finalized : finalized_payload (forging_servers 2) short_node ≡ ok (Light.payload_at 64)
unfolding finalized_payload get_execution_payload verified_block_hash initial_store bytes_eq
verifies_finalized = refl

pub backfills :
    backfill_payloads
      (forging_servers 3)
      (store_payloads (Light.payload_at 64) (Light.payload_at 64) short_node)
    ≡ ok (forged ∷ [])
unfolding backfill_payloads store_payloads get_payloads backfill descending initial_store bytes_eq
backfills = refl
