-- ===== src/Tests/Light.antt =====
-- A light client with stand-ins for the cryptography: a header hashes to its slot, a Merkle branch
-- is valid if it has the right depth, and a signature is the message that it signs.
use forcerelay_verifier.Prelude.{
  ℕ, ◌+◌, ◌-◌, ◌*◌, ◌≡◌, refl, true, false, none, some, [], ◌∷◌, ◌++◌, ok, replicate, bytes_eq,
  ◌==◌, length,
}
use forcerelay_verifier.Common.{Bytes, bytes32_to_node, slice_to}
use forcerelay_verifier.Config.Types.{Config, Fork}
use forcerelay_verifier.Consensus.Types.{
  Header, SyncCommittee, Bootstrap, Update, FinalityUpdate, from_update, from_finality_update,
  from_optimistic_update,
}
use forcerelay_verifier.Consensus.Primitives.{Primitives}
use forcerelay_verifier.Consensus.Bootstrap.{hex_prefix, initial_store, check_bootstrap}
use forcerelay_verifier.Consensus.Blocks.{BeaconBlock, BeaconBlockBody, ExecutionPayload}
use forcerelay_verifier.Consensus.Rpc.{ConsensusRpc}
use forcerelay_verifier.Consensus.Sync.{
  sync, boot, accept_updates, accept_update, accept_latest, accept_finality_update,
  accept_optimistic_update,
}
use forcerelay_verifier.Consensus.State.{ConsensusClient}
use forcerelay_verifier.Consensus.Utils.{
  get_bits, is_current_committee_proof_valid, calc_sync_period, branch_to_nodes,
}
use forcerelay_verifier.Consensus.State.{
  expected_current_slot, safety_threshold, age, is_valid_checkpoint,
}
use forcerelay_verifier.Consensus.Verify.{
  verify_generic_update, is_valid_time, is_valid_period, is_relevant, check_finality_proof,
  check_next_committee_proof, check_signature, verify_update, verify_finality_update,
  verify_optimistic_update,
}
use forcerelay_verifier.Consensus.Apply.{
  apply_generic_update, apply_update, apply_finality_update, apply_optimistic_update,
}

instance abbrev pub toy : Primitives
toy = record {
  header_root = λ h. some (h.slot ∷ replicate 31 0);
  committee_root = λ c. some (replicate 32 1);
  block_root = λ b. some (b.slot ∷ replicate 31 0);
  signing_data_root = λ d. some d.object_root;
  fork_data_root = λ d. some (replicate 32 2);
  is_valid_merkle_branch = λ leaf branch depth index root. length branch == depth;
  vector_from_iter = λ n bytes. some bytes;
  PublicKey = Bytes;
  from_bytes_unchecked = some;
  AggregateSignature = Bytes;
  signature_from_bytes = some;
  fast_aggregate_verify = λ signature message keys. bytes_eq signature message;
  hex_encode = λ bytes. bytes;
  node_to_string = λ node. hex_prefix ++ node;
  duration_from_std = some;
}

abbrev pub zeros : Bytes
zeros = replicate 32 0

abbrev pub header_at : ℕ → Header
header_at slot = record {
  slot = slot;
  proposer_index = 0;
  parent_root = zeros;
  state_root = zeros;
  body_root = zeros;
}

abbrev pub committee : SyncCommittee
committee = record { pubkeys = replicate 512 (1 ∷ []); aggregate_pubkey = 1 ∷ [] }

abbrev pub fork_at : ℕ → Fork
fork_at epoch = record { epoch = epoch; fork_version = epoch ∷ 0 ∷ 0 ∷ 0 ∷ [] }

abbrev pub config : Config
config = record {
  consensus_rpc = [];
  execution_rpc = [];
  rpc_bind_ip = none;
  rpc_port = none;
  default_checkpoint = zeros;
  checkpoint = none;
  data_dir = none;
  chain = record { chain_id = 5; genesis_time = 1000; genesis_root = zeros };
  forks = record {
    genesis = fork_at 0;
    altair = fork_at 1;
    bellatrix = fork_at 2;
    capella = fork_at 3;
  };
  max_checkpoint_age = 1_209_600;
  fallback = none;
  load_external_fallback = false;
  strict_checkpoint_age = true;
}

abbrev pub client : ConsensusClient
client = record {
  store = record {
    finalized_header = header_at 64;
    current_sync_committee = committee;
    next_sync_committee = none;
    optimistic_header = header_at 70;
    previous_max_active_participants = 0;
    current_max_active_participants = 400;
  };
  initial_checkpoint = 64 ∷ replicate 31 0;
  last_checkpoint = none;
  config = config;
}

-- signed by all members at slot 161
abbrev pub update : Update
update = record {
  attested_header = header_at 160;
  next_sync_committee = committee;
  next_sync_committee_branch = replicate 5 zeros;
  finalized_header = header_at 96;
  finality_branch = replicate 6 zeros;
  sync_aggregate = record {
    sync_committee_bits = replicate 512 true;
    sync_committee_signature = 160 ∷ replicate 31 0;
  };
  signature_slot = 161;
}

-- slot 200
abbrev pub now : ℕ
now = 1000 + 2400

pub verifies : verify_generic_update client now (from_update update) ≡ ok tt
unfolding verify_generic_update get_bits from_update expected_current_slot is_valid_time
    is_valid_period calc_sync_period is_relevant check_finality_proof bytes32_to_node
    branch_to_nodes check_next_committee_proof check_signature slice_to bytes_eq
verifies = refl

-- the client after the update
abbrev pub updated : ConsensusClient
updated = record client {
  store = record client.store {
    finalized_header = header_at 96;
    next_sync_committee = some committee;
    optimistic_header = header_at 160;
    current_max_active_participants = 512;
  };
  last_checkpoint = some (96 ∷ replicate 31 0);
}

pub applies : apply_generic_update now now (from_update update) client ≡ ok updated
unfolding apply_generic_update get_bits from_update safety_threshold age calc_sync_period
applies = refl

abbrev pub root : Bootstrap
root = record {
  header = header_at 64;
  current_sync_committee = committee;
  current_sync_committee_branch = replicate 5 zeros;
}

abbrev pub payload_at : ℕ → ExecutionPayload
payload_at slot = ExecutionPayload.bellatrix (record {
  parent_hash = (slot - 1) ∷ [];
  fee_recipient = [];
  state_root = zeros;
  receipts_root = zeros;
  logs_bloom = [];
  prev_randao = zeros;
  block_number = slot;
  gas_limit = 30_000_000;
  gas_used = 15_000_000;
  timestamp = slot * 12;
  extra_data = [];
  base_fee_per_gas = 7;
  block_hash = slot ∷ [];
  transactions = [];
})

abbrev pub block_with : ℕ → ExecutionPayload → BeaconBlock
block_with slot payload = record {
  slot = slot;
  proposer_index = 0;
  parent_root = zeros;
  state_root = zeros;
  body = BeaconBlockBody.bellatrix (record {
    randao_reveal = [];
    eth1_data = record { deposit_root = zeros; deposit_count = 0; block_hash = zeros };
    graffiti = zeros;
    proposer_slashings = [];
    attester_slashings = [];
    attestations = [];
    deposits = [];
    voluntary_exits = [];
    sync_aggregate = update.sync_aggregate;
    execution_payload = payload;
  });
}

abbrev pub block_at : ℕ → BeaconBlock
block_at slot = block_with slot (payload_at slot)

-- the finality update that the server gives
abbrev pub newest_update : FinalityUpdate
newest_update = record {
  attested_header = header_at 170;
  finalized_header = header_at 128;
  finality_branch = replicate 6 zeros;
  sync_aggregate = record {
    sync_committee_bits = replicate 512 true;
    sync_committee_signature = 170 ∷ replicate 31 0;
  };
  signature_slot = 171;
}

-- a server that gives one update, then the same as a finality and an optimistic update
abbrev pub rpc : ConsensusRpc
rpc = record {
  get_bootstrap = λ checkpoint. ok root;
  get_updates = λ period count. ok (update ∷ []);
  get_finality_update = ok newest_update;
  get_optimistic_update = ok (record {
    attested_header = header_at 180;
    sync_aggregate = record {
      sync_committee_bits = replicate 400 true ++ replicate 112 false;
      sync_committee_signature = 180 ∷ replicate 31 0;
    };
    signature_slot = 181;
  });
  get_block = λ slot. ok (block_at slot);
  chain_id = ok 5;
}

abbrev pub fresh_client : ConsensusClient
fresh_client = record client { store = initial_store root }

-- The whole of `sync` on these answers: three updates are taken.
synced :
    ((sync rpc (λ i. now) client).0 ≡ ok tt)
    × ((sync rpc (λ i. now) client).1.store.finalized_header.slot ≡ 128)
    × ((sync rpc (λ i. now) client).1.store.optimistic_header.slot ≡ 180)
unfolding sync boot check_bootstrap is_valid_checkpoint initial_store accept_updates accept_update
    accept_latest accept_finality_update accept_optimistic_update verify_update
    verify_finality_update verify_optimistic_update apply_update apply_finality_update
    apply_optimistic_update from_finality_update from_optimistic_update verify_generic_update
    get_bits from_update expected_current_slot is_valid_time is_valid_period calc_sync_period
    is_relevant check_finality_proof bytes32_to_node branch_to_nodes check_next_committee_proof
    check_signature slice_to bytes_eq apply_generic_update safety_threshold age
    is_current_committee_proof_valid
synced = (refl, refl, refl)

pub newest_verifies : verify_generic_update updated now (from_finality_update newest_update) ≡ ok tt
unfolding verify_generic_update get_bits from_finality_update expected_current_slot is_valid_time
    is_valid_period calc_sync_period is_relevant check_finality_proof bytes32_to_node
    branch_to_nodes check_next_committee_proof check_signature slice_to bytes_eq
newest_verifies = refl

abbrev pub finalized : ConsensusClient
finalized = record updated {
  store = record updated.store {
    finalized_header = header_at 128;
    optimistic_header = header_at 170;
  };
  last_checkpoint = some (128 ∷ replicate 31 0);
}

pub newest_applies :
    apply_generic_update now now (from_finality_update newest_update) updated ≡ ok finalized
unfolding apply_generic_update get_bits from_finality_update safety_threshold age calc_sync_period
newest_applies = refl
