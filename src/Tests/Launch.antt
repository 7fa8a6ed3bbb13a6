-- ===== src/Tests/Launch.antt =====
-- A client from its creation to an answer, over `Tests/Node.antt`.
use forcerelay_verifier.Prelude.{
  ◌≡◌, refl, replicate, true, false, some, none, [], ◌∷◌, ok, bytes_eq, inl, pop_until,
}
use forcerelay_verifier.Common.{Bytes, finalized, bytes32_to_node, slice_to, hex_str_to_bytes}
use forcerelay_verifier.Common.Numbers.{codes, to_text}
use forcerelay_verifier.Config.Types.{Config}
use forcerelay_verifier.Consensus.Bootstrap.{initial_store, check_bootstrap}
use forcerelay_verifier.Consensus.Types.{from_update, from_finality_update, from_optimistic_update}
use forcerelay_verifier.Consensus.Payloads
use forcerelay_verifier.Consensus.Payloads.{
  get_execution_payload, get_payloads, verified_block_hash, descending, backfill,
}
use forcerelay_verifier.Consensus.Sync
use forcerelay_verifier.Consensus.Sync.{
  accept_updates, accept_update, accept_latest, accept_finality_update, accept_optimistic_update,
  find_next_committee, try_committee_update,
}
use forcerelay_verifier.Consensus.Utils.{
  is_current_committee_proof_valid, get_bits, calc_sync_period, branch_to_nodes,
}
use forcerelay_verifier.Consensus.State.{
  new_client, is_valid_checkpoint, expected_current_slot, safety_threshold, age,
}
use forcerelay_verifier.Consensus.Verify.{
  verify_generic_update, is_valid_time, is_valid_period, is_relevant, check_finality_proof,
  check_next_committee_proof, check_signature, verify_update, verify_finality_update,
  verify_optimistic_update,
}
use forcerelay_verifier.Consensus.Apply.{
  apply_generic_update, apply_update, apply_finality_update, apply_optimistic_update,
}
use forcerelay_verifier.Execution.Client as ExecutionClient
use forcerelay_verifier.Execution.Client.{get_account}
use forcerelay_verifier.Execution.Proof.{
  verify_proof, verify_node, get_nibble, encode_account, skip_length,
}
use forcerelay_verifier.Execution.Types.{Account}
use forcerelay_verifier.Client.Database.{config_db}
use forcerelay_verifier.Client.Node.{
  new_node, latest_payload, finalized_payload, backfill_payloads, store_payloads,
}
use forcerelay_verifier.Client.Node.Answers.{IsTrustedAccount}
use forcerelay_verifier.Client.Node.Queries
use forcerelay_verifier.Client.Node.Queries.{get_payload, check_blocktag_age}
use forcerelay_verifier.Client.Node.Updates.{Servers, sync, update_payloads}
use forcerelay_verifier.Client.Rpc.{format_hex, get_balance}
use forcerelay_verifier.Client.Start.{Client, Attempt, World, start, shutdown}
use forcerelay_verifier.Client.Start.Attempts.{IsBooted}
use forcerelay_verifier.Client.Start.Booted.{start-IsBooted}
use forcerelay_verifier.Client.Start.Create.{config_database, start_checkpoint, create_client}
use forcerelay_verifier.Client.Start.Sources.{IsSource}
use forcerelay_verifier.Client.Thread.{Running, Reach, here, next, stop}
use forcerelay_verifier.Client.Thread.Sound.{Reach-IsSound}
use forcerelay_verifier.Client.Thread.Started.{launched, launched_balance_sound}
use forcerelay_verifier.Tests.Consensus.{toy-PrintsHex}
use forcerelay_verifier.Tests.Light
use forcerelay_verifier.Tests.Ledger
use forcerelay_verifier.Tests.Node.{goerli_rpc, light, ledger}
use forcerelay_verifier.Tests.Server.{formats}

abbrev pub checkpoint : Bytes
checkpoint = 64 ∷ replicate 31 0

abbrev pub config : Config
config = record Light.config { checkpoint = some checkpoint }

-- every block holds the ledger's payload
abbrev servers : Servers
servers i = record Light.rpc { get_block = λ slot. ok (Light.block_with slot Ledger.payload) }

abbrev pub first : Attempt
first = record { servers = servers; execution_rpc = goerli_rpc; clock = λ i. Light.now }

abbrev world : World
world = record {
  listens = true;
  first_attempt = first;
  fallback_attempt = first;
  external_attempt = first;
  query = λ url. none;
  iterate = λ m. m;
  service_list = none;
}

abbrev pub client : Client config_database
client = record {
  node = record {
    consensus = new_client checkpoint config;
    config = config;
    payloads = [];
    finalized_payloads = [];
    current_slot = none;
    history_size = 64;
  };
  rpc = none;
  db = record { checkpoint = checkpoint };
  fallback = none;
  load_external_fallback = false;
  disk = some tt;
}

starts : (start world client).0 ≡ ok tt
unfolding start sync update_payloads latest_payload finalized_payload backfill_payloads
    get_execution_payload get_payloads verified_block_hash descending backfill Sync.sync
    accept_latest accept_finality_update accept_optimistic_update verify_finality_update
    verify_optimistic_update apply_finality_update apply_optimistic_update from_finality_update
    from_optimistic_update verify_generic_update get_bits expected_current_slot is_valid_time
    is_valid_period calc_sync_period is_relevant check_finality_proof bytes32_to_node
    branch_to_nodes check_next_committee_proof check_signature slice_to bytes_eq
    apply_generic_update safety_threshold age initial_store find_next_committee try_committee_update
    verify_update apply_update from_update Sync.boot check_bootstrap is_valid_checkpoint
    accept_updates accept_update ExecutionClient.check_rpc Payloads.check_rpc
    is_current_committee_proof_valid store_payloads new_client
starts = refl

made : create_client config_database config (ok tt) tt ≡ ok client
unfolding create_client start_checkpoint new_node config_db
made = refl

-- the client once it is started, and once it is shut down
abbrev stopped : Running config_database
stopped = record (launched (start world client).1) { client = shutdown (start world client).1 }

answers :
    get_balance formats Ledger.rpc 1792 stopped.client.node Ledger.address finalized
    ≡ ok (codes "0x64")
unfolding get_balance Queries.get_balance check_blocktag_age get_payload get_account verify_proof
    verify_node get_nibble encode_account hex_str_to_bytes skip_length shutdown to_text start sync
    update_payloads latest_payload finalized_payload backfill_payloads get_execution_payload
    get_payloads verified_block_hash descending backfill Sync.sync accept_latest
    accept_finality_update accept_optimistic_update verify_finality_update verify_optimistic_update
    apply_finality_update apply_optimistic_update from_finality_update from_optimistic_update
    verify_generic_update get_bits expected_current_slot is_valid_time is_valid_period
    calc_sync_period is_relevant check_finality_proof bytes32_to_node branch_to_nodes
    check_next_committee_proof check_signature slice_to bytes_eq apply_generic_update
    safety_threshold age initial_store find_next_committee try_committee_update verify_update
    apply_update from_update Sync.boot check_bootstrap is_valid_checkpoint accept_updates
    accept_update ExecutionClient.check_rpc Payloads.check_rpc is_current_committee_proof_valid
    store_payloads new_client pop_until
answers = refl

abbrev run : Reach (launched (start world client).1) stopped
run = next here (stop (launched (start world client).1))

launched_balance_sound_example :
    (booted : IsBooted config (start world client).1.node) × IsSource world client
      (start world client).1.node.consensus.initial_checkpoint
    × (light.header_root booted.root.header
        ≡ some (start world client).1.node.consensus.initial_checkpoint)
    × (address : Bytes) × (some Ledger.address ≡ some address)
    × (account : Account) × IsTrustedAccount config booted.root Ledger.rpc 1792 stopped.client.node
        (Reach-IsSound config booted.root run booted.sound)
        refl
        address
        account
    × (format_hex formats account.balance ≡ ok (codes "0x64"))
launched_balance_sound_example =
    launched_balance_sound config (ok tt) tt world made (inl refl)
      (λ i. (starts i, (start world client).1)) toy-PrintsHex formats Ledger.rpc 1792 run refl
      Ledger.address answers

configured : client.node.consensus.config ≡ config
unfolding new_client
configured = refl

start-IsBooted_example :
    IsBooted config (start world client).1.node
    × IsSource world client (start world client).1.node.consensus.initial_checkpoint
start-IsBooted_example =
    start-IsBooted world client (inl refl) refl configured (λ i. (starts i, (start world client).1))
