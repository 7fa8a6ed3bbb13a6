-- ===== src/Tests/Stale.antt =====
-- A client with both kinds of fallbacks: what the first one left in the node stays there.
use forcerelay_verifier.Prelude.{
  ◌≡◌, refl, true, some, none, [], ◌∷◌, ok, err, bytes_eq, pop_until, map, if◌then◌else◌, ◌==◌,
}
use forcerelay_verifier.Common.{bytes32_to_node, slice_to}
use forcerelay_verifier.Config.Checkpoints.{
  new_fallback, build_fallback, fetch_checkpoint_from_api, fetch_latest_checkpoint, find_rooted,
  increment,
}
use forcerelay_verifier.Consensus.Errors.{other}
use forcerelay_verifier.Consensus.Bootstrap.{initial_store, check_bootstrap}
use forcerelay_verifier.Consensus.Types.{from_update, from_finality_update, from_optimistic_update}
use forcerelay_verifier.Consensus.Payloads
use forcerelay_verifier.Consensus.Payloads.{
  get_execution_payload, get_payloads, verified_block_hash, descending, backfill,
}
use forcerelay_verifier.Consensus.Sync
use forcerelay_verifier.Consensus.Sync.{
  accept_updates, accept_update, accept_latest, accept_finality_update, accept_optimistic_update,
  find_next_committee, try_committee_update,
}
use forcerelay_verifier.Consensus.Utils.{
  is_current_committee_proof_valid, get_bits, calc_sync_period, branch_to_nodes,
}
use forcerelay_verifier.Consensus.State.{
  new_client, is_valid_checkpoint, expected_current_slot, safety_threshold, age,
}
use forcerelay_verifier.Consensus.Verify.{
  verify_generic_update, is_valid_time, is_valid_period, is_relevant, check_finality_proof,
  check_next_committee_proof, check_signature, verify_update, verify_finality_update,
  verify_optimistic_update,
}
use forcerelay_verifier.Consensus.Apply.{
  apply_generic_update, apply_update, apply_finality_update, apply_optimistic_update,
}
use forcerelay_verifier.Execution.Client as ExecutionClient
use forcerelay_verifier.Client.Node.{
  latest_payload, finalized_payload, backfill_payloads, store_payloads, store_backfill,
}
use forcerelay_verifier.Client.Node.Updates.{Servers, sync, update_payloads}
use forcerelay_verifier.Client.Start.{Client, World, start}
use forcerelay_verifier.Client.Start.Create.{config_database}
use forcerelay_verifier.Tests.Light
use forcerelay_verifier.Tests.Ledger
use forcerelay_verifier.Tests.Node.{light, ledger}
use forcerelay_verifier.Tests.Launch
use forcerelay_verifier.Tests.Launch.{checkpoint}

-- the fallback's servers give the ledger's payload, and then fail at the older payloads
abbrev failing : Servers
failing i =
    if i == 3
    then record Light.rpc { get_block = λ slot. err other }
    else record Light.rpc { get_block = λ slot. ok (Light.block_with slot Ledger.payload) }

abbrev world : World
world = record {
  listens = true;
  first_attempt = record Launch.first { clock = λ i. 400_000_000 };
  fallback_attempt = record Launch.first { servers = failing };
  external_attempt = record Launch.first { servers = λ i. Light.rpc };
  query = λ url. some (record {
    response_data = record {
      slots =
          record {
            slot = 64;
            block_root = some checkpoint;
            state_root = none;
            epoch = 2;
            time = record { start_time = []; end_time = [] };
          }
          ∷ [];
    };
  });
  iterate = λ m. m;
  service_list = some (λ network. some (
      some (
        record { endpoint = []; name = []; state = true; verification = true; health = [] } ∷ [])));
}

abbrev client : Client config_database
client = record Launch.client { fallback = some (1 ∷ []); load_external_fallback = true }

-- `start` returns, and the ledger's payload, with the number 7, is among the finalized ones, although
-- no server of the attempt that succeeded gave it.
keeps_stale_payload :
    ((start world client).0 ≡ ok tt)
    × (map (λ e. e.0) (start world client).1.node.finalized_payloads ≡ 7 ∷ 128 ∷ [])
unfolding start sync update_payloads latest_payload finalized_payload backfill_payloads
    get_execution_payload get_payloads verified_block_hash descending backfill Sync.sync
    accept_latest accept_finality_update accept_optimistic_update verify_finality_update
    verify_optimistic_update apply_finality_update apply_optimistic_update from_finality_update
    from_optimistic_update verify_generic_update get_bits expected_current_slot is_valid_time
    is_valid_period calc_sync_period is_relevant check_finality_proof bytes32_to_node
    branch_to_nodes check_next_committee_proof check_signature slice_to bytes_eq
    apply_generic_update safety_threshold age initial_store find_next_committee try_committee_update
    verify_update apply_update from_update Sync.boot check_bootstrap is_valid_checkpoint
    accept_updates accept_update ExecutionClient.check_rpc Payloads.check_rpc
    is_current_committee_proof_valid store_payloads new_client build_fallback new_fallback
    fetch_checkpoint_from_api fetch_latest_checkpoint find_rooted increment store_backfill pop_until
keeps_stale_payload = (refl, refl)
