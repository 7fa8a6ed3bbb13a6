-- ===== src/Tests/Server.antt =====
-- The theorems on the JSON-RPC server and on the thread of the client, over `Tests/Node.antt`.
use forcerelay_verifier.Prelude.{
  ℕ, ◌≡◌, refl, replicate, true, false, some, none, [], ◌++◌, ok, err, bytes_eq, arith,
}
use forcerelay_verifier.Common.{latest, finalized, number, hex_str_to_bytes}
use forcerelay_verifier.Common.Numbers.{codes, hex_prefix, to_text, u64_to_hex_string}
use forcerelay_verifier.Common.Tags.{deserialize}
use forcerelay_verifier.Consensus.Errors.{other}
use forcerelay_verifier.Consensus.Rpc.{ConsensusRpc}
use forcerelay_verifier.Consensus.Bootstrap.{initial_store, check_bootstrap}
use forcerelay_verifier.Consensus.State.{expected_current_slot}
use forcerelay_verifier.Consensus.Sync
use forcerelay_verifier.Consensus.Sync.{accept_latest}
use forcerelay_verifier.Execution.Client.{get_account}
use forcerelay_verifier.Execution.Proof.{
  verify_proof, verify_node, get_nibble, encode_account, skip_length,
}
use forcerelay_verifier.Client.Database.{config_db}
use forcerelay_verifier.Client.Node.Queries
use forcerelay_verifier.Client.Node.Queries.{get_payload, check_blocktag_age, check_head_age}
use forcerelay_verifier.Client.Node.Updates.{advance, sync}
use forcerelay_verifier.Client.Node.Verified.{IsSound}
use forcerelay_verifier.Client.Node.Synced.{sync-IsSound}
use forcerelay_verifier.Consensus.Types.{Bootstrap}
use forcerelay_verifier.Client.Rpc.{block_number, get_balance}
use forcerelay_verifier.Client.Rpc.Answers.{block_number-get_payload}
use forcerelay_verifier.Client.Rpc.Errors.{Formats}
use forcerelay_verifier.Client.Start.{shutdown}
use forcerelay_verifier.Client.Start.Create.{config_database}
use forcerelay_verifier.Client.Thread.{
  Running, Reach, here, next, round, stop, advance_round, after_round,
}
use forcerelay_verifier.Tests.Light
use forcerelay_verifier.Tests.Ledger
use forcerelay_verifier.Tests.Node.{new_node, goerli_rpc, syncs, servers, light, ledger, node, soon}

-- a byte is its own digit, a quantity has three zeros in front
abbrev pub formats : Formats
formats = record {
  hex_encode = λ bytes. bytes;
  hex_decode = some;
  encode_hex = λ n. hex_prefix ++ (replicate 3 b'0' ++ to_text 16 n);
  address_from_str = some;
  string_decode = some;
  address_error = λ s. s;
  hex_error = λ s. s;
  query_error = λ e. [];
  node_error = λ e. [];
  evm_error = λ e. [];
}

answers_number : block_number formats soon node ≡ ok (codes "0x7")
unfolding block_number Queries.get_block_number check_head_age get_payload u64_to_hex_string
    expected_current_slot initial_store to_text
answers_number = refl

block_number-get_payload_example :
    (num : ℕ) × (deserialize (ok (codes "0x7")) ≡ ok (number num))
    × (get_payload (number num) node ≡ get_payload latest node)
block_number-get_payload_example =
    block_number-get_payload formats soon node ((tt, tt), (refl, tt)) (omega arith, tt)
      answers_number

-- a server that answers no update
abbrev down : ConsensusRpc
down = record Light.rpc { get_finality_update = err other }

abbrev running : Running config_database
running = record {
  client = record {
    node = node;
    rpc = none;
    db = config_db Light.config;
    fallback = none;
    load_external_fallback = false;
    disk = some tt;
  };
  alive = true;
}

-- a round that fails and is survived, and a shutdown
abbrev after_failure : Running config_database
after_failure = after_round (advance_round (λ i. down) (λ i. Light.now) 0 0 node) running.client

abbrev stopped : Running config_database
stopped = record after_failure { client = shutdown after_failure.client }

abbrev run : Reach running stopped
run = next (next here (round (λ i. down) (λ i. Light.now) 0 0 running refl)) (stop after_failure)

answers_balance :
    get_balance formats Ledger.rpc soon stopped.client.node Ledger.address finalized
    ≡ ok (codes "0x64")
unfolding get_balance Queries.get_balance check_blocktag_age get_payload get_account verify_proof
    verify_node get_nibble encode_account hex_str_to_bytes bytes_eq skip_length advance_round
    advance Sync.advance accept_latest shutdown to_text
answers_balance = refl

sync-IsSound_example :
    (b : Bootstrap) × (Light.rpc.get_bootstrap Light.client.initial_checkpoint ≡ ok b)
    × (check_bootstrap Light.now b Light.client ≡ ok tt)
    × IsSound Light.config b (sync servers goerli_rpc (λ i. Light.now) new_node).1
sync-IsSound_example =
    sync-IsSound servers goerli_rpc (λ i. Light.now) new_node refl
      (λ i. (syncs i, (sync servers goerli_rpc (λ j. Light.now) new_node).1))
