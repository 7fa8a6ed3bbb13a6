-- ===== src/Client/Node.antt =====
-- client/src/node.rs: the node, which keeps the payloads of the blocks that the consensus client has
-- verified. The RPC of the execution client is an argument of the calls that use it.
pub mod Updates
pub mod Queries
pub mod Window
pub mod Verified
pub mod Synced
pub mod Failed
pub mod Answers
pub mod Backfill
pub mod Refines
use forcerelay_verifier.Prelude.{
  ℕ, ◌/◌, Option, none, some, List, [], ◌∷◌, BTreeMap, insert, pop_until, unwrap_or, max, sub64,
  Outcome, ok, map_err, unwrap, ◌>>=◌,
}
use forcerelay_verifier.Config.Types.{Config}
use forcerelay_verifier.Consensus.Primitives.{Primitives}
use forcerelay_verifier.Consensus.Blocks.{ExecutionPayload, fields}
use forcerelay_verifier.Consensus.State.{ConsensusClient, new_client}
use forcerelay_verifier.Consensus.Rpc.{ConsensusRpc}
use forcerelay_verifier.Consensus.Payloads.{get_execution_payload, get_payloads}
use forcerelay_verifier.Execution.Errors.{ExecutionError}
use forcerelay_verifier.Client.Errors.{
  NodeResult, consensus_payload_error, execution_client_creation_error,
}

pub record Node : Type 0 where
  pub consensus : ConsensusClient
  pub config : Config
  pub payloads : BTreeMap ExecutionPayload
  pub finalized_payloads : BTreeMap ExecutionPayload
  pub current_slot : Option ℕ
  pub history_size : ℕ

-- `Node::new`, where `created` is how `ExecutionClient::new` ends. The checkpoint must be set.
unfoldable pub new_node : Config → Outcome ExecutionError (Unit {0}) → NodeResult Node
unfolding new_client
new_node config created = do
  checkpoint_hash ← unwrap config.checkpoint
  _ ← map_err created execution_client_creation_error
  ok (record {
    consensus = new_client checkpoint_hash config;
    config = config;
    payloads = [];
    finalized_payloads = [];
    current_slot = none;
    history_size = 64;
  })

unfoldable pub latest_payload :
    ⦃lib : Primitives⦄ → ConsensusRpc → Node → NodeResult ExecutionPayload
latest_payload rpc node =
    map_err
      (get_execution_payload rpc (some node.consensus.store.optimistic_header.slot) node.consensus)
      consensus_payload_error

unfoldable pub finalized_payload :
    ⦃lib : Primitives⦄ → ConsensusRpc → Node → NodeResult ExecutionPayload
finalized_payload rpc node =
    map_err
      (get_execution_payload rpc (some node.consensus.store.finalized_header.slot) node.consensus)
      consensus_payload_error

-- the payloads of the slots since the last update, or of as many as the history holds
unfoldable pub backfill_payloads : ConsensusRpc → Node → NodeResult (List ExecutionPayload)
backfill_payloads rpc node =
    let latest_slot = node.consensus.store.optimistic_header.slot in
    let start_slot = unwrap_or node.current_slot (sub64 latest_slot node.history_size) in
    map_err (get_payloads rpc start_slot latest_slot) consensus_payload_error

abbrev pub insert_payload : ExecutionPayload → BTreeMap ExecutionPayload → BTreeMap ExecutionPayload
insert_payload payload payloads = insert (fields payload).block_number payload payloads

-- the three insertions of `update_payloads` before it asks for the older payloads
unfoldable pub store_payloads : ExecutionPayload → ExecutionPayload → Node → Node
store_payloads latest finalized node = record node {
  payloads = insert_payload finalized (insert_payload latest node.payloads);
  finalized_payloads = insert_payload finalized node.finalized_payloads;
}

-- `for payload in backfill_payloads { … }`
unfoldable pub insert_all :
    List ExecutionPayload → BTreeMap ExecutionPayload → BTreeMap ExecutionPayload
insert_all [] payloads = payloads
insert_all (p ∷ ps) payloads = insert_all ps (insert_payload p payloads)

-- what `update_payloads` does with the older payloads
unfoldable pub store_backfill : List ExecutionPayload → Node → Node
unfolding insert_all
store_backfill backfill node = record node {
  payloads = pop_until node.history_size (insert_all backfill node.payloads);
  finalized_payloads = pop_until (max (node.history_size / 32) 1) node.finalized_payloads;
  current_slot = some node.consensus.store.optimistic_header.slot;
}
