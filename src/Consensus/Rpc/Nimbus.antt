-- ===== src/Consensus/Rpc/Nimbus.antt =====
-- consensus/src/rpc/nimbus_rpc.rs: the beacon API over HTTP. reqwest and serde are parameters: an
-- answer to a request, and what its JSON is read as. Either may fail, with an `RpcError` of the method,
-- and the reading of a field may panic.
use forcerelay_verifier.Prelude.{ℕ, Option, List, ◌++◌, map, min, ok, ok_or, map_err, ◌>>=◌}
use forcerelay_verifier.Common.{Bytes, Text}
use forcerelay_verifier.Common.Tags.{Deserialized}
use forcerelay_verifier.Common.Numbers.{codes, hex_prefix, to_text}
use forcerelay_verifier.Consensus.Blocks.{BeaconBlock}
use forcerelay_verifier.Consensus.Errors.{Result, other}
use forcerelay_verifier.Consensus.Rpc.{ConsensusRpc, max_request_light_client_updates}
use forcerelay_verifier.Consensus.Types.{Bootstrap, Update, FinalityUpdate, OptimisticUpdate}

-- The field of each of these is `data` in the source, which is a keyword.
pub record BootstrapResponse : Type 0 where
  pub bootstrap : Bootstrap

pub record UpdateData : Type 0 where
  pub update : Update

pub record FinalityUpdateResponse : Type 0 where
  pub update : FinalityUpdate

pub record OptimisticUpdateResponse : Type 0 where
  pub update : OptimisticUpdate

pub record BeaconBlockData : Type 0 where
  pub message : BeaconBlock

pub record BeaconBlockResponse : Type 0 where
  pub block : BeaconBlockData

pub record Spec : Type 0 where
  pub chain_id : ℕ

pub record SpecResponse : Type 0 where
  pub spec : Spec

pub record Http : Type 1 where
  pub Response : Type 0
  pub get : Text → Option Response
  pub hex_encode : Bytes → Text
  pub json_bootstrap : Response → Deserialized BootstrapResponse
  pub json_updates : Response → Deserialized (List UpdateData)
  pub json_finality_update : Response → Deserialized FinalityUpdateResponse
  pub json_optimistic_update : Response → Deserialized OptimisticUpdateResponse
  pub json_block : Response → Deserialized BeaconBlockResponse
  pub json_spec : Response → Deserialized SpecResponse

module _ (http : Http) (rpc : Text) where
  -- a request and the reading of its answer
  unfoldable pub fetch : {A : Type 0} → (http.Response → Deserialized A) → Text → Result A
  fetch json req = do res ← ok_or (http.get req) other; map_err (json res) (λ _. other)

  unfoldable pub get_bootstrap : Bytes → Result Bootstrap
  unfolding fetch
  get_bootstrap block_root = do
    res ← fetch http.json_bootstrap (
        rpc
        ++ codes "/eth/v1/beacon/light_client/bootstrap/"
        ++ hex_prefix
        ++ http.hex_encode block_root)
    ok res.bootstrap

  unfoldable pub get_updates : ℕ → ℕ → Result (List Update)
  unfolding fetch to_text
  get_updates period count = do
    let count' = min count max_request_light_client_updates
    res ← fetch http.json_updates (
        rpc
        ++ codes "/eth/v1/beacon/light_client/updates?start_period="
        ++ to_text 10 period
        ++ codes "&count="
        ++ to_text 10 count')
    ok (map (λ d. d.update) res)

  unfoldable pub get_finality_update : Result FinalityUpdate
  unfolding fetch
  get_finality_update = do
    res ←
        fetch http.json_finality_update (rpc ++ codes "/eth/v1/beacon/light_client/finality_update")
    ok res.update

  unfoldable pub get_optimistic_update : Result OptimisticUpdate
  unfolding fetch
  get_optimistic_update = do
    res ←
        fetch http.json_optimistic_update
          (rpc ++ codes "/eth/v1/beacon/light_client/optimistic_update")
    ok res.update

  unfoldable pub get_block : ℕ → Result BeaconBlock
  unfolding fetch to_text
  get_block slot = do
    res ← fetch http.json_block (rpc ++ codes "/eth/v2/beacon/blocks/" ++ to_text 10 slot)
    ok res.block.message

  unfoldable pub chain_id : Result ℕ
  unfolding fetch
  chain_id = do
    res ← fetch http.json_spec (rpc ++ codes "/eth/v1/config/spec")
    ok res.spec.chain_id

  -- `impl ConsensusRpc for NimbusRpc`, while the server answers each request alike
  abbrev pub nimbus_rpc : ConsensusRpc
  unfolding get_bootstrap get_updates get_finality_update get_optimistic_update get_block chain_id
  nimbus_rpc = record {
    get_bootstrap = get_bootstrap;
    get_updates = get_updates;
    get_finality_update = get_finality_update;
    get_optimistic_update = get_optimistic_update;
    get_block = get_block;
    chain_id = chain_id;
  }
