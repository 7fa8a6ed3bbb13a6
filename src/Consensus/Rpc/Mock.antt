-- ===== src/Consensus/Rpc/Mock.antt =====
-- consensus/src/rpc/mock_rpc.rs: answers that are read from files of test data. The file system and
-- serde_json are parameters; the reading of a field may panic.
use forcerelay_verifier.Prelude.{Option, List, err, ok_or, map_err, ◌>>=◌}
use forcerelay_verifier.Common.{Text}
use forcerelay_verifier.Common.Tags.{Deserialized}
use forcerelay_verifier.Common.Numbers.{codes}
use forcerelay_verifier.Consensus.Blocks.{BeaconBlock}
use forcerelay_verifier.Consensus.Errors.{Result, other}
use forcerelay_verifier.Consensus.Rpc.{ConsensusRpc}
use forcerelay_verifier.Consensus.Types.{Bootstrap, Update, FinalityUpdate, OptimisticUpdate}

pub record TestData : Type 0 where
  pub join : Text → Text → Text
  pub read_to_string : Text → Option Text
  pub json_bootstrap : Text → Deserialized Bootstrap
  pub json_updates : Text → Deserialized (List Update)
  pub json_finality_update : Text → Deserialized FinalityUpdate
  pub json_optimistic_update : Text → Deserialized OptimisticUpdate
  pub json_block : Text → Deserialized BeaconBlock

module _ (files : TestData) (testdata : Text) where
  -- `serde_json::from_str(&read_to_string(self.testdata.join(name))?)?`
  unfoldable pub read_answer : {A : Type 0} → Text → (Text → Deserialized A) → Result A
  read_answer name json = do
    text ← ok_or (files.read_to_string (files.join testdata name)) other
    map_err (json text) (λ _. other)

  -- `impl ConsensusRpc for MockRpc`
  unfoldable pub mock_rpc : ConsensusRpc
  unfolding read_answer
  mock_rpc = record {
    get_bootstrap = λ block_root. read_answer (codes "bootstrap.json") files.json_bootstrap;
    get_updates = λ period count. read_answer (codes "updates.json") files.json_updates;
    get_finality_update = read_answer (codes "finality.json") files.json_finality_update;
    get_optimistic_update = read_answer (codes "optimistic.json") files.json_optimistic_update;
    get_block = λ slot. read_answer (codes "blocks.json") files.json_block;
    chain_id = err other;
  }
