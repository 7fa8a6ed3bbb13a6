-- ===== src/Execution/Rpc/Mock.antt =====
-- execution/src/rpc/mock_rpc.rs: answers that are read from files of test data. The file system and
-- serde_json are parameters.
use forcerelay_verifier.Prelude.{
  ℕ, Option, List, [], ◌∷◌, ◌&&◌, leb, if◌then◌else◌, ok, err, panic, ok_or, ◌>>=◌,
}
use forcerelay_verifier.Common.{Text, hex_str_to_bytes}
use forcerelay_verifier.Common.Numbers.{codes}
use forcerelay_verifier.Execution.Errors.{Result, other}
use forcerelay_verifier.Execution.Primitives.{Primitives, ProofResponse}
use forcerelay_verifier.Execution.Rpc.{ExecutionRpc}
use forcerelay_verifier.Execution.Types.{FeeHistory}

pub record TestData ⦃lib : Primitives⦄ : Type 0 where
  pub join : Text → Text → Text
  pub read_to_string : Text → Option Text
  pub json_proof : Text → Option ProofResponse
  pub json_receipt : Text → Option (Option lib.TransactionReceipt)
  pub json_transaction : Text → Option (Option lib.Transaction)
  pub json_logs : Text → Option (List lib.Log)
  pub json_fee_history : Text → Option FeeHistory

-- `&code[0..code.len() - 1]` of a text that begins with `c`: a panic where the last byte is the end of
-- a longer character
unfoldable pub before_last : ℕ → Text → Result Text
before_last c [] = if leb 0x80 c && leb c 0xbf then panic else ok []
before_last c (d ∷ s) = do rest ← before_last d s; ok (c ∷ rest)

-- the empty text is a panic
unfoldable pub without_last : Text → Result Text
unfolding before_last
without_last [] = panic
without_last (c ∷ s) = before_last c s

module _ ⦃lib : Primitives⦄ (files : TestData) (path : Text) where
  -- `read_to_string(self.path.join(name))?`
  unfoldable pub read_file : Text → Result Text
  read_file name = ok_or (files.read_to_string (files.join path name)) other

  -- `serde_json::from_str` of it
  unfoldable pub read_json : {A : Type 0} → Text → (Text → Option A) → Result A
  unfolding read_file
  read_json name json = do text ← read_file name; ok_or (json text) other

  -- `impl ExecutionRpc for MockRpc`
  unfoldable pub mock_rpc : ExecutionRpc
  unfolding read_file read_json without_last hex_str_to_bytes
  mock_rpc = record {
    get_proof = λ address slots block. read_json (codes "proof.json") files.json_proof;
    create_access_list = λ opts block. err other;
    get_code = λ address block. (do
      code ← read_file (codes "code.json")
      stripped ← without_last code
      ok_or (hex_str_to_bytes lib.hex_decode stripped) other);
    send_raw_transaction = λ bytes. err other;
    get_transaction_receipt = λ tx_hash. read_json (codes "receipt.json") files.json_receipt;
    get_transaction = λ tx_hash. read_json (codes "transaction.json") files.json_transaction;
    get_logs = λ filter. read_json (codes "logs.json") files.json_logs;
    chain_id = err other;
    get_fee_history = λ block_count last_block reward_percentiles.
        read_json (codes "fee_history.json") files.json_fee_history;
  }
