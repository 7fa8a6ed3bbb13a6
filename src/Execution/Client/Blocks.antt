-- ===== src/Execution/Client/Blocks.antt =====
-- execution/src/execution.rs: `get_block`.
use forcerelay_verifier.Prelude.{
  Bool, [], ◌∷◌, map, insert, replicate, if◌then◌else◌, ok, ok_or, unwrap, ◌>>=◌,
}
use forcerelay_verifier.Common.{Bytes, Text, from_slice}
use forcerelay_verifier.Consensus.Blocks.{ExecutionPayload, fields}
use forcerelay_verifier.Execution.Errors.{ExecutionError, Result}
use forcerelay_verifier.Execution.Primitives.{Primitives}
use forcerelay_verifier.Execution.Types.{ExecutionBlock, Transactions}
use forcerelay_verifier.Execution.Rpc.{ExecutionRpc}
use forcerelay_verifier.Execution.Client.{collect, hash_of, get_transaction}

-- "0x0000000000000000"
abbrev pub empty_nonce : Text
empty_nonce =
    0x30 ∷ 0x78 ∷ 0x30 ∷ 0x30 ∷ 0x30 ∷ 0x30 ∷ 0x30 ∷ 0x30 ∷ 0x30 ∷ 0x30 ∷ 0x30 ∷ 0x30 ∷ 0x30 ∷ 0x30
    ∷ 0x30 ∷ 0x30 ∷ 0x30 ∷ 0x30 ∷ []

abbrev pub empty_uncle_hash : Bytes
empty_uncle_hash =
    0x1d ∷ 0xcc ∷ 0x4d ∷ 0xe8 ∷ 0xde ∷ 0xc7 ∷ 0x5d ∷ 0x7a ∷ 0xab ∷ 0x85 ∷ 0xb5 ∷ 0x67 ∷ 0xb6 ∷ 0xcc
    ∷ 0xd4 ∷ 0x1a ∷ 0xd3 ∷ 0x12 ∷ 0x45 ∷ 0x1b ∷ 0x94 ∷ 0x8a ∷ 0x74 ∷ 0x13 ∷ 0xf0 ∷ 0xa1 ∷ 0x42
    ∷ 0xfd ∷ 0x40 ∷ 0xd4 ∷ 0x93 ∷ 0x47 ∷ []

module _ ⦃lib : Primitives⦄ (rpc : ExecutionRpc) where
  -- the transaction of a hash, in the map that holds the block alone
  unfoldable pub block_transaction : ExecutionPayload → Bytes → Result lib.Transaction
  block_transaction payload hash = do
    found ← get_transaction rpc hash (insert (fields payload).block_number payload [])
    ok_or found ExecutionError.other

  unfoldable pub block_transactions : ExecutionPayload → Bool → Result Transactions
  unfolding block_transaction
  block_transactions payload full_tx = do
    tx_hashes ← collect (map (hash_of rpc) (fields payload).transactions)
    if full_tx
        then (do
          txs ← collect (map (block_transaction payload) tx_hashes)
          ok (Transactions.full txs))
        else ok (Transactions.hashes tx_hashes)

  unfoldable pub get_block : ExecutionPayload → Bool → Result ExecutionBlock
  unfolding block_transactions
  get_block payload full_tx = do
    txs ← block_transactions payload full_tx
    hash ← unwrap (from_slice 32 (fields payload).block_hash)
    miner ← unwrap (from_slice 20 (fields payload).fee_recipient)
    parent_hash ← unwrap (from_slice 32 (fields payload).parent_hash)
    receipts_root ← unwrap (from_slice 32 (fields payload).receipts_root)
    state_root ← unwrap (from_slice 32 (fields payload).state_root)
    mix_hash ← unwrap (from_slice 32 (fields payload).prev_randao)
    ok (record {
      number = (fields payload).block_number;
      base_fee_per_gas = (fields payload).base_fee_per_gas;
      difficulty = 0;
      extra_data = (fields payload).extra_data;
      gas_limit = (fields payload).gas_limit;
      gas_used = (fields payload).gas_used;
      hash = hash;
      logs_bloom = (fields payload).logs_bloom;
      miner = miner;
      mix_hash = mix_hash;
      nonce = empty_nonce;
      parent_hash = parent_hash;
      receipts_root = receipts_root;
      sha3_uncles = empty_uncle_hash;
      size = 0;
      state_root = state_root;
      timestamp = (fields payload).timestamp;
      total_difficulty = 0;
      transactions = txs;
      transactions_root = replicate 32 0;
      uncles = [];
    })
