-- ===== src/Execution/Types.antt =====
-- execution/src/types.rs: accounts, blocks and the options of a call, whose field `data` is
-- `call_data`, since `data` is a keyword.
use forcerelay_verifier.Prelude.{ℕ, Option, List, HashMap}
use forcerelay_verifier.Common.{Bytes, Text}
use forcerelay_verifier.Execution.Primitives.{Primitives}

abbrev pub SlotMap : Type 0
SlotMap = HashMap ℕ

pub record Account : Type 0 where
  pub balance : ℕ
  pub nonce : ℕ
  pub code_hash : Bytes
  pub code : Bytes
  pub storage_hash : Bytes
  pub slots : SlotMap

pub record CallOpts : Type 0 where
  pub from : Option Bytes
  pub to : Option Bytes
  pub gas : Option ℕ
  pub gas_price : Option ℕ
  pub value : Option ℕ
  pub call_data : Option Bytes

module _ ⦃lib : Primitives⦄ where
  -- ethers' `FeeHistory`
  pub record FeeHistory : Type 0 where
    pub base_fee_per_gas : List ℕ
    pub gas_used_ratio : List lib.Float
    pub oldest_block : ℕ
    pub reward : List (List ℕ)

  pub data Transactions : Type 0 where
    hashes : List Bytes → Transactions
    full : List lib.Transaction → Transactions

  pub record ExecutionBlock : Type 0 where
    pub number : ℕ
    pub base_fee_per_gas : ℕ
    pub difficulty : ℕ
    pub extra_data : Bytes
    pub gas_limit : ℕ
    pub gas_used : ℕ
    pub hash : Bytes
    pub logs_bloom : Bytes
    pub miner : Bytes
    pub mix_hash : Bytes
    pub nonce : Text
    pub parent_hash : Bytes
    pub receipts_root : Bytes
    pub sha3_uncles : Bytes
    pub size : ℕ
    pub state_root : Bytes
    pub timestamp : ℕ
    pub total_difficulty : ℕ
    pub transactions : Transactions
    pub transactions_root : Bytes
    pub uncles : List Bytes
