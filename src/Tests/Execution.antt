-- ===== src/Tests/Execution.antt =====
-- The theorems on execution/src: on the paths of the tests of proof.rs, and on the toy RPC.
use forcerelay_verifier.Prelude.{
  ℕ, ◌≤◌, ◌≡◌, ◌⊎◌, refl, All, lookup, replicate, some, none, List, [], ◌∷◌, ok, true, arith,
}
use forcerelay_verifier.Common.{Bytes}
use forcerelay_verifier.Execution.Proof.{skip_length}
use forcerelay_verifier.Consensus.Blocks.{ExecutionPayload, fields}
use forcerelay_verifier.Execution.Client.{contains, contains_receipt}
use forcerelay_verifier.Execution.Client.Accounts.{IsProvenAccount, get_account_sound}
use forcerelay_verifier.Execution.Client.Receipts.{
  IsReceiptsOf, get_transaction_sound, get_transaction_receipt_sound,
}
use forcerelay_verifier.Execution.Client.Logs.{IsProven, get_logs_sound}
use forcerelay_verifier.Execution.Proof.Spec.{Proves}
use forcerelay_verifier.Execution.Proof.Completeness.{verify_proof_iff}
use forcerelay_verifier.Execution.Proof.{verify_proof}
use forcerelay_verifier.Prelude.{◌↔◌}
use forcerelay_verifier.Execution.Evm.{TransactResult, call_out}
use forcerelay_verifier.Prelude.{◌+◌, length}
use forcerelay_verifier.Execution.Types.{FeeHistory}
use forcerelay_verifier.Execution.Client.Fees.{get_fee_history}
use forcerelay_verifier.Execution.Client.Fees.History.{
  get_fee_history_sound, get_fee_history_length,
}
use forcerelay_verifier.Execution.Evm.Sound.{IsProvenRun, call_sound}
use forcerelay_verifier.Tests.Ledger.{
  evm, db, opts, calls, toy-counted, two_nodes, toy, rpc, address, payload, payloads, account, tx,
  tx_hash, receipt, gets_account, gets_transaction, gets_receipt, gets_logs,
}
use forcerelay_verifier.Execution.Proof.Nibbles.{nibbles}

abbrev key : Bytes
key = 0x12 ∷ 0x13 ∷ 0x14 ∷ 0x6f ∷ 0x6c ∷ 0x64 ∷ 0x21 ∷ []

-- a path with an odd flag
abbrev odd_path : Bytes
odd_path = 0x14 ∷ 0x6f ∷ 0x6c ∷ 0x64 ∷ 0x11 ∷ []

skip_length-odd_path : skip_length odd_path ≡ ok 1
unfolding skip_length
skip_length-odd_path = refl

get_account_sound_example : IsProvenAccount rpc address payload account
get_account_sound_example =
    get_account_sound rpc address (some (replicate 32 9 ∷ [])) payload account refl gets_account

get_transaction_sound_example :
    (block_number : ℕ) × (found : ExecutionPayload) × (rpc.get_transaction tx_hash ≡ ok (some tx))
    × (some tx.0 ≡ some block_number)
    × (lookup block_number payloads ≡ some found)
    × (contains tx.1 (fields found).transactions ≡ true)
get_transaction_sound_example = get_transaction_sound rpc tx_hash payloads tx gets_transaction

get_transaction_receipt_sound_example :
    (block_number : ℕ) × (found : ExecutionPayload) × (receipts : List (ℕ × List (Bytes × ℕ)))
    × (rpc.get_transaction_receipt tx_hash ≡ ok (some receipt))
    × (some receipt.0 ≡ some block_number)
    × (lookup block_number payloads ≡ some found)
    × IsReceiptsOf rpc found receipts
    × (contains_receipt rpc receipt receipts ≡ true)
get_transaction_receipt_sound_example =
    get_transaction_receipt_sound rpc tx_hash payloads receipt gets_receipt

get_logs_sound_example : (1 ≤ 5) × All (IsProven rpc payloads) ((tx_hash, 4) ∷ [])
get_logs_sound_example = get_logs_sound rpc (none, none) payloads ((tx_hash, 4) ∷ []) gets_logs

verify_proof_iff_example :
    (verify_proof two_nodes (replicate 32 35) (replicate 32 20) (5 ∷ []) ≡ ok true)
    ↔ Proves (5 ∷ []) (replicate 32 35) (nibbles (replicate 32 20)) two_nodes
verify_proof_iff_example =
    verify_proof_iff (replicate 32 20) (5 ∷ []) (omega arith) toy-counted two_nodes
      (replicate 32 35)

call_sound_example :
    (result : TransactResult) × IsProvenRun evm rpc 1 db refl opts result
    × ((result.exit_reason ≡ evm.return_return) ⊎ (result.exit_reason ≡ evm.return_stop))
    × (result.out ≡ call_out (5 ∷ []))
call_sound_example = call_sound evm rpc 1 db refl opts calls

abbrev history : FeeHistory
history = record {
  base_fee_per_gas = 7 ∷ [];
  gas_used_ratio = 0 ∷ [];
  oldest_block = 7;
  reward = [] ∷ [];
}

gets_history : get_fee_history 3 9 [] payloads ≡ ok (some history)
unfolding get_fee_history
gets_history = refl

get_fee_history_sound_example :
    (found : ExecutionPayload) × (lookup (7 + 0) payloads ≡ some found)
    × (7 ≡ (fields found).base_fee_per_gas)
get_fee_history_sound_example = get_fee_history_sound payloads 3 9 [] 0 gets_history refl

get_fee_history_length_example : length history.base_fee_per_gas ≡ 1
get_fee_history_length_example =
    get_fee_history_length payloads 3 9 [] (7, payload) (7, payload) refl refl (omega arith)
      (omega arith) (omega arith) gets_history

-- With more blocks asked for than there are below the last one, no block is reported.
wraps :
    get_fee_history 8 7 [] payloads
    ≡ ok (
        some (record {
          base_fee_per_gas = [];
          gas_used_ratio = [];
          oldest_block = 0xffffffffffffffff;
          reward = [] ∷ [];
        }))
unfolding get_fee_history
wraps = refl
