-- ===== src/Execution/Client/Logs.antt =====
-- execution/src/execution.rs: `get_logs`, and what its logs are worth.
use forcerelay_verifier.Prelude.{
  ◌&&◌, ◌≤◌, ◌≡◌, true, some, List, [], ◌∷◌, map, arith, BTreeMap, last_key_value, leb, leb→le,
  length, is_none, if◌then◌else◌, ok, err, guard, ok_or, unwrap, ◌>>=◌, ◌>>◌, >>=-eq-ok,
  guard-eq-ok, All, subst, ok-injective,
}
use forcerelay_verifier.Common.{Bytes}
use forcerelay_verifier.Consensus.Blocks.{ExecutionPayload}
use forcerelay_verifier.Execution.Errors.{ExecutionError, Result}
use forcerelay_verifier.Execution.Primitives.{Primitives}
use forcerelay_verifier.Execution.Rpc.{ExecutionRpc}
use forcerelay_verifier.Execution.Client.{
  contains, get_transaction_receipt, max_supported_logs_number,
}

module _ ⦃lib : Primitives⦄ (rpc : ExecutionRpc) where
  -- a filter without an end ends at the last payload
  unfoldable pub bounded_filter : lib.Filter → BTreeMap ExecutionPayload → Result lib.Filter
  bounded_filter filter payloads =
      if is_none (lib.filter_to_block filter) && is_none (lib.filter_block_hash filter)
      then (do
        entry ← unwrap (last_key_value payloads)
        let filter = lib.filter_with_to_block entry.0 filter
        ok (
            if is_none (lib.filter_from_block filter)
            then lib.filter_with_from_block entry.0 filter
            else filter))
      else ok filter

  -- one round of the loop over the logs
  unfoldable pub check_log : BTreeMap ExecutionPayload → lib.Log → Result (Unit {0})
  check_log payloads log = do
    tx_hash ← ok_or (lib.log_transaction_hash log) ExecutionError.other
    found ← get_transaction_receipt rpc tx_hash payloads
    receipt ← ok_or found (ExecutionError.no_receipt_for_transaction tx_hash)
    if contains (lib.log_rlp log) (map lib.log_rlp (lib.receipt_logs receipt))
        then ok tt
        else (do index ← unwrap (lib.log_index log); err (ExecutionError.missing_log tx_hash index))

  unfoldable pub check_logs : BTreeMap ExecutionPayload → List lib.Log → Result (Unit {0})
  unfolding check_log
  check_logs payloads [] = ok tt
  check_logs payloads (log ∷ logs) =
      let rest = check_logs payloads logs in do _ ← check_log payloads log; rest

  unfoldable pub get_logs : lib.Filter → BTreeMap ExecutionPayload → Result (List lib.Log)
  unfolding bounded_filter check_logs
  get_logs filter payloads = do
    filter ← bounded_filter filter payloads
    logs ← rpc.get_logs filter
    guard (leb (length logs) max_supported_logs_number)
        (ExecutionError.too_many_logs_to_prove (length logs) max_supported_logs_number)
    _ ← check_logs payloads logs
    ok logs

  -- The log stands in the receipt of its transaction, which the client proves.
  abbrev pub IsProven : BTreeMap ExecutionPayload → lib.Log → Type 0
  IsProven payloads log =
      (tx_hash : Bytes) × (receipt : lib.TransactionReceipt) × (lib.log_transaction_hash log
        ≡ some tx_hash)
      × (get_transaction_receipt rpc tx_hash payloads ≡ ok (some receipt))
      × (contains (lib.log_rlp log) (map lib.log_rlp (lib.receipt_logs receipt)) ≡ true)

  check_log-IsProven :
      (payloads : BTreeMap ExecutionPayload) (log : lib.Log)
      → check_log payloads log ≡ ok tt
      → IsProven payloads log
  unfolding check_log
  check_log-IsProven payloads log h = ground arith

  check_logs-IsProven :
      (payloads : BTreeMap ExecutionPayload) (logs : List lib.Log)
      → check_logs payloads logs ≡ ok tt
      → All (IsProven payloads) logs
  unfolding check_logs
  check_logs-IsProven payloads [] h = tt
  check_logs-IsProven payloads (log ∷ logs) h =
      let (u, p, h1) = >>=-eq-ok (check_log payloads log) _ h in
      (check_log-IsProven payloads log p, check_logs-IsProven payloads logs h1)

  -- The logs that are returned are at most five, and each stands in the receipt of its transaction,
  -- as the client proves that receipt against the payloads.
  pub get_logs_sound :
      (filter : lib.Filter) (payloads : BTreeMap ExecutionPayload) (logs : List lib.Log)
      → get_logs filter payloads ≡ ok logs
      → (length logs ≤ 5) × All (IsProven payloads) logs
  unfolding get_logs
  get_logs_sound filter payloads logs h =
      let (bounded, p, h1) = >>=-eq-ok (bounded_filter filter payloads) _ h in
      let (found, q, h2) = >>=-eq-ok (rpc.get_logs bounded) _ h1 in
      let (u, few, h3) = >>=-eq-ok (guard (leb (length found) max_supported_logs_number) _) _ h2 in
      let (v, r, h4) = >>=-eq-ok (check_logs payloads found) _ h3 in
      subst (λ xs. (length xs ≤ 5) × All (IsProven payloads) xs) (ok-injective h4)
        (leb→le _ _ (guard-eq-ok _ _ few), check_logs-IsProven payloads found r)
