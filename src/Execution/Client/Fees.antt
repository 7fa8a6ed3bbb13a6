-- ===== src/Execution/Client/Fees.antt =====
-- execution/src/execution.rs: `get_fee_history` and `verify_fee_history`. The arithmetic of `f64` is
-- that of the primitives.
pub mod History
use forcerelay_verifier.Prelude.{
  ℕ, zero, suc, ◌+◌, ◌-◌, ◌≤◌, ◌<◌, ◌≡◌, refl, ap, Bool, Option, none, some, List, [], ◌∷◌, map,
  BTreeMap, lookup, last_key_value, first_key_value, get_elem?, length, ltb, ◌==◌, if◌then◌else◌,
  sub64, u64_mod, leb, ok, err, guard, ok_or, unwrap, ◌>>=◌, ◌>>◌,
}
use forcerelay_verifier.Consensus.Blocks.{ExecutionPayload, fields}
use forcerelay_verifier.Execution.Errors.{
  Result, empty_execution_payload, invalid_block_range, invalid_base_gas_fee,
  invalid_gas_used_ratio,
}
use forcerelay_verifier.Execution.Primitives.{Primitives}
use forcerelay_verifier.Execution.Types.{FeeHistory}
use forcerelay_verifier.Execution.Rpc.{ExecutionRpc}

-- the last block to report: that of the request, but not above the latest one
unfoldable pub request_latest : ℕ → ℕ → ℕ
request_latest last_block latest = if ltb latest last_block then latest else last_block

-- the first block to report, but not below the oldest one
unfoldable pub request_oldest : ℕ → ℕ → ℕ → ℕ
request_oldest block_count request_latest_block oldest =
    let request_oldest_block = sub64 request_latest_block block_count in
    if ltb request_oldest_block oldest then oldest else request_oldest_block

module _ ⦃lib : Primitives⦄ where
  -- the loop over `oldest..=latest`, by the number of blocks: the base fee and the ratio of each
  unfoldable pub collect_fees : ℕ → ℕ → BTreeMap ExecutionPayload → Result (List (ℕ × lib.Float))
  collect_fees zero block_id payloads = ok []
  collect_fees (suc n) block_id payloads = do
    payload ← ok_or (lookup block_id payloads) empty_execution_payload
    rest ← collect_fees n (block_id + 1) payloads
    ok (
        (
          (fields payload).base_fee_per_gas,
          lib.gas_ratio (fields payload).gas_used (fields payload).gas_limit,
        )
        ∷ rest)

  -- the percentiles of the request are not read
  unfoldable pub get_fee_history :
      ℕ → ℕ → List lib.Float → BTreeMap ExecutionPayload → Result (Option FeeHistory)
  unfolding request_latest request_oldest collect_fees
  get_fee_history block_count last_block reward_percentiles payloads = do
    latest ← ok_or (last_key_value payloads) empty_execution_payload
    oldest ← ok_or (first_key_value payloads) empty_execution_payload
    guard (leb oldest.0 last_block) (invalid_block_range last_block latest.0)
    let request_latest_block = request_latest last_block latest.0
    let request_oldest_block = request_oldest block_count request_latest_block oldest.0
    fees ←
        collect_fees (request_latest_block + 1 - request_oldest_block) request_oldest_block payloads
    ok (
        some (record {
          base_fee_per_gas = map (λ fee. fee.0) fees;
          gas_used_ratio = map (λ fee. fee.1) fees;
          oldest_block = request_oldest_block;
          reward = map (λ entry. []) payloads;
        }))

  -- `as_u64` of a `U256`: `none` is the panic
  abbrev pub to_u64 : ℕ → Option ℕ
  to_u64 n = if ltb n u64_mod then some n else none

  -- the loop of `verify_fee_history` from a position on: the entry at `block_count` is passed over
  unfoldable pub check_fees : FeeHistory → FeeHistory → ℕ → ℕ → List ℕ → Result (Unit {0})
  check_fees calculated answer block_count pos [] = ok tt
  check_fees calculated answer block_count pos (base_fee ∷ fees) =
      let rest = check_fees calculated answer block_count (pos + 1) fees in
      if pos == block_count then rest else (do
        block_to_check ← unwrap (to_u64 (answer.oldest_block + pos))
        fee_to_check ← unwrap (get_elem? calculated.base_fee_per_gas pos)
        gas_ratio_to_check ← unwrap (get_elem? calculated.gas_used_ratio pos)
        guard (base_fee == fee_to_check) (invalid_base_gas_fee fee_to_check base_fee block_to_check)
        gas_used_ratio ← unwrap (get_elem? answer.gas_used_ratio pos)
        guard (lib.float_eq gas_ratio_to_check (lib.round_ratio gas_used_ratio))
            (invalid_gas_used_ratio block_to_check)
        rest)

  unfoldable verify_fee_history :
      ExecutionRpc → FeeHistory → ℕ → ℕ → List lib.Float → Result (Unit {0})
  unfolding check_fees
  verify_fee_history rpc calculated block_count request_latest_block reward_percentiles = do
    answer ← rpc.get_fee_history block_count request_latest_block reward_percentiles
    check_fees calculated answer block_count 0 answer.base_fee_per_gas
