-- ===== src/Client/Rpc/Answers.antt =====
-- client/src/rpc.rs: what the answers say, and which requests make a method panic.
use forcerelay_verifier.Prelude.{
  ℕ, zero, suc, ◌<◌, ◌≡◌, ◌≢◌, refl, ap, sym, subst, ◌∙◌, inl, inr, false, none, some, Option, [],
  ◌∷◌, ◌++◌, ◌==◌, Bool-cases, All, replicate, lookup, last_key_value, lookup-last_key_value,
  All-last_key_value, length, u64_mod, ok, panic, ok_or, map_err, map_err-eq-ok, ok-injective,
  >>=-eq-ok, arith,
}
use forcerelay_verifier.Common.{Bytes, Text, latest, number, hex_str_to_bytes}
use forcerelay_verifier.Common.Numbers.{hex_prefix, to_text, digit, u64_to_hex_string}
use forcerelay_verifier.Common.Numbers.Reading.{sixteen, digits-head}
use forcerelay_verifier.Common.Tags.{deserialize}
use forcerelay_verifier.Common.Tags.RoundTrip.{deserialize-u64_to_hex_string}
use forcerelay_verifier.Consensus.Blocks.{ExecutionPayload, fields}
use forcerelay_verifier.Execution.Primitives.{Primitives}
use forcerelay_verifier.Execution.Rpc.{ExecutionRpc}
use forcerelay_verifier.Client.Node.{Node}
use forcerelay_verifier.Client.Node.Window.{IsKeyed}
use forcerelay_verifier.Client.Node.Queries
use forcerelay_verifier.Client.Node.Queries.{
  get_payload, check_head_age, fresh_payload, entry_payload,
}
use forcerelay_verifier.Client.Rpc.{
  trim_start_zeros, or_zero, format_hex, block_number, get_transaction_receipt,
  get_transaction_by_hash,
}
use forcerelay_verifier.Client.Rpc.Errors.{Formats, custom}

trim_start_zeros-replicate :
    (k : ℕ) (s : Text) → trim_start_zeros (replicate k b'0' ++ s) ≡ trim_start_zeros s
unfolding trim_start_zeros
trim_start_zeros-replicate zero s = refl
trim_start_zeros-replicate (suc k) s = trim_start_zeros-replicate k s

trim_start_zeros-digit :
    (d : ℕ) (s : Text) → d < 16 → d ≢ 0 → trim_start_zeros (digit d ∷ s) ≡ digit d ∷ s
unfolding trim_start_zeros
trim_start_zeros-digit d s h p = ground arith

trim_start_zeros-to_text : (n : ℕ) → or_zero (trim_start_zeros (to_text 16 n)) ≡ to_text 16 n
unfolding to_text trim_start_zeros
trim_start_zeros-to_text n = elim (Bool-cases (n == 0)) [
  | inl e ↦ rw e refl
  | inr e ↦
      let (d, rest, q, h, p) = digits-head sixteen n n [] (omega arith) (λ z. ground arith) in
      rw (e, q, trim_start_zeros-digit d rest h p) refl
]

-- Where `encode_hex` writes the prefix, some zeros and then the digits of the number, the server
-- answers with the number as `{:#x}` writes it: no zeros in front, and one zero for zero.
pub format_hex_lem :
    (formats : Formats) (num zeros : ℕ)
    → formats.encode_hex num ≡ hex_prefix ++ (replicate zeros b'0' ++ to_text 16 num)
    → format_hex formats num ≡ ok (hex_prefix ++ to_text 16 num)
unfolding format_hex
format_hex_lem formats num zeros e =
    rw (e, trim_start_zeros-replicate zeros (to_text 16 num), trim_start_zeros-to_text num) refl

latest_numbered :
    (node : Node) {payload : ExecutionPayload}
    → IsKeyed node.payloads
    → All (λ (e : ℕ × ExecutionPayload). e.0 < u64_mod) node.payloads
    → get_payload latest node ≡ ok payload
    → ((fields payload).block_number < u64_mod)
      × (get_payload (number (fields payload).block_number) node ≡ ok payload)
unfolding get_payload
latest_numbered node {payload} (sorted, keyed) fits e = go (last_key_value node.payloads) refl e
  where
    go :
        (entry : Option (ℕ × ExecutionPayload))
        → last_key_value node.payloads ≡ entry
        → ok_or (entry_payload entry) latest ≡ ok payload
        → ((fields payload).block_number < u64_mod)
          × (ok_or
                (lookup (fields payload).block_number node.payloads)
                (number (fields payload).block_number)
              ≡ ok payload)
    go none p q = cc
    go (some (k, found)) p q =
        let same : found ≡ payload = ok-injective q in
        let named : (fields found).block_number ≡ k =
          All-last_key_value (λ e. (fields e.1).block_number ≡ e.0) node.payloads keyed p in
        let small : k < u64_mod = All-last_key_value (λ e. e.0 < u64_mod) node.payloads fits p in
        subst
          (λ payload'.
            ((fields payload').block_number < u64_mod)
            × (ok_or (lookup (fields payload').block_number node.payloads)
                  (number (fields payload').block_number)
                ≡ ok payload'))
          same
          (
            omega (arith, named, small),
            rw (named, lookup-last_key_value node.payloads sorted p) refl,
          )

get_block_number-latest :
    (now : ℕ) (node : Node) {num : ℕ}
    → Queries.get_block_number now node ≡ ok num
    → (payload : ExecutionPayload) × (get_payload latest node ≡ ok payload)
      × ((fields payload).block_number ≡ num)
unfolding Queries.get_block_number
get_block_number-latest now node e =
    let (payload, p, q) = >>=-eq-ok (fresh_payload now node latest) _ e in
    let (u, _, r) = >>=-eq-ok (map_err (check_head_age now node) _) _ p in
    (payload, map_err-eq-ok (get_payload latest node) _ r, ok-injective q)

-- When the window of payloads is in order and its numbers are `u64`, the answer of `eth_blockNumber`
-- is read back as a block tag, and the payload of that tag is the latest one.
pub block_number-get_payload :
    (formats : Formats) (now : ℕ) (node : Node)
    → IsKeyed node.payloads
    → All (λ (e : ℕ × ExecutionPayload). e.0 < u64_mod) node.payloads
    → {answer : Text} → block_number formats now node ≡ ok answer
    → (num : ℕ) × (deserialize (ok answer) ≡ ok (number num))
      × (get_payload (number num) node ≡ get_payload latest node)
unfolding block_number
block_number-get_payload formats now node keyed fits e =
    let (num, p, q) =
      >>=-eq-ok (map_err (Queries.get_block_number now node) (λ x. custom (formats.query_error x)))
        _ e in
    let (payload, l, same) =
      get_block_number-latest now node (map_err-eq-ok (Queries.get_block_number now node) _ p) in
    let (small, found) = latest_numbered node keyed fits l in
    (
      (fields payload).block_number,
      ap (λ a. deserialize (ok a)) (sym (ok-injective q) ∙ ap u64_to_hex_string (sym same))
          ∙ deserialize-u64_to_hex_string (fields payload).block_number small,
      found ∙ sym l,
    )

module _ ⦃lib : Primitives⦄ (formats : Formats) (rpc : ExecutionRpc) (now : ℕ) (node : Node) where
  -- A hexadecimal text of any other length than 32 bytes makes both queries by the hash of a
  -- transaction panic, whatever the server would answer.
  pub transaction_by_hash-panics :
      (s : Text) {bytes : Bytes}
      → hex_str_to_bytes formats.hex_decode s ≡ some bytes
      → length bytes ≢ 32
      → (get_transaction_receipt formats rpc now node s ≡ panic)
        × (get_transaction_by_hash formats rpc now node s ≡ panic)
  unfolding get_transaction_receipt get_transaction_by_hash
  transaction_by_hash-panics s {bytes} e h =
      let other : (length bytes == 32) ≡ false = ground arith in
      (rw (e, other) refl, rw (e, other) refl)
