-- ===== src/Execution/Client/Receipts.antt =====
-- What a transaction and a receipt that the client returns are worth.
use forcerelay_verifier.Prelude.{
  ℕ, ◌≡◌, refl, true, false, Bool, not, ◌||◌, Option, none, some, List, map, arith, BTreeMap,
  lookup, bytes_eq, bytes_eq→eq, if◌then◌else◌, ok, err, unwrap, >>=-eq-ok, ok-injective,
  unwrap-eq-ok, sym, some-injective, Bool-cases, inl, inr, ap, ◌∙◌, Outcome,
}
use forcerelay_verifier.Common.{Bytes, from_slice}
use forcerelay_verifier.Consensus.Blocks.{ExecutionPayload, fields}
use forcerelay_verifier.Execution.Errors.{ExecutionError}
use forcerelay_verifier.Execution.Primitives.{Primitives}
use forcerelay_verifier.Execution.Rpc.{ExecutionRpc}
use forcerelay_verifier.Execution.Client.{
  contains, collect, payload_at, hash_of, block_receipt, encode_receipt, contains_receipt,
  check_receipt, check_receipt_in, check_found_receipt, get_transaction_receipt, check_transaction,
  check_found_transaction, get_transaction,
}

module _ ⦃lib : Primitives⦄ (rpc : ExecutionRpc) where
  check_transaction_lem :
      (hash : Bytes) (answer tx : lib.Transaction) (found : Option ExecutionPayload)
      → check_transaction rpc hash answer found ≡ ok (some tx)
      → (payload : ExecutionPayload) × (answer ≡ tx)
        × (found ≡ some payload)
        × (contains (lib.transaction_rlp tx) (fields payload).transactions ≡ true)
  unfolding check_transaction
  check_transaction_lem hash answer tx none h = ground arith
  check_transaction_lem hash answer tx (some payload) h =
      elim (Bool-cases (contains (lib.transaction_rlp answer) (fields payload).transactions)) [
        | inl e ↦
            let same = some-injective (ok-injective (rw e at h)) in
            (payload, same, refl, rw (← same) e)
        | inr e ↦ absurd (err_lem (rw e at h))
      ]
    where
      err_lem : ¬ (
          Path
            (Outcome ExecutionError (Option lib.Transaction))
            (err (ExecutionError.missing_transaction hash))
            (ok (some tx)))
      err_lem q = cc

  payload_at_lem :
      (o : Option ℕ) (payloads : BTreeMap ExecutionPayload) (payload : ExecutionPayload)
      → payload_at rpc o payloads ≡ some payload
      → (block_number : ℕ) × (o ≡ some block_number) × (lookup block_number payloads ≡ some payload)
  payload_at_lem none payloads payload h = ground arith
  payload_at_lem (some block_number) payloads payload h = (block_number, refl, h)

  check_found_transaction_lem :
      (hash : Bytes) (found : Option lib.Transaction) (payloads : BTreeMap ExecutionPayload)
      (tx : lib.Transaction)
      → check_found_transaction rpc hash found payloads ≡ ok (some tx)
      → (block_number : ℕ) × (payload : ExecutionPayload) × (found ≡ some tx)
        × (lib.transaction_block_number tx ≡ some block_number)
        × (lookup block_number payloads ≡ some payload)
        × (contains (lib.transaction_rlp tx) (fields payload).transactions ≡ true)
  unfolding check_found_transaction
  check_found_transaction_lem hash none payloads tx h = ground arith
  check_found_transaction_lem hash (some answer) payloads tx h =
      let (payload, same, p, q) = check_transaction_lem hash answer tx _ h in
      let (block_number, r, s) =
        payload_at_lem (lib.transaction_block_number answer) payloads payload p in
      (block_number, payload, ap some same, ap lib.transaction_block_number (sym same) ∙ r, s, q)

  -- A transaction that is returned is what the RPC answered, and its encoding is one of the
  -- transactions of the payload that the map holds at its block number.
  pub get_transaction_sound :
      (hash : Bytes) (payloads : BTreeMap ExecutionPayload) (tx : lib.Transaction)
      → get_transaction rpc hash payloads ≡ ok (some tx)
      → (block_number : ℕ) × (payload : ExecutionPayload) × (rpc.get_transaction hash
          ≡ ok (some tx))
        × (lib.transaction_block_number tx ≡ some block_number)
        × (lookup block_number payloads ≡ some payload)
        × (contains (lib.transaction_rlp tx) (fields payload).transactions ≡ true)
  unfolding get_transaction
  get_transaction_sound hash payloads tx h =
      let (found, p, h1) = >>=-eq-ok (rpc.get_transaction hash) _ h in
      let (block_number, payload, q, r, s, t) =
        check_found_transaction_lem hash found payloads tx h1 in
      (block_number, payload, p ∙ ap ok q, r, s, t)

  -- The receipts of a block, one for each transaction, with the root that the payload has.
  pub record IsReceiptsOf (payload : ExecutionPayload) (receipts : List lib.TransactionReceipt)
      : Type 0 where
    pub tx_hashes : List Bytes
    pub encoded : List Bytes
    pub from_hashes : collect (map (hash_of rpc) (fields payload).transactions) ≡ ok tx_hashes
    pub from_rpc : collect (map (block_receipt rpc) tx_hashes) ≡ ok receipts
    pub to_encoded : collect (map (encode_receipt rpc) receipts) ≡ ok encoded
    pub has_root : lib.ordered_trie_root encoded ≡ (fields payload).receipts_root

  check_receipt_lem :
      (tx_hash : Bytes) (answer receipt : lib.TransactionReceipt) (payload : ExecutionPayload)
      → check_receipt rpc tx_hash answer payload ≡ ok (some receipt)
      → (receipts : List lib.TransactionReceipt) × (answer ≡ receipt)
        × IsReceiptsOf payload receipts
        × (contains_receipt rpc receipt receipts ≡ true)
  unfolding check_receipt
  check_receipt_lem tx_hash answer receipt payload h =
      let (tx_hashes, p, h1) =
        >>=-eq-ok (collect (map (hash_of rpc) (fields payload).transactions)) _ h in
      let (receipts, q, h2) = >>=-eq-ok (collect (map (block_receipt rpc) tx_hashes)) _ h1 in
      let (encoded, r, h3) = >>=-eq-ok (collect (map (encode_receipt rpc) receipts)) _ h2 in
      let (root, s, h4) = >>=-eq-ok (unwrap (from_slice 32 (fields payload).receipts_root)) _ h3 in
      let (root_eq, contained, same) =
        check_lem (bytes_eq (lib.ordered_trie_root encoded) root) _ h4 in
      (
        receipts,
        same,
        record {
          tx_hashes = tx_hashes;
          encoded = encoded;
          from_hashes = p;
          from_rpc = q;
          to_encoded = r;
          has_root = bytes_eq→eq _ _ root_eq ∙ from_slice_lem _ root s;
        },
        ap (λ r. contains_receipt rpc r receipts) (sym same) ∙ contained,
      )
    where
      check_lem :
          (a b : Bool)
          → Path
              (Outcome ExecutionError (Option lib.TransactionReceipt))
              (if not a || not b
                then err (ExecutionError.receipt_root_mismatch tx_hash)
                else ok (some answer))
              (ok (some receipt))
          → (a ≡ true) × (b ≡ true) × (answer ≡ receipt)
      check_lem true true e = (refl, refl, some-injective (ok-injective e))
      check_lem true false e = cc
      check_lem false b e = cc

      from_slice_lem :
          (bytes found : Bytes)
          → unwrap {E = ExecutionError} (from_slice 32 bytes) ≡ ok found
          → found ≡ bytes
      from_slice_lem bytes found e = ground arith

  check_receipt_in_lem :
      (tx_hash : Bytes) (answer receipt : lib.TransactionReceipt) (found : Option ExecutionPayload)
      → check_receipt_in rpc tx_hash answer found ≡ ok (some receipt)
      → (payload : ExecutionPayload) × (receipts : List lib.TransactionReceipt) × (found
          ≡ some payload)
        × (answer ≡ receipt)
        × IsReceiptsOf payload receipts
        × (contains_receipt rpc receipt receipts ≡ true)
  unfolding check_receipt_in
  check_receipt_in_lem tx_hash answer receipt none h = ground arith
  check_receipt_in_lem tx_hash answer receipt (some payload) h =
      let (receipts, p, q, r) = check_receipt_lem tx_hash answer receipt payload h in
      (payload, receipts, refl, p, q, r)

  check_found_receipt_lem :
      (tx_hash : Bytes) (found : Option lib.TransactionReceipt)
      (payloads : BTreeMap ExecutionPayload) (receipt : lib.TransactionReceipt)
      → check_found_receipt rpc tx_hash found payloads ≡ ok (some receipt)
      → (block_number : ℕ) × (payload : ExecutionPayload) × (receipts : List lib.TransactionReceipt)
        × (found ≡ some receipt)
        × (lib.receipt_block_number receipt ≡ some block_number)
        × (lookup block_number payloads ≡ some payload)
        × IsReceiptsOf payload receipts
        × (contains_receipt rpc receipt receipts ≡ true)
  unfolding check_found_receipt
  check_found_receipt_lem tx_hash none payloads receipt h = ground arith
  check_found_receipt_lem tx_hash (some answer) payloads receipt h =
      let (block_number, p, h1) = >>=-eq-ok (unwrap (lib.receipt_block_number answer)) _ h in
      let (payload, receipts, q, same, r, s) = check_receipt_in_lem tx_hash answer receipt _ h1 in
      (
        block_number,
        payload,
        receipts,
        ap some same,
        ap lib.receipt_block_number (sym same) ∙ unwrap-eq-ok _ p,
        q,
        r,
        s,
      )

  -- A receipt that is returned is what the RPC answered; it is one of the receipts of the
  -- transactions of the payload that the map holds at its block number, and the trie root of the
  -- encodings of all of these is the receipts root of the payload.
  pub get_transaction_receipt_sound :
      (tx_hash : Bytes) (payloads : BTreeMap ExecutionPayload) (receipt : lib.TransactionReceipt)
      → get_transaction_receipt rpc tx_hash payloads ≡ ok (some receipt)
      → (block_number : ℕ) × (payload : ExecutionPayload) × (receipts : List lib.TransactionReceipt)
        × (rpc.get_transaction_receipt tx_hash ≡ ok (some receipt))
        × (lib.receipt_block_number receipt ≡ some block_number)
        × (lookup block_number payloads ≡ some payload)
        × IsReceiptsOf payload receipts
        × (contains_receipt rpc receipt receipts ≡ true)
  unfolding get_transaction_receipt
  get_transaction_receipt_sound tx_hash payloads receipt h =
      let (found, p, h1) = >>=-eq-ok (rpc.get_transaction_receipt tx_hash) _ h in
      let (block_number, payload, receipts, q, r, s, t, u) =
        check_found_receipt_lem tx_hash found payloads receipt h1 in
      (block_number, payload, receipts, p ∙ ap ok q, r, s, t, u)
