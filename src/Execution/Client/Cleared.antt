-- ===== src/Execution/Client/Cleared.antt =====
-- execution/src/execution.rs: a server that answers with a cut storage proof clears a slot.
use forcerelay_verifier.Prelude.{
  Bool, false, Option, unwrap_or, err, ok_or, if◌then◌else◌, ◌*◌, ◌<◌, ◌≡◌, refl, sym, ap, ◌∙◌,
  true, some, List, [], ◌∷◌, ◌++◌, length, u64_mod, ok, >>=-eq-ok, ok_or-eq-ok, subst, ok-injective,
  guard,
}
use forcerelay_verifier.Common.{Bytes, hex_str_to_bytes}
use forcerelay_verifier.Consensus.Blocks.{ExecutionPayload, fields}
use forcerelay_verifier.Execution.Primitives.{Primitives, ProofResponse, StorageProof}
use forcerelay_verifier.Execution.Rpc.{ExecutionRpc}
use forcerelay_verifier.Execution.Types.{Account, SlotMap}
use forcerelay_verifier.Execution.Proof.{is_empty_value, verify_proof, encode_account}
use forcerelay_verifier.Execution.Proof.Soundness.{HasCountedPaths}
use forcerelay_verifier.Execution.Proof.Truncated.{truncated_proof_accepted}
use forcerelay_verifier.Execution.Client.{verify_storage, verified_code, get_account}
use forcerelay_verifier.Execution.Errors.{Result, invalid_storage_proof, other}

module _ ⦃lib : Primitives⦄ (rpc : ExecutionRpc) (proof : ProofResponse) (sent : StorageProof)
    (before : List Bytes) (node : Bytes) where
  -- the storage proof, cut behind `node`, for the value 0
  abbrev pub cleared : StorageProof
  cleared = record sent { value = 0; proof = before ++ (node ∷ []) }

  -- the same server, but for the storage proof
  abbrev pub clearing : ExecutionRpc
  clearing = record rpc {
    get_proof = λ address slots block. ok (record proof { storage_proof = cleared ∷ [] });
  }

  module _ (later items : List Bytes) (next node_path child : Bytes)
      (zero_is_empty : is_empty_value (lib.encode_uint 0) ≡ true)
      (short : lib.decode_list node ≡ some (node_path ∷ child ∷ []))
      (full : lib.decode_list next ≡ some items) (full_length : length items ≡ 17)
      (counted : HasCountedPaths lib)
      (few : (bytes : Bytes) → length (lib.keccak256 bytes) * 2 < u64_mod)
      (cut : sent.proof ≡ before ++ (node ∷ next ∷ later)) where
    -- the key that the slot is looked up under, and the acceptance of the proof that was sent
    sent_accepted :
        (address storage_hash : Bytes) {slots : SlotMap}
        → verify_storage rpc address storage_hash (sent ∷ []) [] ≡ ok slots
        → (key : Bytes) × (hex_str_to_bytes lib.hex_decode (lib.encode_hex sent.key) ≡ some key)
          × (verify_proof sent.proof storage_hash (lib.keccak256 key) (lib.encode_uint sent.value)
              ≡ ok true)
    unfolding verify_storage
    sent_accepted address storage_hash e =
        let (key, p, e1) =
          >>=-eq-ok (ok_or (hex_str_to_bytes lib.hex_decode (lib.encode_hex sent.key)) other) _ e in
        let (is_valid, q, e2) =
          >>=-eq-ok
            (verify_proof sent.proof storage_hash (lib.keccak256 key) (lib.encode_uint sent.value))
            _ e1 in
        (key, ok_or-eq-ok _ _ p, q ∙ ap ok (valid _ is_valid e2))
      where
        valid :
            (r : SlotMap) {slots : SlotMap} (is_valid : Bool)
            → Path
                (Result SlotMap)
                (if is_valid then ok r else err (invalid_storage_proof address sent.key))
                (ok slots)
            → is_valid ≡ true
        valid r true e = refl
        valid r false e = cc

    verify_storage-cleared :
        (address storage_hash : Bytes) {slots : SlotMap}
        → verify_storage rpc address storage_hash (sent ∷ []) [] ≡ ok slots
        → verify_storage clearing address storage_hash (cleared ∷ []) [] ≡ ok ((sent.key, 0) ∷ [])
    unfolding verify_storage
    verify_storage-cleared address storage_hash e =
        let (key, reads, accepted) = sent_accepted address storage_hash e in
        let cut_accepted =
          truncated_proof_accepted (lib.encode_uint 0) zero_is_empty node next node_path child later
            items short full full_length (lib.keccak256 key) (lib.encode_uint sent.value)
            storage_hash before (few key) counted
            (ap (λ p. verify_proof p storage_hash (lib.keccak256 key) (lib.encode_uint sent.value))
                (sym cut)
              ∙ accepted) in
        rw (reads, cut_accepted) refl

    -- When an account is returned with one slot, and the proof of the slot goes on to a branch node
    -- behind a node of two items, a server that gives the same account with that proof cut behind the
    -- node makes the client return the account with the value 0 in the slot. RLP writes 0 as one of
    -- the empty values, and a `usize` counts the nibbles of hashes and of the paths in nodes.
    pub get_account-cleared :
        (address : Bytes) (slots : Option (List Bytes)) (payload : ExecutionPayload)
        {account : Account}
        → rpc.get_proof address (unwrap_or slots []) (fields payload).block_number ≡ ok proof
        → proof.storage_proof ≡ sent ∷ []
        → get_account rpc address slots payload ≡ ok account
        → get_account clearing address slots payload
          ≡ ok (record account { slots = (sent.key, 0) ∷ [] })
    unfolding get_account verified_code encode_account
    get_account-cleared address slots payload {account = account} answers one e =
        let (answer, p, e1) =
          >>=-eq-ok (rpc.get_proof address (unwrap_or slots []) (fields payload).block_number) _
            e in
        let same = ok-injective (sym p ∙ answers) in
        let (is_valid, q, e2) =
          >>=-eq-ok (verify_proof proof.account_proof _ _ _) _ (rw same at e1) in
        let (u, r, e3) = >>=-eq-ok (guard is_valid _) _ e2 in
        let (slot_map, v, e4) =
          >>=-eq-ok (verify_storage rpc address proof.storage_hash proof.storage_proof []) _ e3 in
        let (code, c, e5) = >>=-eq-ok (verified_code rpc address _ proof.code_hash) _ e4 in
        let one_slot =
          subst (λ l. verify_storage rpc address proof.storage_hash l [] ≡ ok slot_map) one v in
        let returned : record {
          balance = proof.balance;
          nonce = proof.nonce;
          code_hash = proof.code_hash;
          code = code;
          storage_hash = proof.storage_hash;
          slots = slot_map;
        }
            ≡ account =
          ok-injective e5 in
        rw (q, r, verify_storage-cleared address proof.storage_hash one_slot, c)
          (ap {A = Account} (λ a. ok (record a { slots = (sent.key, 0) ∷ [] })) returned)
