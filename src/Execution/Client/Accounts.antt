-- ===== src/Execution/Client/Accounts.antt =====
-- What an account that the client returns is worth.
use forcerelay_verifier.Prelude.{
  ℕ, ◌≡◌, refl, true, false, Bool, Option, some, List, [], ◌∷◌, bytes_eq, bytes_eq→eq, unwrap_or,
  subst, inl, inr, if◌then◌else◌, ok, err, ok_or, guard, >>=-eq-ok, guard-eq-ok, ok-injective,
  Bool-cases, All, ap, sym, ◌∙◌, ok_or-eq-ok,
}
use forcerelay_verifier.Common.{Bytes, hex_str_to_bytes}
use forcerelay_verifier.Consensus.Blocks.{ExecutionPayload, fields}
use forcerelay_verifier.Execution.Errors.{ExecutionError, Result}
use forcerelay_verifier.Execution.Primitives.{Primitives, ProofResponse, StorageProof}
use forcerelay_verifier.Execution.Types.{Account, SlotMap}
use forcerelay_verifier.Execution.Rpc.{ExecutionRpc}
use forcerelay_verifier.Execution.Proof.{encode_account, verify_proof}
use forcerelay_verifier.Execution.Client.{verify_storage, verified_code, get_account}

module _ ⦃lib : Primitives⦄ (rpc : ExecutionRpc) where
  -- The slot's value has a proof under the storage hash.
  abbrev pub IsProvenSlot : Bytes → Bytes × ℕ → Type 0
  IsProvenSlot storage_hash (slot, value) =
      (key : Bytes) × (proof : List Bytes) × (hex_str_to_bytes lib.hex_decode (lib.encode_hex slot)
        ≡ some key)
      × (verify_proof proof storage_hash (lib.keccak256 key) (lib.encode_uint value) ≡ ok true)

  verify_storage-step :
      (address storage_hash : Bytes) (storage_proof : StorageProof) (proofs : List StorageProof)
      (slots result : SlotMap)
      → verify_storage rpc address storage_hash (storage_proof ∷ proofs) slots ≡ ok result
      → IsProvenSlot storage_hash (storage_proof.key, storage_proof.value)
        × (verify_storage rpc address storage_hash proofs
              ((storage_proof.key, storage_proof.value) ∷ slots)
            ≡ ok result)
  unfolding verify_storage
  verify_storage-step address storage_hash storage_proof proofs slots result h =
      let (key, p, h1) =
        >>=-eq-ok
          (ok_or (hex_str_to_bytes lib.hex_decode (lib.encode_hex storage_proof.key))
            ExecutionError.other)
          _ h in
      let (is_valid, q, h2) =
        >>=-eq-ok
          (verify_proof storage_proof.proof storage_hash (lib.keccak256 key)
            (lib.encode_uint storage_proof.value))
          _ h1 in
      let (valid, rest) = if_lem is_valid _ _ h2 in
      ((key, storage_proof.proof, ok_or-eq-ok _ _ p, q ∙ ap ok valid), rest)
    where
      if_lem :
          (b : Bool) (call : Result SlotMap) (e : ExecutionError)
          → (if b then call else err e) ≡ ok result
          → (b ≡ true) × (call ≡ ok result)
      if_lem true call e eq = (refl, eq)
      if_lem false call e eq = cc

  verify_storage-IsProvenSlot :
      (address storage_hash : Bytes) (proofs : List StorageProof) (slots result : SlotMap)
      → All (IsProvenSlot storage_hash) slots
      → verify_storage rpc address storage_hash proofs slots ≡ ok result
      → All (IsProvenSlot storage_hash) result
  unfolding verify_storage
  verify_storage-IsProvenSlot address storage_hash [] slots result all h =
      subst (All (IsProvenSlot storage_hash)) (ok-injective h) all
  verify_storage-IsProvenSlot address storage_hash (storage_proof ∷ proofs) slots result all h =
      let (p, rest) =
        verify_storage-step address storage_hash storage_proof proofs slots result h in
      verify_storage-IsProvenSlot address storage_hash proofs _ result (p, all) rest

  verified_code_hash :
      (address : Bytes) (block_number : ℕ) (code_hash code : Bytes)
      → lib.keccak256 [] ≡ lib.keccak_empty
      → verified_code rpc address block_number code_hash ≡ ok code
      → lib.keccak256 code ≡ code_hash
  unfolding verified_code
  verified_code_hash address block_number code_hash code e h =
      elim (Bool-cases (bytes_eq code_hash lib.keccak_empty)) [
        | inl p ↦ ap lib.keccak256 (sym (ok-injective (rw p at h))) ∙ e ∙ sym (bytes_eq→eq _ _ p)
        | inr p ↦
            let (found, q, h1) = >>=-eq-ok (rpc.get_code address block_number) _ (rw p at h) in
            let (u, r, h2) = >>=-eq-ok (guard (bytes_eq code_hash (lib.keccak256 found)) _) _ h1 in
            ap lib.keccak256 (sym (ok-injective h2)) ∙ sym (bytes_eq→eq _ _ (guard-eq-ok _ _ r))
      ]

  -- What an account proves: the RPC answered with a proof of its encoding under the state root, each
  -- slot has a proof under its storage hash, and its code has its code hash.
  pub record IsProvenAccount (address : Bytes) (payload : ExecutionPayload) (account : Account)
      : Type 0 where
    pub proof : ProofResponse
    pub account_proven :
        verify_proof proof.account_proof
          (fields payload).state_root
          (lib.keccak256 address)
          (encode_account proof)
        ≡ ok true
    pub balance_eq : account.balance ≡ proof.balance
    pub nonce_eq : account.nonce ≡ proof.nonce
    pub storage_hash_eq : account.storage_hash ≡ proof.storage_hash
    pub code_hash_eq : account.code_hash ≡ proof.code_hash
    pub slots_proven : All (IsProvenSlot proof.storage_hash) account.slots
    pub code_has_hash : lib.keccak256 account.code ≡ account.code_hash

  -- When revm's hash of empty code is the hash of the empty byte string, an account that is returned
  -- is proven: its nonce, balance, storage hash and code hash by a proof against the state root of
  -- the payload, each of its slots by a proof against its storage hash, and its code by its hash.
  pub get_account_sound :
      (address : Bytes) (slots : Option (List Bytes)) (payload : ExecutionPayload)
      (account : Account)
      → lib.keccak256 [] ≡ lib.keccak_empty
      → get_account rpc address slots payload ≡ ok account
      → IsProvenAccount address payload account
  unfolding get_account
  get_account_sound address slots payload account e h =
      let (proof, p, h1) =
        >>=-eq-ok (rpc.get_proof address (unwrap_or slots []) (fields payload).block_number) _ h in
      let (is_valid, q, h2) = >>=-eq-ok (verify_proof proof.account_proof _ _ _) _ h1 in
      let (u, r, h3) = >>=-eq-ok (guard is_valid _) _ h2 in
      let (slot_map, s, h4) =
        >>=-eq-ok (verify_storage rpc address proof.storage_hash proof.storage_proof []) _ h3 in
      let (code, t, h5) = >>=-eq-ok (verified_code rpc address _ proof.code_hash) _ h4 in
      subst (IsProvenAccount address payload) (ok-injective h5) (record {
        proof = proof;
        account_proven = q ∙ ap ok (guard-eq-ok _ _ r);
        balance_eq = refl;
        nonce_eq = refl;
        storage_hash_eq = refl;
        code_hash_eq = refl;
        slots_proven =
            verify_storage-IsProvenSlot address proof.storage_hash proof.storage_proof [] slot_map
              tt s;
        code_has_hash = verified_code_hash address _ proof.code_hash code e t;
      })
