-- ===== src/Execution/Evm/Proven.antt =====
-- The accounts, code and storage that the database gives are proven.
use forcerelay_verifier.Prelude.{
  ℕ, ◌≡◌, refl, sym, ap, subst, ◌∙◌, false, Option, none, some, List, [], ◌∷◌, All, HashMap,
  hash_get, All-hash_get, ok, err, panic, ok_or-eq-ok, unwrap, map_err, ◌>>=◌, >>=-eq-ok,
  ok-injective, some-injective, Outcome,
}
use forcerelay_verifier.Common.{Bytes, from_slice}
use forcerelay_verifier.Consensus.Blocks.{ExecutionPayload, fields}
use forcerelay_verifier.Execution.Errors.{Report, Result, rpc_error}
use forcerelay_verifier.Execution.Primitives.{Primitives, AccessListItem}
use forcerelay_verifier.Execution.Types.{Account, CallOpts}
use forcerelay_verifier.Execution.Rpc.{ExecutionRpc}
use forcerelay_verifier.Execution.Client
use forcerelay_verifier.Execution.Client.Accounts.{IsProvenAccount, IsProvenSlot, get_account_sound}
use forcerelay_verifier.Execution.Evm.{
  Revm, Callbacks, AccountInfo, add_fetched, all_entries, chunks, parallel_query_batch_size,
  fetch_chunk, fetch_chunks, batch_fetch_accounts,
}
use forcerelay_verifier.Execution.Evm.Database.{
  ProofDb, is_precompile, join_task, fetch_account, basic, fetch_slot, known_slot, storage,
  callbacks,
}

module _ ⦃lib : Primitives⦄ (rpc : ExecutionRpc) (payload : ExecutionPayload) where
  -- Each account of the map is proven at its address.
  abbrev pub AreProven : HashMap Account → Type 0
  AreProven = All (λ (entry : Bytes × Account). IsProvenAccount rpc entry.0 payload entry.1)

  -- What an account that a callback returns is worth.
  abbrev pub IsInfoOf : Bytes → AccountInfo → Type 0
  IsInfoOf address info =
      (account : Account) × IsProvenAccount rpc address payload account
      × (info.balance ≡ account.balance)
      × (info.nonce ≡ account.nonce)
      × (info.bytecode ≡ account.code)

  abbrev pub IsValueOf : Bytes → Bytes → ℕ → Type 0
  IsValueOf address slot value =
      (account : Account) × IsProvenAccount rpc address payload account
      × IsProvenSlot rpc account.storage_hash (slot, value)

  -- Each account that is no precompile, and each slot, that the callbacks return is proven.
  pub record SeesProven (cb : Callbacks) : Type 0 where
    pub accounts :
        (address : Bytes) (info : AccountInfo)
        → is_precompile address ≡ false
        → cb.basic address ≡ ok (some info)
        → IsInfoOf address info
    pub slots :
        (address : Bytes) (slot value : ℕ)
        → cb.storage address slot ≡ ok value
        → IsValueOf address (lib.h256_from_uint slot) value

  slot_of :
      (address slot : Bytes) (value : ℕ) (account : Account)
      → IsProvenAccount rpc address payload account
      → hash_get slot account.slots ≡ some value
      → IsValueOf address slot value
  slot_of address slot value account proven e = (
    account,
    proven,
    subst (λ h. IsProvenSlot rpc h (slot, value)) (sym proven.storage_hash_eq)
        (All-hash_get (IsProvenSlot rpc proven.proof.storage_hash) slot account.slots
          proven.slots_proven e),
  )

  add_fetched-AreProven :
      (address : Bytes) (call : Result Account) (accounts : HashMap Account)
      {next : HashMap Account}
      → ((account : Account) → call ≡ ok account → IsProvenAccount rpc address payload account)
      → AreProven accounts
      → add_fetched address call accounts ≡ ok next
      → AreProven next
  add_fetched-AreProven address (ok account) accounts sound h e =
      subst AreProven (ok-injective e) (sound account refl, h)
  add_fetched-AreProven address (err x) accounts sound h e = subst AreProven (ok-injective e) h
  add_fetched-AreProven address panic accounts sound h e = cc

module _ ⦃lib : Primitives⦄ (rpc : ExecutionRpc) (payload : ExecutionPayload)
    (empty_code : lib.keccak256 [] ≡ lib.keccak_empty) where
  fetch_chunk-AreProven :
      (chunk : List AccessListItem) (accounts : HashMap Account) {fetched : HashMap Account}
      → AreProven rpc payload accounts
      → fetch_chunk rpc payload chunk accounts ≡ ok fetched
      → AreProven rpc payload fetched
  unfolding fetch_chunk
  fetch_chunk-AreProven [] accounts h e = subst (AreProven rpc payload) (ok-injective e) h
  fetch_chunk-AreProven (x ∷ chunk) accounts h e =
      let call = Client.get_account rpc x.address (some x.storage_keys) payload in
      let (next, p, q) = >>=-eq-ok (add_fetched x.address call accounts) _ e in
      fetch_chunk-AreProven chunk next
        (add_fetched-AreProven rpc payload x.address call accounts
          (λ account f.
            get_account_sound rpc x.address (some x.storage_keys) payload account empty_code f)
          h p)
        q

  fetch_chunks-AreProven :
      (chunks : List (List AccessListItem)) (accounts : HashMap Account) {fetched : HashMap Account}
      → AreProven rpc payload accounts
      → fetch_chunks rpc payload chunks accounts ≡ ok fetched
      → AreProven rpc payload fetched
  unfolding fetch_chunks
  fetch_chunks-AreProven [] accounts h e = subst (AreProven rpc payload) (ok-injective e) h
  fetch_chunks-AreProven (chunk ∷ chunks) accounts h e =
      let (next, p, q) = >>=-eq-ok (fetch_chunk rpc payload chunk accounts) _ e in
      fetch_chunks-AreProven chunks next (fetch_chunk-AreProven chunk accounts h p) q

  pub batch_fetch_accounts-AreProven :
      (opts : CallOpts) {fetched : HashMap Account}
      → batch_fetch_accounts rpc payload opts ≡ ok fetched
      → AreProven rpc payload fetched
  unfolding batch_fetch_accounts
  batch_fetch_accounts-AreProven opts e =
      let (list, p, e1) =
        >>=-eq-ok (map_err (rpc.create_access_list opts (fields payload).block_number) rpc_error) _
          e in
      let (producer, q, e2) =
        >>=-eq-ok (unwrap (from_slice 20 (fields payload).fee_recipient)) _ e1 in
      fetch_chunks-AreProven
        (chunks parallel_query_batch_size (all_entries rpc payload opts list producer)) [] tt e2

module _ ⦃lib : Primitives⦄ (rpc : ExecutionRpc) (db : ProofDb)
    (empty_code : lib.keccak256 [] ≡ lib.keccak_empty)
    (proven : AreProven rpc db.current_payload db.accounts) where
  join_task_lem : {A : Type 0} (call : Result A) {a : A} → join_task call ≡ ok a → call ≡ ok a
  join_task_lem (ok a) e = ap ok (ok-injective e)
  join_task_lem (err x) e = cc
  join_task_lem panic e = cc

  fetch_account-proven :
      (address : Bytes) (slots : List Bytes) {account : Account}
      → fetch_account rpc db address slots ≡ ok account
      → IsProvenAccount rpc address db.current_payload account
  unfolding fetch_account
  fetch_account-proven address slots {account} e =
      get_account_sound rpc address (some slots) db.current_payload account empty_code
        (join_task_lem _ e)

  fetch_slot-IsValueOf :
      (address slot : Bytes) {value : ℕ}
      → fetch_slot rpc db address slot ≡ ok value
      → IsValueOf rpc db.current_payload address slot value
  unfolding fetch_slot
  fetch_slot-IsValueOf address slot {value} e =
      let (account, p, q) = >>=-eq-ok (fetch_account rpc db address (slot ∷ [])) _ e in
      slot_of rpc db.current_payload address slot value account
        (fetch_account-proven address (slot ∷ []) p) (ok_or-eq-ok _ _ q)

  known_slot-IsValueOf :
      (address slot : Bytes) (known : Option Account) {value : ℕ}
      → ((account : Account)
          → known ≡ some account
          → IsProvenAccount rpc address db.current_payload account)
      → known_slot rpc db address slot known ≡ ok value
      → IsValueOf rpc db.current_payload address slot value
  unfolding known_slot
  known_slot-IsValueOf address slot none sound e = fetch_slot-IsValueOf address slot e
  known_slot-IsValueOf address slot (some account) {value} sound e =
      go (hash_get slot account.slots) refl e
    where
      go :
          (found : Option ℕ)
          → hash_get slot account.slots ≡ found
          → (elim found [ some v ↦ ok v | none ↦ fetch_slot rpc db address slot ]) ≡ ok value
          → IsValueOf rpc db.current_payload address slot value
      go none p q = fetch_slot-IsValueOf address slot q
      go (some v) p q =
          slot_of rpc db.current_payload address slot value account (sound account refl)
            (p ∙ ap some (ok-injective q))

  known-proven :
      (address : Bytes) (account : Account)
      → hash_get address db.accounts ≡ some account
      → IsProvenAccount rpc address db.current_payload account
  known-proven address account e =
      All-hash_get
        (λ (entry : Bytes × Account). IsProvenAccount rpc entry.0 db.current_payload entry.1)
        address db.accounts proven e

  basic-IsInfoOf :
      (evm : Revm) (address : Bytes) (info : AccountInfo)
      → is_precompile address ≡ false
      → basic rpc db evm address ≡ ok (some info)
      → IsInfoOf rpc db.current_payload address info
  unfolding basic
  basic-IsInfoOf evm address info plain e = go (hash_get address db.accounts) refl (rw plain at e)
    where
      info_of :
          (account : Account)
          → IsProvenAccount rpc address db.current_payload account
          → Path AccountInfo
              (record { balance = account.balance; nonce = account.nonce; bytecode = account.code })
              info
          → IsInfoOf rpc db.current_payload address info
      info_of account p q = (
        account,
        p,
        ap (λ i. i.balance) (sym q),
        ap (λ i. i.nonce) (sym q),
        ap (λ i. i.bytecode) (sym q),
      )

      go :
          (found : Option Account)
          → hash_get address db.accounts ≡ found
          → ((elim found as (λ _. Outcome Report Account) [
            | some account ↦ ok account
            | none ↦ fetch_account rpc db address []
          ])
              >>= λ account. ok (
                  some (record {
                    balance = account.balance;
                    nonce = account.nonce;
                    bytecode = account.code;
                  })))
            ≡ ok (some info)
          → IsInfoOf rpc db.current_payload address info
      go none p q =
          let (account, r, s) = >>=-eq-ok (fetch_account rpc db address []) _ q in
          info_of account (fetch_account-proven address [] r) (some-injective (ok-injective s))
      go (some account) p q =
          info_of account (known-proven address account p) (some-injective (ok-injective q))

  pub callbacks-SeesProven : (evm : Revm) → SeesProven rpc db.current_payload (callbacks rpc db evm)
  unfolding callbacks storage
  callbacks-SeesProven evm = record {
    accounts = basic-IsInfoOf evm;
    slots = λ address slot value e.
        known_slot-IsValueOf address (lib.h256_from_uint slot) (hash_get address db.accounts)
          (known-proven address) e;
  }
