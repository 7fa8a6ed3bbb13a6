-- ===== src/Execution/Evm/Sound.antt =====
-- `call` and `estimate_gas` run on what is proven.
use forcerelay_verifier.Prelude.{
  ℕ, ◌≡◌, refl, sym, ap, ◌⊎◌, inl, inr, Bool, true, false, ◌||◌, ◌==◌, Option, none, some, [],
  HashMap, ==_iff, if◌then◌else◌, ok, err, >>=-eq-ok, ok-injective,
}
use forcerelay_verifier.Common.{Bytes, Text}
use forcerelay_verifier.Execution.Errors.{generic, revm}
use forcerelay_verifier.Execution.Primitives.{Primitives}
use forcerelay_verifier.Execution.Types.{Account, CallOpts}
use forcerelay_verifier.Execution.Rpc.{ExecutionRpc}
use forcerelay_verifier.Execution.Evm.{
  Revm, Env, TransactOut, TransactResult, EvmResult, none_out, create_out, call_out,
  batch_fetch_accounts, get_env,
}
use forcerelay_verifier.Execution.Evm.Database.{
  ProofDb, set_accounts, callbacks, revert_with, call_output, run, check_exit, call, estimate_gas,
}
use forcerelay_verifier.Execution.Evm.Proven.{
  SeesProven, callbacks-SeesProven, batch_fetch_accounts-AreProven,
}

module _ ⦃lib : Primitives⦄ (evm : Revm) (rpc : ExecutionRpc) (chain_id : ℕ) (db : ProofDb)
    (empty_code : lib.keccak256 [] ≡ lib.keccak_empty) where
  -- A run in the environment of the call over callbacks that see what is proven.
  pub record IsProvenRun (opts : CallOpts) (tx : TransactResult) : Type 0 where
    pub env : Env
    pub accounts : HashMap Account
    pub has_env : get_env rpc db.current_payload chain_id opts ≡ ok env
    pub sees_proven :
        SeesProven rpc db.current_payload (callbacks rpc (set_accounts accounts db) evm)
    pub transacts : tx ≡ evm.transact env (callbacks rpc (set_accounts accounts db) evm)

  run-IsProvenRun :
      (opts : CallOpts) {tx : TransactResult}
      → run evm rpc chain_id db opts ≡ ok tx
      → IsProvenRun opts tx
  unfolding run set_accounts
  run-IsProvenRun opts e =
      let (accounts, p, e1) = >>=-eq-ok (batch_fetch_accounts rpc db.current_payload opts) _ e in
      let (env, q, e2) = >>=-eq-ok (get_env rpc db.current_payload chain_id opts) _ e1 in
      record {
        env = env;
        accounts = accounts;
        has_env = q;
        sees_proven =
            callbacks-SeesProven rpc (set_accounts accounts db) empty_code
              (batch_fetch_accounts-AreProven rpc db.current_payload empty_code opts p) evm;
        transacts = sym (ok-injective e2);
      }

  check_exit_lem :
      {A : Type 0} (tx : TransactResult) (rest : EvmResult A) {a : A}
      → check_exit evm rpc chain_id db tx rest ≡ ok a
      → ((tx.exit_reason ≡ evm.return_return) ⊎ (tx.exit_reason ≡ evm.return_stop)) × (rest ≡ ok a)
  unfolding check_exit
  check_exit_lem {A} tx rest {a} e =
      go (tx.exit_reason == evm.return_revert) (tx.exit_reason == evm.return_return)
        (tx.exit_reason == evm.return_stop) refl refl db.error e
    where
      never : (out : TransactOut) → ¬ (revert_with {A = A} out ≡ ok a)
      never none_out e = cc
      never create_out e = cc
      never (call_out bytes) e = cc

      go :
          (reverts returns stops : Bool)
          → (tx.exit_reason == evm.return_return) ≡ returns
          → (tx.exit_reason == evm.return_stop) ≡ stops
          → (error : Option Text)
          → (if reverts
              then revert_with {A = A} tx.out
              else if returns || stops
              then elim error as (λ _. EvmResult A) [ some x ↦ err generic | none ↦ rest ]
              else err (revm tx.exit_reason))
            ≡ ok a
          → ((tx.exit_reason ≡ evm.return_return) ⊎ (tx.exit_reason ≡ evm.return_stop))
            × (rest ≡ ok a)
      go true returns stops p q error e = absurd (never tx.out e)
      go false true stops p q none e = (inl ((==_iff _ _).0 p), e)
      go false true stops p q (some x) e = cc
      go false false true p q none e = (inr ((==_iff _ _).0 q), e)
      go false false true p q (some x) e = cc
      go false false false p q error e = cc

  -- When the hash of the empty byte string is revm's hash of empty code, the bytes of a call that
  -- succeeds are the output of a run that returned or stopped, in the environment of the call, and
  -- whose database gave it only proven accounts and slots, but for precompiled contracts.
  pub call_sound :
      (opts : CallOpts) {bytes : Bytes}
      → call evm rpc chain_id db opts ≡ ok bytes
      → (tx : TransactResult) × IsProvenRun opts tx
        × ((tx.exit_reason ≡ evm.return_return) ⊎ (tx.exit_reason ≡ evm.return_stop))
        × (tx.out ≡ call_out bytes)
  unfolding call
  call_sound opts e =
      let (tx, p, q) = >>=-eq-ok (run evm rpc chain_id db opts) _ e in
      let (ended, r) = check_exit_lem tx (call_output tx.out) q in
      (tx, run-IsProvenRun opts p, ended, output tx.out r)
    where
      output :
          {bytes : Bytes} (out : TransactOut) → call_output out ≡ ok bytes → out ≡ call_out bytes
      output none_out e = cc
      output create_out e = cc
      output (call_out b) e = ap call_out (ok-injective e)

  -- On the same condition, a gas estimate is the scaled gas of such a run.
  pub estimate_gas_sound :
      (opts : CallOpts) {gas : ℕ}
      → estimate_gas evm rpc chain_id db opts ≡ ok gas
      → (tx : TransactResult) × IsProvenRun opts tx
        × ((tx.exit_reason ≡ evm.return_return) ⊎ (tx.exit_reason ≡ evm.return_stop))
        × (gas ≡ evm.scale_gas tx.gas_used)
  unfolding estimate_gas
  estimate_gas_sound opts e =
      let (tx, p, q) = >>=-eq-ok (run evm rpc chain_id db opts) _ e in
      let (ended, r) = check_exit_lem tx _ q in
      (tx, run-IsProvenRun opts p, ended, sym (ok-injective r))
