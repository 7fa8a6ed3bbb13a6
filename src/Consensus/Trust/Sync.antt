-- ===== src/Consensus/Trust/Sync.antt =====
-- `sync` and `advance` keep the store on the chain of trust, whatever the server answers.
use forcerelay_verifier.Prelude.{
  ◌≡◌, refl, sym, ◌∙◌, ◌⊎◌, inl, inr, arith, ok, err, panic, Outcome-cases, ap,
}
use forcerelay_verifier.Config.Types.{Config}
use forcerelay_verifier.Consensus.Types.{Bootstrap}
use forcerelay_verifier.Consensus.Errors.{Result, ConsensusError, other}
use forcerelay_verifier.Consensus.Primitives.{Primitives}
use forcerelay_verifier.Consensus.State.{ConsensusClient, ClientMethod}
use forcerelay_verifier.Consensus.Rpc.{ConsensusRpc}
use forcerelay_verifier.Consensus.Bootstrap.{initial_store, check_bootstrap}
use forcerelay_verifier.Common.Method.{bind_ok, bind_err, bind_panic}
use forcerelay_verifier.Consensus.Sync.{Clock, boot, sync, advance}
use forcerelay_verifier.Consensus.Sync.Keeps.{advance-Keeps, catch_up-Keeps, catch_up}
use forcerelay_verifier.Consensus.Trust.{IsAuthentic, trusted_committee, trusted_header}
use forcerelay_verifier.Consensus.Trust.Invariant.{apply_generic_update-IsAuthentic}

module _ ⦃lib : Primitives⦄ where
  -- A store that rests on the chain of trust still does after `advance`, whatever the server answers
  -- and also where `advance` returns an error half way.
  pub advance-IsAuthentic :
      (config : Config) (root : Bootstrap) (rpc : ConsensusRpc) (clock : Clock)
      (client : ConsensusClient)
      → IsAuthentic config root client
      → IsAuthentic config root (advance rpc clock client).1
  advance-IsAuthentic config root rpc clock client h =
      (advance-Keeps (IsAuthentic config root)
          (λ c now now₁ now₂ u d inv b v e.
            apply_generic_update-IsAuthentic config root c now now₁ now₂ u inv b v e)
          rpc clock).at
        client h

  initial-IsAuthentic :
      (client : ConsensusClient) (b : Bootstrap)
      → IsAuthentic client.config b (record client { store = initial_store b })
  unfolding initial_store
  initial-IsAuthentic client b = record {
    same_config = refl;
    current = trusted_committee refl;
    next = λ committee e. cc;
    finalized = trusted_header;
    optimistic = trusted_header;
  }

  module _ (rpc : ConsensusRpc) (clock : Clock) (client : ConsensusClient) where
    boot_ok :
        (b : Bootstrap)
        → rpc.get_bootstrap client.initial_checkpoint ≡ ok b
        → check_bootstrap (clock 0) b client ≡ ok tt
        → boot rpc (clock 0) client ≡ (ok tt, record client { store = initial_store b })
    unfolding boot
    boot_ok b e f = ground arith

    boot_err :
        (b : Bootstrap) (x : ConsensusError)
        → rpc.get_bootstrap client.initial_checkpoint ≡ ok b
        → check_bootstrap (clock 0) b client ≡ err x
        → boot rpc (clock 0) client ≡ (err x, client)
    unfolding boot
    boot_err b x e f = ground arith

    boot_panic :
        (b : Bootstrap)
        → rpc.get_bootstrap client.initial_checkpoint ≡ ok b
        → check_bootstrap (clock 0) b client ≡ panic
        → boot rpc (clock 0) client ≡ (panic, client)
    unfolding boot
    boot_panic b e f = ground arith

    boot_unanswered :
        (x : ConsensusError)
        → rpc.get_bootstrap client.initial_checkpoint ≡ err x
        → boot rpc (clock 0) client ≡ (err other, client)
    unfolding boot
    boot_unanswered x e = ground arith

    boot_unanswered_panic :
        rpc.get_bootstrap client.initial_checkpoint ≡ panic
        → boot rpc (clock 0) client ≡ (panic, client)
    unfolding boot
    boot_unanswered_panic e = ground arith

    rest : Unit {0} → ClientMethod (Unit {0})
    rest _ = catch_up rpc clock

    booted :
        (b : Bootstrap)
        → rpc.get_bootstrap client.initial_checkpoint ≡ ok b
        → check_bootstrap (clock 0) b client ≡ ok tt
        → IsAuthentic client.config b (sync rpc clock client).1
    unfolding sync rest
    booted b e f =
        rw
          (ap (λ (p : Result (Unit {0}) × ConsensusClient). p.1)
            (bind_ok (boot rpc (clock 0)) rest client (boot_ok b e f)))
          ((catch_up-Keeps (IsAuthentic client.config b)
              (λ c now now₁ now₂ u d inv br v a.
                apply_generic_update-IsAuthentic client.config b c now now₁ now₂ u inv br v a)
              rpc clock).at
            (record client { store = initial_store b }) (initial-IsAuthentic client b))

    -- an end that is no return
    abbrev Stops : Result (Unit {0}) → Type 0
    Stops r = ((x : ConsensusError) × (r ≡ err x)) ⊎ (r ≡ panic)

    stopped :
        (r : Result (Unit {0}))
        → Stops r
        → boot rpc (clock 0) client ≡ (r, client)
        → (r : Result (Unit {0})) × Stops r × (sync rpc clock client ≡ (r, client))
    unfolding sync rest
    stopped r (inl (x, p)) e =
        (err x, inl (x, refl), bind_err (boot rpc (clock 0)) rest client {e = x} (rw (← p) e))
    stopped r (inr p) e =
        (panic, inr refl, bind_panic (boot rpc (clock 0)) rest client (rw (← p) e))

    -- the server gave a bootstrap that passed its checks, and the store rests on it
    abbrev pub IsBooted : Bootstrap → Type 0
    IsBooted b =
        (rpc.get_bootstrap client.initial_checkpoint ≡ ok b)
        × (check_bootstrap (clock 0) b client ≡ ok tt)
        × IsAuthentic client.config b (sync rpc clock client).1

    sync-cases :
        ((r : Result (Unit {0})) × Stops r × (sync rpc clock client ≡ (r, client)))
        ⊎ ((b : Bootstrap) × IsBooted b)
    sync-cases = elim (Outcome-cases (rpc.get_bootstrap client.initial_checkpoint)) [
      | inl (b, e) ↦ elim (Outcome-cases (check_bootstrap (clock 0) b client)) [
        | inl (_, f) ↦ inr (b, (e, f, booted b e f))
        | inr (inl (x, f)) ↦ inl (stopped (err x) (inl (x, refl)) (boot_err b x e f))
        | inr (inr f) ↦ inl (stopped panic (inr refl) (boot_panic b e f))
      ]
      | inr (inl (x, e)) ↦ inl (stopped (err other) (inl (other, refl)) (boot_unanswered x e))
      | inr (inr e) ↦ inl (stopped panic (inr refl) (boot_unanswered_panic e))
    ]

    -- `sync` leaves the client as it was, or the server gave a bootstrap that passed its checks, and
    -- the store rests on the chain of trust from that bootstrap, also where `sync` returns an error.
    pub sync-IsAuthentic :
        ((sync rpc clock client).1 ≡ client)
        ⊎ ((b : Bootstrap) × (rpc.get_bootstrap client.initial_checkpoint ≡ ok b)
            × (check_bootstrap (clock 0) b client ≡ ok tt)
            × IsAuthentic client.config b (sync rpc clock client).1)
    sync-IsAuthentic = elim sync-cases [
      | inl (r, _, e) ↦ inl (ap (λ (q : Result (Unit {0}) × ConsensusClient). q.1) e)
      | inr (b, (e, f, h)) ↦ inr (b, e, f, h)
    ]

    -- Where `sync` returns, the second case holds.
    pub synced-IsBooted : (sync rpc clock client).0 ≡ ok tt → (b : Bootstrap) × IsBooted b
    synced-IsBooted returned = elim sync-cases [
      | inl (r, stops, e) ↦ absurd (
          not_ok r stops (sym (ap (λ (q : Result (Unit {0}) × ConsensusClient). q.0) e) ∙ returned))
      | inr booted ↦ booted
    ]
      where
        not_ok : (r : Result (Unit {0})) → Stops r → r ≡ ok tt → ⊥
        not_ok (ok u) (inl (x, p)) e = cc
        not_ok (ok u) (inr p) e = cc
        not_ok (err x) stops e = cc
        not_ok panic stops e = cc
