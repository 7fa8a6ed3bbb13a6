-- ===== src/Consensus/Sync/Progress.antt =====
-- `advance` makes progress on a finality update that verifies.
use forcerelay_verifier.Prelude.{
  ℕ, ◌+◌, ◌≤◌, ◌<◌, ◌≡◌, sym, ◌∙◌, ap, subst, true, false, inl, inr, ok, is_none, arith,
}
use forcerelay_verifier.Common.Method.{
  bind_ok, writes_ok, writes, then_kept, Keeps-bind, Keeps-lift, Keeps-reads, Keeps-if, lift, reads,
}
use forcerelay_verifier.Consensus.Types.{
  GenericUpdate, FinalityUpdate, from_finality_update, from_optimistic_update,
}
use forcerelay_verifier.Consensus.Primitives.{Primitives}
use forcerelay_verifier.Consensus.State.{ConsensusClient}
use forcerelay_verifier.Consensus.Verify.{
  slot_or_zero, verify_optimistic_update, verify_generic_update, verify_finality_update,
}
use forcerelay_verifier.Consensus.Apply.{
  has_majority, should_apply_update, track_participation, advance_optimistic, advance_finalized,
  apply_generic_update, apply_finality_update, apply_optimistic_update,
}
use forcerelay_verifier.Consensus.Apply.Slots.{
  apply_finality-cases, apply_generic_update-parts, apply_generic_update-headers,
  advance_committees-headers,
}
use forcerelay_verifier.Consensus.Verify.Branches.{from_optimistic_update-HasBranches}
use forcerelay_verifier.Consensus.Rpc.{ConsensusRpc}
use forcerelay_verifier.Consensus.Sync.{
  Clock, advance, accept_latest, accept_finality_update, accept_optimistic_update,
}
use forcerelay_verifier.Consensus.Sync.Keeps.{accept-Keeps, IsKept, find_next_committee-Keeps}

module _ ⦃lib : Primitives⦄ where
  advance_finalized-newer :
      (now : ℕ) (u : GenericUpdate) (c : ConsensusClient) {d : ConsensusClient}
      → c.store.finalized_header.slot < slot_or_zero u.finalized_header
      → advance_finalized now u c ≡ ok d
      → slot_or_zero u.finalized_header ≤ d.store.finalized_header.slot
  unfolding advance_finalized
  advance_finalized-newer now u c newer e = ground arith

  advance_optimistic-finalized :
      (now : ℕ) (u : GenericUpdate) (c : ConsensusClient) {d : ConsensusClient}
      → advance_optimistic now u c ≡ ok d
      → d.store.finalized_header ≡ c.store.finalized_header
  unfolding advance_optimistic
  advance_optimistic-finalized now u c e = ground arith

  applies :
      (u : GenericUpdate) (c : ConsensusClient)
      → has_majority u ≡ true
      → c.store.finalized_header.slot < slot_or_zero u.finalized_header
      → should_apply_update u c.store ≡ false
      → ⊥
  unfolding should_apply_update
  applies u c majority newer e = ground arith

  apply_generic_update-newer :
      (now now' : ℕ) (u : GenericUpdate) (c : ConsensusClient) {d : ConsensusClient}
      → has_majority u ≡ true
      → c.store.finalized_header.slot < slot_or_zero u.finalized_header
      → apply_generic_update now now' u c ≡ ok d
      → slot_or_zero u.finalized_header ≤ d.store.finalized_header.slot
  unfolding track_participation
  apply_generic_update-newer now now' u c majority newer e =
      let (m, p, q) = apply_generic_update-parts u now now' c e in
      let same : m.store.finalized_header ≡ c.store.finalized_header =
        advance_optimistic-finalized now u (record c { store = track_participation u c.store }) p in
      let newer' = subst (λ h. h.slot < slot_or_zero u.finalized_header) (sym same) newer in
      elim (apply_finality-cases u now' m q) [
        | inl (skipped, _) ↦ absurd (applies u m majority newer' skipped)
        | inr (s, _, r, t) ↦
            advance_finalized-newer now' u (record m { store = s })
              (subst (λ h. h.slot < slot_or_zero u.finalized_header)
                (sym (advance_committees-headers u m.store r).0) newer')
              t
      ]

  abbrev HasReached : ℕ → ConsensusClient → Type 0
  HasReached slot client = slot ≤ client.store.finalized_header.slot

  HasReached-IsKept : (slot : ℕ) → IsKept (HasReached slot)
  HasReached-IsKept slot c now now₁ now₂ u d h b v e =
      omega (arith, h, (apply_generic_update-headers u now₁ now₂ c e).0)

  module _ (rpc : ConsensusRpc) (clock : Clock) (client : ConsensusClient) (f : FinalityUpdate)
      {next : ConsensusClient} where
    accepted :
        verify_generic_update client (clock 0) (from_finality_update f) ≡ ok tt
        → apply_generic_update (clock 1) (clock 2) (from_finality_update f) client ≡ ok next
        → accept_finality_update clock 0 f client ≡ (ok tt, next)
    unfolding accept_finality_update verify_finality_update apply_finality_update
    accepted v a =
        bind_ok (reads (λ c. verify_finality_update c (clock 0) f))
          (λ _. writes (apply_finality_update (clock 1) (clock 2) f)) client
          (ap (λ r. (r, client)) v)
        ∙ writes_ok (apply_finality_update (clock 1) (clock 2) f) client a

    -- The server's finality update moves the finalized header at once: when it verifies and applies,
    -- two thirds of the committee signed it, and its finalized header is newer than that of the
    -- store, then after `advance` the finalized header is at least as new, whatever else the server
    -- answers, and also when `advance` fails later on.
    pub advance_progresses :
        rpc.get_finality_update ≡ ok f
        → verify_generic_update client (clock 0) (from_finality_update f) ≡ ok tt
        → apply_generic_update (clock 1) (clock 2) (from_finality_update f) client ≡ ok next
        → has_majority (from_finality_update f) ≡ true
        → client.store.finalized_header.slot
          < slot_or_zero (from_finality_update f).finalized_header
        → slot_or_zero (from_finality_update f).finalized_header
          ≤ (advance rpc clock client).1.store.finalized_header.slot
    unfolding advance accept_latest accept_optimistic_update verify_optimistic_update
        apply_optimistic_update
    advance_progresses answer v a majority newer =
        then_kept {P = reached} (accept_latest rpc clock 0) _ client
          (rw answer (
            then_kept {P = reached} (accept_finality_update clock 0 f) _ client
              (rw (accepted v a) (
                apply_generic_update-newer (clock 1) (clock 2) (from_finality_update f) client
                  majority newer a))
              λ _.
                Keeps-bind (lift rpc.get_optimistic_update) _ (Keeps-lift rpc.get_optimistic_update)
                  λ o.
                    accept-Keeps reached kept (clock (0 + 3)) (clock (0 + 3 + 1))
                      (clock (0 + 3 + 2)) (from_optimistic_update o)
                      (from_optimistic_update-HasBranches o)))
          λ _.
            Keeps-bind (reads (λ c. ok (is_none c.store.next_sync_committee))) _ (Keeps-reads _)
              λ missing.
                Keeps-if missing _ _ (find_next_committee-Keeps reached kept rpc clock 6)
                  (Keeps-lift (ok tt))
      where
        reached : ConsensusClient → Type 0
        reached = HasReached (slot_or_zero (from_finality_update f).finalized_header)

        kept : IsKept reached
        kept = HasReached-IsKept (slot_or_zero (from_finality_update f).finalized_header)
