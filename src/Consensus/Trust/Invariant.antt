-- ===== src/Consensus/Trust/Invariant.antt =====
-- Applying an update that passed the checks keeps the store on the chain of trust.
use forcerelay_verifier.Prelude.{
  ℕ, ◌+◌, ◌≤◌, ◌≡◌, refl, sym, ◌∙◌, ◌⊎◌, inl, inr, true, false, none, some, arith, ok, ap,
}
use forcerelay_verifier.Config.Types.{Config}
use forcerelay_verifier.Consensus.Types.{Header, SyncCommittee, Bootstrap, GenericUpdate}
use forcerelay_verifier.Consensus.Primitives.{Primitives}
use forcerelay_verifier.Consensus.Utils.{calc_sync_period}
use forcerelay_verifier.Consensus.State.{LightClientStore, ConsensusClient}
use forcerelay_verifier.Consensus.Verify.{verify_generic_update}
use forcerelay_verifier.Consensus.Verify.Spec.{IsAcceptable, IsSignedBy, verify_generic_update_iff}
use forcerelay_verifier.Consensus.Verify.Branches.{HasBranches}
use forcerelay_verifier.Consensus.Apply.{
  should_apply_update, advance_committees, advance_finalized, apply_generic_update,
}
use forcerelay_verifier.Consensus.Apply.Slots.{
  advance_committees-headers, apply_finality-cases, apply_generic_update-parts,
}
use forcerelay_verifier.Consensus.Trust.Moves.{
  OptimisticMove, FinalizedMove, CommitteeMove, advance_optimistic-move, advance_finalized-move,
  advance_committees-moves,
}
use forcerelay_verifier.Consensus.Trust.{Authentic, IsTrusted, IsAuthentic, handover}
use forcerelay_verifier.Consensus.Trust.Periods.{
  store_period, attested_period, finalized_period, signature_period, periods_ordered,
  calc_sync_period_mono,
}

module _ ⦃lib : Primitives⦄ (config : Config) (root : Bootstrap) {client : ConsensusClient}
    {now : ℕ} {u : GenericUpdate} {committee : SyncCommittee} (inv : IsAuthentic config root client)
    (a : IsAcceptable client now u committee) (branches : HasBranches u) where
  -- The committee that signed is authentic in the period of the signature.
  signer : Authentic config root (signature_period u) committee
  signer = elim a.committee_for [
    | inl (p, e) ↦ rw (p, e) inv.current
    | inr (p, e) ↦ rw p (inv.next committee e)
  ]

  signed : IsSignedBy config committee u
  signed = rw inv.same_config at a.signed

  attested-IsTrusted : IsTrusted config root u.attested_header
  attested-IsTrusted = IsTrusted.attested u signer signed

  finalized-IsTrusted :
      (header : Header) → u.finalized_header ≡ some header → IsTrusted config root header
  finalized-IsTrusted header e =
      let (branch, f) = branches.finality_branch header e in
      IsTrusted.finalized u branch attested-IsTrusted (a.finality_proof header branch e f)

  -- A next committee that is attested in the period of its signature is that of the period after.
  next_committee :
      (next : SyncCommittee)
      → u.next_sync_committee ≡ some next
      → attested_period u ≡ signature_period u
      → Authentic config root (attested_period u + 1) next
  next_committee next e same =
      let (branch, f) = branches.committee_branch next e in
      handover signer u branch signed same e (a.committee_proof next branch e f)
        (ap (λ (p : ℕ). p + 1) same)

  periods :
      (finalized_period u ≤ attested_period u)
      × (attested_period u ≤ signature_period u)
      × (store_period client.store ≤ attested_period u)
      × (signature_period u ≤ store_period client.store + 1)
  periods = periods_ordered a

  -- The period of the finalized header after the update, which moves or stays.
  abbrev NewPeriod : ℕ → Type 0
  NewPeriod p =
      ((p ≡ store_period client.store) × (finalized_period u ≤ store_period client.store))
      ⊎ ((p ≡ finalized_period u) × (store_period client.store ≤ finalized_period u))

  abbrev Committees : ℕ → LightClientStore → Type 0
  Committees p t =
      Authentic config root p t.current_sync_committee
      × ((next : SyncCommittee)
          → t.next_sync_committee ≡ some next
          → Authentic config root (p + 1) next)

  -- Without a next committee the store's own committee signed.
  signature_period_of_none :
      client.store.next_sync_committee ≡ none → signature_period u ≡ store_period client.store
  signature_period_of_none e = elim a.committee_for [ inl (p, _) ↦ p | inr (_, q) ↦ cc ]

  -- the committees after `advance_committees`, at the period that the finalized header will have
  Committees-authentic :
      (t : LightClientStore) (p : ℕ) → CommitteeMove u client.store t → NewPeriod p → Committees p t
  Committees-authentic t p (inl (none_next, same, new)) h =
      let sp = signature_period_of_none none_next in
      let e : p ≡ store_period client.store = omega (arith, periods) in
      let f : p ≡ attested_period u = omega (arith, periods) in
      (
        rw (e, same) inv.current,
        λ next g. rw f (next_committee next (sym new ∙ g) (omega (arith, periods))),
      )
  Committees-authentic t p (inr (inl (old, moved, new))) h =
      let e : p ≡ store_period client.store + 1 = omega (arith, periods) in
      let f : p ≡ attested_period u = omega (arith, periods) in
      (
        rw e (inv.next t.current_sync_committee old),
        λ next g. rw f (next_committee next (sym new ∙ g) (omega (arith, periods))),
      )
  Committees-authentic t p (inr (inr (stays, same, kept, _))) h =
      let e : p ≡ store_period client.store = omega (arith, periods) in
      (rw (e, same) inv.current, λ next g. rw e (inv.next next (sym kept ∙ g)))

  new_period :
      (c d : ConsensusClient)
      → c.store.finalized_header ≡ client.store.finalized_header
      → FinalizedMove u c d
      → NewPeriod (store_period d.store)
  new_period c d e (_, _, _, _, inl (same, le)) = inl (
    ap (λ (h : Header). calc_sync_period h.slot) (same ∙ e),
    calc_sync_period_mono _ _ (rw (← e) le),
  )
  new_period c d e (_, _, _, _, inr (moved, lt)) =
      inr (rw moved refl, rw (moved, ← e) (calc_sync_period_mono _ _ (omega arith)))

  optimistic-IsTrusted :
      (m : ConsensusClient)
      → OptimisticMove u client m
      → IsTrusted config root m.store.optimistic_header
  optimistic-IsTrusted m (_, _, _, _, inl e) = rw e inv.optimistic
  optimistic-IsTrusted m (_, _, _, _, inr e) = rw e attested-IsTrusted

  skipped-IsAuthentic :
      (m : ConsensusClient) → OptimisticMove u client m → IsAuthentic config root m
  skipped-IsAuthentic m o = record {
    same_config = o.0 ∙ inv.same_config;
    current = rw (o.1, o.2) inv.current;
    next = λ next e. rw o.1 (inv.next next (sym o.3 ∙ e));
    finalized = rw o.1 inv.finalized;
    optimistic = optimistic-IsTrusted m o;
  }

  finalized_header-IsTrusted :
      (c d : ConsensusClient)
      → c.store.finalized_header ≡ client.store.finalized_header
      → FinalizedMove u c d
      → IsTrusted config root d.store.finalized_header
  finalized_header-IsTrusted c d e (_, _, _, _, inl (same, _)) = rw (same, e) inv.finalized
  finalized_header-IsTrusted c d e (_, _, _, _, inr (moved, _)) =
      finalized-IsTrusted d.store.finalized_header moved

  optimistic_header-IsTrusted :
      (c d : ConsensusClient)
      → IsTrusted config root c.store.optimistic_header
      → IsTrusted config root d.store.finalized_header
      → FinalizedMove u c d
      → IsTrusted config root d.store.optimistic_header
  optimistic_header-IsTrusted c d o f (_, _, _, inl e, _) = rw e o
  optimistic_header-IsTrusted c d o f (_, _, _, inr e, _) = rw e f

  applied-IsAuthentic :
      (m : ConsensusClient) (s : LightClientStore) (d : ConsensusClient)
      → OptimisticMove u client m
      → (s.finalized_header ≡ m.store.finalized_header)
        × (s.optimistic_header ≡ m.store.optimistic_header)
      → CommitteeMove u client.store s
      → FinalizedMove u (record m { store = s }) d
      → IsAuthentic config root d
  applied-IsAuthentic m s d o h k g =
      let e = h.0 ∙ o.1 in
      let (current, next) =
        Committees-authentic s (store_period d.store) k
          (new_period (record m { store = s }) d e g) in
      let trusted = finalized_header-IsTrusted (record m { store = s }) d e g in
      record {
        same_config = g.0 ∙ o.0 ∙ inv.same_config;
        current = rw g.1 current;
        next = λ committee' f. next committee' (sym g.2 ∙ f);
        finalized = trusted;
        optimistic =
            optimistic_header-IsTrusted (record m { store = s }) d
              (rw h.1 (optimistic-IsTrusted m o)) trusted g;
      }

module _ ⦃lib : Primitives⦄ (config : Config) (root : Bootstrap) where
  -- If the store rests on the chain of trust, and an update that has a branch for each of its proofs
  -- passes the checks, then the store that applying the update returns rests on the chain too.
  pub apply_generic_update-IsAuthentic :
      (client : ConsensusClient) (now now₁ now₂ : ℕ) (u : GenericUpdate) {d : ConsensusClient}
      → IsAuthentic config root client
      → HasBranches u
      → verify_generic_update client now u ≡ ok tt
      → apply_generic_update now₁ now₂ u client ≡ ok d
      → IsAuthentic config root d
  apply_generic_update-IsAuthentic client now now₁ now₂ u {d} inv branches v e =
      let (_, a) = (verify_generic_update_iff client now u).0 v in
      let (m, p, q) = apply_generic_update-parts u now₁ now₂ client e in
      go m a (advance_optimistic-move u now₁ client p) (apply_finality-cases u now₂ m q)
    where
      go :
          (m : ConsensusClient) {committee : SyncCommittee}
          → IsAcceptable client now u committee
          → OptimisticMove u client m
          → ((should_apply_update u m.store ≡ false) × (d ≡ m))
            ⊎ ((s : LightClientStore) × (should_apply_update u m.store ≡ true)
                × (advance_committees u m.store ≡ ok s)
                × (advance_finalized now₂ u (record m { store = s }) ≡ ok d))
          → IsAuthentic config root d
      go m a o (inl (_, same)) = rw same (skipped-IsAuthentic config root inv a branches m o)
      go m a o (inr (s, _, p, q)) =
          applied-IsAuthentic config root inv a branches m s d o
            (advance_committees-headers u m.store p)
            (ground (arith, advance_committees-moves u m.store p))
            (advance_finalized-move u now₂ (record m { store = s }) q)
