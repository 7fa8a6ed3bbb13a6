-- ===== src/Consensus/Apply/Slots.antt =====
-- The slots of the two headers of the store under an update.
use forcerelay_verifier.Prelude.{
  ℕ, ◌≤◌, ◌≡◌, ◌⊎◌, inl, inr, true, false, arith, ok, >>=-eq-ok, Bool-cases,
}
use forcerelay_verifier.Consensus.Types.{GenericUpdate}
use forcerelay_verifier.Consensus.Primitives.{Primitives}
use forcerelay_verifier.Consensus.State.{LightClientStore, ConsensusClient}
use forcerelay_verifier.Consensus.Apply.{
  track_participation, should_apply_update, advance_committees, advance_optimistic,
  advance_finalized, apply_finality, apply_generic_update,
}

-- The finalized header is never ahead of the optimistic one.
abbrev pub IsOrdered : ConsensusClient → Type 0
IsOrdered c = c.store.finalized_header.slot ≤ c.store.optimistic_header.slot

module _ ⦃lib : Primitives⦄ (update : GenericUpdate) where
  pub advance_committees-headers :
      (s : LightClientStore) {t : LightClientStore}
      → advance_committees update s ≡ ok t
      → (t.finalized_header ≡ s.finalized_header) × (t.optimistic_header ≡ s.optimistic_header)
  unfolding advance_committees
  advance_committees-headers s e = ground arith

  advance_optimistic-headers :
      (now : ℕ) (c : ConsensusClient) {d : ConsensusClient}
      → advance_optimistic now update c ≡ ok d
      → (d.store.finalized_header ≡ c.store.finalized_header)
        × (c.store.optimistic_header.slot ≤ d.store.optimistic_header.slot)
  unfolding advance_optimistic
  advance_optimistic-headers now c e = ground arith

  advance_finalized-headers :
      (now : ℕ) (c : ConsensusClient) {d : ConsensusClient}
      → advance_finalized now update c ≡ ok d
      → (c.store.finalized_header.slot ≤ d.store.finalized_header.slot)
        × (c.store.optimistic_header.slot ≤ d.store.optimistic_header.slot)
        × (IsOrdered c → IsOrdered d)
  unfolding advance_finalized
  advance_finalized-headers now c e = ground arith

  -- The two ways through `apply_finality`, and the parts of `apply_generic_update`.
  pub apply_finality-cases :
      (now : ℕ) (c : ConsensusClient) {d : ConsensusClient}
      → apply_finality now update c ≡ ok d
      → ((should_apply_update update c.store ≡ false) × (d ≡ c))
        ⊎ ((s : LightClientStore) × (should_apply_update update c.store ≡ true)
            × (advance_committees update c.store ≡ ok s)
            × (advance_finalized now update (record c { store = s }) ≡ ok d))
  unfolding apply_finality
  apply_finality-cases now c e = elim (Bool-cases (should_apply_update update c.store)) [
    | inr skipped ↦ inl (skipped, ground arith)
    | inl applied ↦
        let (s, p, q) = >>=-eq-ok (advance_committees update c.store) _ (rw applied at e) in
        inr (s, applied, p, q)
  ]

  pub apply_generic_update-parts :
      (now now' : ℕ) (c : ConsensusClient) {d : ConsensusClient}
      → apply_generic_update now now' update c ≡ ok d
      → (m : ConsensusClient) × (advance_optimistic now update
            (record c { store = track_participation update c.store })
          ≡ ok m)
        × (apply_finality now' update m ≡ ok d)
  unfolding apply_generic_update
  apply_generic_update-parts now now' c e = >>=-eq-ok (advance_optimistic now update _) _ e

  abbrev Headers : ConsensusClient → ConsensusClient → Type 0
  Headers c d =
      (c.store.finalized_header.slot ≤ d.store.finalized_header.slot)
      × (c.store.optimistic_header.slot ≤ d.store.optimistic_header.slot)
      × (IsOrdered c → IsOrdered d)

  apply_finality-Headers :
      (now : ℕ) (c : ConsensusClient) {d : ConsensusClient}
      → apply_finality now update c ≡ ok d
      → Headers c d
  apply_finality-Headers now c {d} e = elim (apply_finality-cases now c e) [
    | inl (_, same) ↦ rw same (omega arith)
    | inr (s, _, p, q) ↦ ground (
      arith,
      advance_committees-headers c.store p,
      advance_finalized-headers now (record c { store = s }) q,
    )
  ]

  -- An applied update moves neither header back, and keeps the finalized one behind the other.
  pub apply_generic_update-headers :
      (now now' : ℕ) (c : ConsensusClient) {d : ConsensusClient}
      → apply_generic_update now now' update c ≡ ok d
      → (c.store.finalized_header.slot ≤ d.store.finalized_header.slot)
        × (c.store.optimistic_header.slot ≤ d.store.optimistic_header.slot)
        × (IsOrdered c → IsOrdered d)
  unfolding track_participation
  apply_generic_update-headers now now' c {d} e = go (apply_generic_update-parts now now' c e)
    where
      go :
          ((m : ConsensusClient) × (advance_optimistic now update
                (record c { store = track_participation update c.store })
              ≡ ok m)
            × (apply_finality now' update m ≡ ok d))
          → Headers c d
      go (m, p, q) =
          ground (arith, advance_optimistic-headers now _ p, apply_finality-Headers now' m q)
