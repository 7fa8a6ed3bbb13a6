-- ===== src/Consensus/Sync/Origin.antt =====
-- The checkpoint that a client boots from, and its configuration, stay as they were created.
use forcerelay_verifier.Prelude.{ℕ, ◌≡◌, ok, inl, inr, arith}
use forcerelay_verifier.Common.{Bytes}
use forcerelay_verifier.Common.Method.{Keeps, Keeps-bind, Keeps-reads, reads}
use forcerelay_verifier.Consensus.Types.{GenericUpdate}
use forcerelay_verifier.Consensus.Primitives.{Primitives}
use forcerelay_verifier.Consensus.State.{ConsensusClient}
use forcerelay_verifier.Consensus.Apply.{
  track_participation, advance_optimistic, advance_finalized, apply_generic_update,
}
use forcerelay_verifier.Consensus.Apply.Slots.{apply_finality-cases, apply_generic_update-parts}
use forcerelay_verifier.Consensus.Bootstrap.{check_bootstrap}
use forcerelay_verifier.Consensus.Rpc.{ConsensusRpc}
use forcerelay_verifier.Consensus.Sync.{Clock, boot, sync}
use forcerelay_verifier.Consensus.Sync.Keeps.{catch_up, catch_up-Keeps}

module _ ⦃lib : Primitives⦄ (checkpoint : Bytes) where
  abbrev pub HasOrigin : ConsensusClient → Type 0
  HasOrigin client = client.initial_checkpoint ≡ checkpoint

  advance_optimistic-HasOrigin :
      (now : ℕ) (update : GenericUpdate) (c : ConsensusClient) {d : ConsensusClient}
      → HasOrigin c
      → advance_optimistic now update c ≡ ok d
      → HasOrigin d
  unfolding advance_optimistic
  advance_optimistic-HasOrigin now update c h e = ground arith

  advance_finalized-HasOrigin :
      (now : ℕ) (update : GenericUpdate) (c : ConsensusClient) {d : ConsensusClient}
      → HasOrigin c
      → advance_finalized now update c ≡ ok d
      → HasOrigin d
  unfolding advance_finalized
  advance_finalized-HasOrigin now update c h e = ground arith

  apply_generic_update-HasOrigin :
      (now now' : ℕ) (update : GenericUpdate) (c : ConsensusClient) {d : ConsensusClient}
      → HasOrigin c
      → apply_generic_update now now' update c ≡ ok d
      → HasOrigin d
  apply_generic_update-HasOrigin now now' update c {d} h e =
      let (m, p, q) = apply_generic_update-parts update now now' c e in
      let k =
        advance_optimistic-HasOrigin now update
          (record c { store = track_participation update c.store }) h p in
      elim (apply_finality-cases update now' m q) [
        | inl (_, same) ↦ rw same k
        | inr (s, _, _, r) ↦ advance_finalized-HasOrigin now' update (record m { store = s }) k r
      ]

  boot-HasOrigin : (rpc : ConsensusRpc) (now : ℕ) → Keeps HasOrigin (boot rpc now)
  unfolding boot
  boot-HasOrigin rpc now = Keeps-bind _ _ (Keeps-reads _) λ bootstrap.
      Keeps-bind (reads (check_bootstrap now bootstrap)) _ (Keeps-reads _)
        λ _. record { at = λ c h. h }

  pub sync-HasOrigin : (rpc : ConsensusRpc) (clock : Clock) → Keeps HasOrigin (sync rpc clock)
  unfolding sync
  sync-HasOrigin rpc clock =
      Keeps-bind (boot rpc (clock 0)) (λ _. catch_up rpc clock) (boot-HasOrigin rpc (clock 0))
        λ _.
          catch_up-Keeps HasOrigin
            (λ c now now₁ now₂ u d h b v e. apply_generic_update-HasOrigin now₁ now₂ u c h e) rpc
            clock
