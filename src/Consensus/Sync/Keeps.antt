-- ===== src/Consensus/Sync/Keeps.antt =====
-- `sync` and `advance` keep whatever every message that passes its checks keeps.
use forcerelay_verifier.Prelude.{
  ℕ, ◌+◌, ◌*◌, ◌≡◌, refl, List, [], ◌∷◌, length, ok, err, panic, is_none,
}
use forcerelay_verifier.Consensus.Types.{
  GenericUpdate, Update, from_update, from_finality_update, from_optimistic_update,
}
use forcerelay_verifier.Consensus.Errors.{Result}
use forcerelay_verifier.Consensus.Primitives.{Primitives}
use forcerelay_verifier.Consensus.State.{ConsensusClient, ClientMethod}
use forcerelay_verifier.Consensus.Verify.{
  verify_generic_update, verify_update, verify_finality_update, verify_optimistic_update,
}
use forcerelay_verifier.Consensus.Apply.{
  apply_generic_update, apply_update, apply_finality_update, apply_optimistic_update,
}
use forcerelay_verifier.Consensus.Rpc.{ConsensusRpc, max_request_light_client_updates}
use forcerelay_verifier.Common.Method.{
  Keeps, Keeps-lift, Keeps-reads, Keeps-check, Keeps-attempt, Keeps-bind, Keeps-if, lift, reads,
  writes, ◌>>=◌, ◌>>◌,
}
use forcerelay_verifier.Consensus.Sync.{
  Clock, accept_update, accept_finality_update, accept_optimistic_update, accept_updates,
  accept_latest, try_committee_update, find_next_committee, advance, finalized_period,
}
use forcerelay_verifier.Consensus.Verify.Branches.{
  HasBranches, from_update-HasBranches, from_finality_update-HasBranches,
  from_optimistic_update-HasBranches,
}

-- What `sync` does after the bootstrap.
abbrev pub catch_up : ⦃lib : Primitives⦄ → ConsensusRpc → Clock → ClientMethod (Unit {0})
catch_up rpc clock = do
  current_period ← reads (λ client. ok (finalized_period client))
  updates ← lift (rpc.get_updates current_period max_request_light_client_updates)
  accept_updates clock 1 updates
  accept_latest rpc clock (1 + 3 * length updates)

module _ ⦃lib : Primitives⦄ (P : ConsensusClient → Type 0) where
  -- What an invariant must satisfy to be kept by each message that passes its checks.
  abbrev pub IsKept : Type 0
  IsKept =
      (c : ConsensusClient) (now now₁ now₂ : ℕ) (u : GenericUpdate) (d : ConsensusClient)
      → P c
      → HasBranches u
      → verify_generic_update c now u ≡ ok tt
      → apply_generic_update now₁ now₂ u c ≡ ok d
      → P d

  -- `writes` keeps what its call keeps.
  writes_at :
      (f : ConsensusClient → Result ConsensusClient) (c : ConsensusClient)
      → P c
      → ((d : ConsensusClient) → f c ≡ ok d → P d)
      → P (writes f c).1
  writes_at f c h k = go (f c) k
    where
      go :
          (r : Result ConsensusClient)
          → ((d : ConsensusClient) → r ≡ ok d → P d)
          → P (writes (λ _. r) c).1
      go (ok d) k = k d refl
      go (err e) k = h
      go panic k = h

  pub accept-Keeps :
      IsKept
      → (now now₁ now₂ : ℕ) (u : GenericUpdate) → HasBranches u
      → Keeps P
          (reads (λ c. verify_generic_update c now u) >> writes (apply_generic_update now₁ now₂ u))
  accept-Keeps kept now now₁ now₂ u b = Keeps-check _ _ λ c h e.
      writes_at (apply_generic_update now₁ now₂ u) c h λ d f. kept c now now₁ now₂ u d h b e f

  accept_update-Keeps :
      IsKept → (clock : Clock) (i : ℕ) (u : Update) → Keeps P (accept_update clock i u)
  unfolding accept_update verify_update apply_update
  accept_update-Keeps kept clock i u =
      accept-Keeps kept (clock i) (clock (i + 1)) (clock (i + 2)) (from_update u)
        (from_update-HasBranches u)

  accept_updates-Keeps :
      IsKept → (clock : Clock) (i : ℕ) (us : List Update) → Keeps P (accept_updates clock i us)
  unfolding accept_updates
  accept_updates-Keeps kept clock i [] = Keeps-lift (ok tt)
  accept_updates-Keeps kept clock i (u ∷ us) =
      Keeps-bind (accept_update clock i u) _ (accept_update-Keeps kept clock i u)
        (λ _. accept_updates-Keeps kept clock (i + 3) us)

  accept_latest-Keeps :
      IsKept → (rpc : ConsensusRpc) (clock : Clock) (i : ℕ) → Keeps P (accept_latest rpc clock i)
  unfolding accept_latest accept_finality_update accept_optimistic_update verify_finality_update
      verify_optimistic_update apply_finality_update apply_optimistic_update
  accept_latest-Keeps kept rpc clock i = Keeps-bind _ _ (Keeps-lift rpc.get_finality_update) λ f.
      Keeps-bind _ _
        (accept-Keeps kept (clock i) (clock (i + 1)) (clock (i + 2)) (from_finality_update f)
          (from_finality_update-HasBranches f))
        λ _. Keeps-bind _ _ (Keeps-lift rpc.get_optimistic_update) λ o.
          accept-Keeps kept (clock (i + 3)) (clock (i + 3 + 1)) (clock (i + 3 + 2))
            (from_optimistic_update o) (from_optimistic_update-HasBranches o)

  try_committee_update-Keeps :
      IsKept
      → (clock : Clock) (i : ℕ) (us : List Update) → Keeps P (try_committee_update clock i us)
  unfolding try_committee_update verify_update apply_update
  try_committee_update-Keeps kept clock i (u ∷ []) = Keeps-attempt _ _ λ c h e.
      writes_at (apply_generic_update (clock (i + 1)) (clock (i + 2)) (from_update u)) c h λ d f.
        kept c (clock i) (clock (i + 1)) (clock (i + 2)) (from_update u) d h
          (from_update-HasBranches u) e f
  try_committee_update-Keeps kept clock i us = Keeps-lift (ok tt)

  pub find_next_committee-Keeps :
      IsKept
      → (rpc : ConsensusRpc) (clock : Clock) (i : ℕ) → Keeps P (find_next_committee rpc clock i)
  unfolding find_next_committee
  find_next_committee-Keeps kept rpc clock i =
      Keeps-bind _ _ (Keeps-reads (λ c. ok (finalized_period c))) λ period.
        Keeps-bind _ _ (Keeps-lift (rpc.get_updates period 1))
          λ us. try_committee_update-Keeps kept clock i us

  -- `advance` keeps what every message keeps.
  pub advance-Keeps : IsKept → (rpc : ConsensusRpc) (clock : Clock) → Keeps P (advance rpc clock)
  unfolding advance
  advance-Keeps kept rpc clock = Keeps-bind _ _ (accept_latest-Keeps kept rpc clock 0) λ _.
      Keeps-bind _ _ (Keeps-reads (λ c. ok (is_none c.store.next_sync_committee))) λ missing.
        Keeps-if missing _ _ (find_next_committee-Keeps kept rpc clock 6) (Keeps-lift (ok tt))

  pub catch_up-Keeps : IsKept → (rpc : ConsensusRpc) (clock : Clock) → Keeps P (catch_up rpc clock)
  catch_up-Keeps kept rpc clock =
      Keeps-bind _ _ (Keeps-reads (λ c. ok (finalized_period c))) λ period.
        Keeps-bind _ _ (Keeps-lift (rpc.get_updates period max_request_light_client_updates)) λ us.
          Keeps-bind _ _ (accept_updates-Keeps kept clock 1 us)
            λ _. accept_latest-Keeps kept rpc clock (1 + 3 * length us)
