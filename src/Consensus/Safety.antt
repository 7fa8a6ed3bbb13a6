-- ===== src/Consensus/Safety.antt =====
-- Panics: an update that passes the checks is applied without one.
use forcerelay_verifier.Prelude.{
  ℕ, ◌+◌, ◌-◌, ◌*◌, ◌≤◌, ◌<◌, ◌≡◌, true, Option, some, arith, ok, is_some, Option-cases, Returns,
  u64_mod, inl, inr, is_ok, is_ok→Returns,
}
use forcerelay_verifier.Config.Types.{Config}
use forcerelay_verifier.Consensus.Types.{Header, GenericUpdate}
use forcerelay_verifier.Consensus.Primitives.{Primitives}
use forcerelay_verifier.Consensus.State.{ConsensusClient, age, slot_timestamp}
use forcerelay_verifier.Consensus.Verify.{slot_or_zero, verify_generic_update}
use forcerelay_verifier.Consensus.Verify.Spec.{IsTimely, verify_generic_update_iff}
use forcerelay_verifier.Consensus.Apply.{
  track_participation, advance_committees, advance_optimistic, advance_finalized, apply_finality,
  apply_generic_update,
}

module _ ⦃lib : Primitives⦄ where
  -- chrono takes every whole number of seconds up to `horizon`.
  abbrev pub FitsDurations : ℕ → Type 0
  FitsDurations horizon = (d : ℕ) → d ≤ horizon → is_some (lib.duration_from_std d) ≡ true

  -- `slot` has begun at the time `now`.
  abbrev pub HasBegun : Config → ℕ → ℕ → Type 0
  HasBegun config slot now = slot * 12 + config.chain.genesis_time ≤ now

  age_total :
      (config : Config) (slot now horizon : ℕ)
      → HasBegun config slot now
      → now ≤ horizon
      → horizon < u64_mod
      → FitsDurations horizon
      → is_ok (age config slot now) ≡ true
  unfolding age slot_timestamp
  age_total config slot now horizon begun le lt fits =
      ground (arith, fits (now - (slot * 12 + config.chain.genesis_time)))

  advance_optimistic_total :
      (now : ℕ) (update : GenericUpdate) (c : ConsensusClient)
      → is_ok (age c.config update.attested_header.slot now) ≡ true
      → is_ok (advance_optimistic now update c) ≡ true
  unfolding advance_optimistic
  advance_optimistic_total now update c h = ground arith

  advance_optimistic-config :
      (now : ℕ) (update : GenericUpdate) (c : ConsensusClient) {d : ConsensusClient}
      → advance_optimistic now update c ≡ ok d
      → d.config ≡ c.config
  unfolding advance_optimistic
  advance_optimistic-config now update c e = ground arith

  advance_finalized_total :
      (now : ℕ) (update : GenericUpdate) (c : ConsensusClient)
      → ((h : Header) → update.finalized_header ≡ some h → is_ok (age c.config h.slot now) ≡ true)
      → is_ok (advance_finalized now update c) ≡ true
  unfolding advance_finalized
  advance_finalized_total now update c total = elim (Option-cases update.finalized_header) [
    | inl e ↦ ground arith
    | inr (h, e) ↦ ground (arith, total h e)
  ]

  apply_finality_total :
      (now : ℕ) (update : GenericUpdate) (c : ConsensusClient)
      → ((h : Header) → update.finalized_header ≡ some h → is_ok (age c.config h.slot now) ≡ true)
      → is_ok (apply_finality now update c) ≡ true
  unfolding apply_finality advance_committees
  apply_finality_total now update c total = ground (
    arith,
    advance_finalized_total now update
        (record c { store = record c.store { next_sync_committee = update.next_sync_committee } })
        total,
  )

  finalized_slot_of : (o : Option Header) {h : Header} → o ≡ some h → slot_or_zero o ≡ h.slot
  finalized_slot_of o e = rw e

  begun_of_slot :
      (client : ConsensusClient) (now now' : ℕ) (update : GenericUpdate) (slot : ℕ)
      → IsTimely client now update
      → now ≤ now'
      → slot ≤ update.attested_header.slot
      → HasBegun client.config slot now'
  begun_of_slot client now now' update slot t later le =
      omega (arith, t.after_genesis, t.not_early, t.signed_after)

  apply_timely_total :
      (client : ConsensusClient) (now now₁ now₂ horizon : ℕ) (update : GenericUpdate)
      → IsTimely client now update
      → now ≤ now₁
      → now ≤ now₂
      → now₁ ≤ horizon
      → now₂ ≤ horizon
      → horizon < u64_mod
      → FitsDurations horizon
      → is_ok (apply_generic_update now₁ now₂ update client) ≡ true
  unfolding apply_generic_update
  apply_timely_total client now now₁ now₂ horizon update t l₁ l₂ h₁ h₂ lt fits = go (
      is_ok→Returns (advance_optimistic now₁ update tracked)
        (advance_optimistic_total now₁ update tracked head))
    where
      tracked : ConsensusClient
      tracked = record client { store = track_participation update client.store }

      head : is_ok (age client.config update.attested_header.slot now₁) ≡ true
      head =
          age_total client.config _ now₁ horizon
            (begun_of_slot client now now₁ update _ t l₁ (omega arith)) h₁ lt fits

      finality :
          (h : Header)
          → update.finalized_header ≡ some h
          → is_ok (age client.config h.slot now₂) ≡ true
      finality h e =
          age_total client.config _ now₂ horizon
            (begun_of_slot client now now₂ update h.slot t l₂
              (omega (arith, t.finalized_before, finalized_slot_of update.finalized_header e)))
            h₂ lt fits

      go :
          Returns (advance_optimistic now₁ update tracked)
          → is_ok (apply_generic_update now₁ now₂ update client) ≡ true
      go (m, e) = rw e (
          apply_finality_total now₂ update m
            (rw (advance_optimistic-config now₁ update tracked e) finality))

  -- An update that passed the checks is applied without a panic, where neither log line reads an
  -- earlier time than the check did, and the times are below 2 ^ 64 and within chrono's durations.
  pub verified_update_applies :
      (client : ConsensusClient) (now now₁ now₂ horizon : ℕ) (update : GenericUpdate)
      → verify_generic_update client now update ≡ ok tt
      → now ≤ now₁
      → now ≤ now₂
      → now₁ ≤ horizon
      → now₂ ≤ horizon
      → horizon < u64_mod
      → FitsDurations horizon
      → (client' : ConsensusClient) × (apply_generic_update now₁ now₂ update client ≡ ok client')
  verified_update_applies client now now₁ now₂ horizon update e l₁ l₂ h₁ h₂ lt fits =
      let (_, a) = (verify_generic_update_iff client now update).0 e in
      is_ok→Returns _
        (apply_timely_total client now now₁ now₂ horizon update a.timely l₁ l₂ h₁ h₂ lt fits)
