-- ===== src/Consensus/Verify/Spec.antt =====
-- The conditions of `validate_light_client_update`, stated without the order of the code.
use forcerelay_verifier.Prelude.{
  ℕ, ◌+◌, ◌-◌, ◌/◌, ◌≤◌, ◌<◌, ◌≡◌, refl, ◌⊎◌, ◌↔◌, inl, inr, Bool, true, none, some, List, arith,
  ok, Outcome-cases, guard, >>=-eq-ok, ◌>>=◌, Option-cases, is_some, err, panic,
}
use forcerelay_verifier.Common.{Bytes32}
use forcerelay_verifier.Config.Types.{Config}
use forcerelay_verifier.Consensus.Types.{Header, SyncCommittee, GenericUpdate}
use forcerelay_verifier.Consensus.Errors.{Result, ConsensusError, invalid_signature}
use forcerelay_verifier.Consensus.Primitives.{Primitives}
use forcerelay_verifier.Consensus.Utils.{
  calc_sync_period, get_bits, get_participating_keys, is_finality_proof_valid,
  is_next_committee_proof_valid,
}
use forcerelay_verifier.Consensus.State.{LightClientStore, ConsensusClient, expected_current_slot}
use forcerelay_verifier.Consensus.Verify.{
  slot_or_zero, is_valid_time, is_valid_period, is_relevant, check_finality_proof,
  check_next_committee_proof, check_signature, signing_committee, verify_generic_update,
  verify_sync_committee_signture,
}

-- The participants of the update among the members of `committee` signed its attested header.
abbrev pub IsSignedBy : ⦃lib : Primitives⦄ → Config → SyncCommittee → GenericUpdate → Type 0
IsSignedBy ⦃lib⦄ config committee update =
    (0 < get_bits update.sync_aggregate.sync_committee_bits)
    × (do
      pks ← get_participating_keys committee update.sync_aggregate.sync_committee_bits
      verify_sync_committee_signture config pks update.attested_header
          update.sync_aggregate.sync_committee_signature update.signature_slot)
      ≡ ok true

-- `committee` is the store's committee for the period of the signature.
abbrev pub IsCommitteeFor : LightClientStore → GenericUpdate → SyncCommittee → Type 0
IsCommitteeFor store update committee =
    let store_period = calc_sync_period store.finalized_header.slot in
    let update_sig_period = calc_sync_period update.signature_slot in
    ((update_sig_period ≡ store_period) × (committee ≡ store.current_sync_committee))
    ⊎ ((update_sig_period ≡ store_period + 1) × (store.next_sync_committee ≡ some committee))

pub record IsTimely (client : ConsensusClient) (now : ℕ) (update : GenericUpdate) : Type 0 where
  pub after_genesis : client.config.chain.genesis_time ≤ now
  pub not_early : update.signature_slot ≤ (now - client.config.chain.genesis_time) / 12
  pub signed_after : update.attested_header.slot < update.signature_slot
  pub finalized_before : slot_or_zero update.finalized_header ≤ update.attested_header.slot

-- The attested header is newer than the finalized one, or the update brings the missing next
-- committee of the store's period.
abbrev pub IsRelevant : LightClientStore → GenericUpdate → Type 0
IsRelevant store update =
    (store.finalized_header.slot < update.attested_header.slot)
    ⊎ ((store.next_sync_committee ≡ none)
        × (calc_sync_period update.attested_header.slot
            ≡ calc_sync_period store.finalized_header.slot)
        × (is_some update.next_sync_committee ≡ true))

-- the steps that the checks of `verify_generic_update` decide
is_valid_time_lem :
    (client : ConsensusClient) (now : ℕ) (update : GenericUpdate) (slot : ℕ)
    → expected_current_slot client.config now ≡ ok slot
    → (is_valid_time slot update ≡ true) ↔ IsTimely client now update
unfolding expected_current_slot is_valid_time
is_valid_time_lem client now update slot e = (λ h. ground arith, λ h. ground arith)

committee_for :
    (store : LightClientStore) (update : GenericUpdate) (committee : SyncCommittee)
    → is_valid_period store update ≡ true
    → signing_committee store update ≡ ok committee
    → IsCommitteeFor store update committee
unfolding is_valid_period signing_committee
committee_for store update committee h e = ground arith

for_committee :
    (store : LightClientStore) (update : GenericUpdate) (committee : SyncCommittee)
    → IsCommitteeFor store update committee
    → (is_valid_period store update ≡ true) × (signing_committee store update ≡ ok committee)
unfolding is_valid_period signing_committee
for_committee store update committee h = ground arith

is_relevant_lem :
    (store : LightClientStore) (update : GenericUpdate)
    → (is_relevant store update ≡ true) ↔ IsRelevant store update
unfolding is_relevant
is_relevant_lem store update = (λ h. ground arith, λ h. ground arith)

module _ ⦃lib : Primitives⦄ where
  abbrev pub HasFinalityProof : GenericUpdate → Type 0
  HasFinalityProof update =
      (header : Header) (branch : List Bytes32)
      → update.finalized_header ≡ some header
      → update.finality_branch ≡ some branch
      → is_finality_proof_valid update.attested_header header branch ≡ ok true

  abbrev pub HasCommitteeProof : GenericUpdate → Type 0
  HasCommitteeProof update =
      (committee : SyncCommittee) (branch : List Bytes32)
      → update.next_sync_committee ≡ some committee
      → update.next_sync_committee_branch ≡ some branch
      → is_next_committee_proof_valid update.attested_header committee branch ≡ ok true

  guard_iff :
      (r : Result Bool) (e : ConsensusError) → ((r >>= λ b. guard b e) ≡ ok tt) ↔ (r ≡ ok true)
  guard_iff (ok b) e = (λ h. ground arith, λ h. ground arith)
  guard_iff (err x) e = (λ h. cc, λ h. cc)
  guard_iff panic e = (λ h. cc, λ h. cc)

  bind_guard_iff {ℓ} :
      {A : Type ℓ} (m : Result A) (f : A → Result Bool) (e : ConsensusError)
      → ((m >>= λ a. f a >>= λ b. guard b e) ≡ ok tt) ↔ ((m >>= f) ≡ ok true)
  bind_guard_iff (ok a) f e = guard_iff (f a) e
  bind_guard_iff (err x) f e = (λ h. cc, λ h. cc)
  bind_guard_iff panic f e = (λ h. cc, λ h. cc)

  check_finality_proof_lem :
      (update : GenericUpdate) → (check_finality_proof update ≡ ok tt) ↔ HasFinalityProof update
  unfolding check_finality_proof
  check_finality_proof_lem update = (
    λ h header branch p q. (guard_iff _ _).0 (rw (p, q) at h),
    λ h. elim (Option-cases update.finalized_header) [
      | inl p ↦ rw p refl
      | inr (header, p) ↦ elim (Option-cases update.finality_branch) [
        | inl q ↦ rw (p, q) refl
        | inr (branch, q) ↦ rw (p, q) ((guard_iff _ _).1 (h header branch p q))
      ]
    ],
  )

  check_next_committee_proof_lem :
      (update : GenericUpdate)
      → (check_next_committee_proof update ≡ ok tt) ↔ HasCommitteeProof update
  unfolding check_next_committee_proof
  check_next_committee_proof_lem update = (
    λ h committee branch p q. (guard_iff _ _).0 (rw (p, q) at h),
    λ h. elim (Option-cases update.next_sync_committee) [
      | inl p ↦ rw p refl
      | inr (committee, p) ↦ elim (Option-cases update.next_sync_committee_branch) [
        | inl q ↦ rw (p, q) refl
        | inr (branch, q) ↦ rw (p, q) ((guard_iff _ _).1 (h committee branch p q))
      ]
    ],
  )

  abbrev HasSignature : ConsensusClient → GenericUpdate → SyncCommittee → Type 0
  HasSignature client update committee =
      (do
        pks ← get_participating_keys committee update.sync_aggregate.sync_committee_bits
        verify_sync_committee_signture client.config pks update.attested_header
            update.sync_aggregate.sync_committee_signature update.signature_slot)
      ≡ ok true

  check_signature_lem :
      (client : ConsensusClient) (update : GenericUpdate) (committee : SyncCommittee)
      → signing_committee client.store update ≡ ok committee
      → (check_signature client update ≡ ok tt) ↔ HasSignature client update committee
  unfolding check_signature
  check_signature_lem client update committee e = rw e (
      bind_guard_iff (get_participating_keys committee update.sync_aggregate.sync_committee_bits)
        (λ pks.
          verify_sync_committee_signture client.config pks update.attested_header
            update.sync_aggregate.sync_committee_signature update.signature_slot)
        invalid_signature)

  -- What `verify_generic_update` demands of an update that is signed by `committee`.
  pub record IsAcceptable (client : ConsensusClient) (now : ℕ) (update : GenericUpdate)
      (committee : SyncCommittee) : Type 0 where
    pub timely : IsTimely client now update
    pub relevant : IsRelevant client.store update
    pub finality_proof : HasFinalityProof update
    pub committee_proof : HasCommitteeProof update
    pub committee_for : IsCommitteeFor client.store update committee
    pub signed : IsSignedBy client.config committee update

  expected_current_slot_of_ok :
      (client : ConsensusClient) (now : ℕ) (update : GenericUpdate)
      → verify_generic_update client now update ≡ ok tt
      → (slot : ℕ) × (expected_current_slot client.config now ≡ ok slot)
  unfolding verify_generic_update
  expected_current_slot_of_ok client now update e =
      elim (Outcome-cases (expected_current_slot client.config now)) [
        | inl found ↦ found
        | inr (inl (x, failed)) ↦ absurd (ground arith)
        | inr (inr panicked) ↦ absurd (ground arith)
      ]

  abbrev Checks : ConsensusClient → GenericUpdate → ℕ → Type 0
  Checks client update slot =
      (0 < get_bits update.sync_aggregate.sync_committee_bits)
      × (is_valid_time slot update ≡ true)
      × (is_valid_period client.store update ≡ true)
      × (is_relevant client.store update ≡ true)
      × (check_finality_proof update ≡ ok tt)
      × (check_next_committee_proof update ≡ ok tt)
      × (check_signature client update ≡ ok tt)

  Checks-iff :
      (client : ConsensusClient) (now : ℕ) (update : GenericUpdate) (slot : ℕ)
      → expected_current_slot client.config now ≡ ok slot
      → (verify_generic_update client now update ≡ ok tt) ↔ Checks client update slot
  unfolding verify_generic_update
  Checks-iff client now update slot e = (λ h. ground arith, λ h. ground arith)

  signing_committee_of_ok :
      (client : ConsensusClient) (update : GenericUpdate)
      → check_signature client update ≡ ok tt
      → (committee : SyncCommittee) × (signing_committee client.store update ≡ ok committee)
  unfolding check_signature
  signing_committee_of_ok client update e =
      let (committee, p, _) = >>=-eq-ok (signing_committee client.store update) _ e in
      (committee, p)

  expected_current_slot_of_timely :
      (client : ConsensusClient) (now : ℕ) (update : GenericUpdate)
      → IsTimely client now update
      → expected_current_slot client.config now ≡ ok ((now - client.config.chain.genesis_time) / 12)
  unfolding expected_current_slot
  expected_current_slot_of_timely client now update h = ground arith

  IsAcceptable-of_Checks :
      (client : ConsensusClient) (now : ℕ) (update : GenericUpdate) (slot : ℕ)
      (committee : SyncCommittee)
      → expected_current_slot client.config now ≡ ok slot
      → signing_committee client.store update ≡ ok committee
      → Checks client update slot
      → IsAcceptable client now update committee
  IsAcceptable-of_Checks client now update slot committee e s (b, t, p, r, f, n, g) = record {
    timely = (is_valid_time_lem client now update slot e).0 t;
    relevant = (is_relevant_lem client.store update).0 r;
    finality_proof = (check_finality_proof_lem update).0 f;
    committee_proof = (check_next_committee_proof_lem update).0 n;
    committee_for = committee_for client.store update committee p s;
    signed = (b, (check_signature_lem client update committee s).0 g);
  }

  Checks-of_acceptable :
      (client : ConsensusClient) (now : ℕ) (update : GenericUpdate) (slot : ℕ)
      (committee : SyncCommittee)
      → expected_current_slot client.config now ≡ ok slot
      → IsAcceptable client now update committee
      → Checks client update slot
  Checks-of_acceptable client now update slot committee e a =
      let (p, s) = for_committee client.store update committee a.committee_for in
      (
        a.signed.0,
        (is_valid_time_lem client now update slot e).1 a.timely,
        p,
        (is_relevant_lem client.store update).1 a.relevant,
        (check_finality_proof_lem update).1 a.finality_proof,
        (check_next_committee_proof_lem update).1 a.committee_proof,
        (check_signature_lem client update committee s).1 a.signed.1,
      )

  -- `verify_generic_update` passes exactly the updates that are acceptable for the committee of the
  -- store that signs in the period of the signature.
  pub verify_generic_update_iff :
      (client : ConsensusClient) (now : ℕ) (update : GenericUpdate)
      → (verify_generic_update client now update ≡ ok tt)
        ↔ ((committee : SyncCommittee) × IsAcceptable client now update committee)
  verify_generic_update_iff client now update = (sound, complete)
    where
      sound :
          verify_generic_update client now update ≡ ok tt
          → (committee : SyncCommittee) × IsAcceptable client now update committee
      sound h =
          let (slot, e) = expected_current_slot_of_ok client now update h in
          let checks = (Checks-iff client now update slot e).0 h in
          let (committee, s) = signing_committee_of_ok client update checks.6 in
          (committee, IsAcceptable-of_Checks client now update slot committee e s checks)

      complete :
          (committee : SyncCommittee) × IsAcceptable client now update committee
          → verify_generic_update client now update ≡ ok tt
      complete (committee, a) =
          let e = expected_current_slot_of_timely client now update a.timely in
          (Checks-iff client now update _ e).1
            (Checks-of_acceptable client now update _ committee e a)
