-- ===== src/Consensus/Verify.antt =====
-- consensus/src/consensus.rs: the checks on a light-client update. The order of the tests is the
-- order of the errors.
pub mod Spec
pub mod Branches
use forcerelay_verifier.Prelude.{
  ℕ, ◌+◌, Bool, false, not, ◌&&◌, ◌||◌, Option, none, some, List, ◌∷◌, [], ◌==◌, leb, ltb,
  if◌then◌else◌, ok, guard, ◌>>=◌, ◌>>◌, unwrap, ok_or, ok_or_default, is_some, is_none,
}
use forcerelay_verifier.Common.{Bytes32, Node, to_array32}
use forcerelay_verifier.Config.Types.{Config, fork_version}
use forcerelay_verifier.Consensus.Types.{
  Header, SyncCommittee, SignatureBytes, GenericUpdate, Update, FinalityUpdate, OptimisticUpdate,
  from_update, from_finality_update, from_optimistic_update,
}
use forcerelay_verifier.Consensus.Errors.{
  Result, insufficient_participation, invalid_timestamp, invalid_period, not_relevant,
  invalid_finality_proof, invalid_next_sync_committee_proof, invalid_signature, other,
}
use forcerelay_verifier.Consensus.Primitives.{Primitives}
use forcerelay_verifier.Consensus.Utils.{
  calc_sync_period, get_bits, get_participating_keys, is_finality_proof_valid,
  is_next_committee_proof_valid, is_aggregate_valid, compute_domain, compute_signing_root,
}
use forcerelay_verifier.Consensus.State.{LightClientStore, ConsensusClient, expected_current_slot}

-- `h.clone().unwrap_or_default().slot`, and `h.as_ref().map(|h| h.slot).unwrap_or(0)`
abbrev pub slot_or_zero : Option Header → ℕ
slot_or_zero none = 0
slot_or_zero (some header) = header.slot

-- `signature_slot` against the clock, the attested header and the finalized header
unfoldable pub is_valid_time : ℕ → GenericUpdate → Bool
is_valid_time current_slot update =
    leb update.signature_slot current_slot
    && ltb update.attested_header.slot update.signature_slot
    && leb (slot_or_zero update.finalized_header) update.attested_header.slot

unfoldable pub is_valid_period : LightClientStore → GenericUpdate → Bool
is_valid_period store update =
    let store_period = calc_sync_period store.finalized_header.slot in
    let update_sig_period = calc_sync_period update.signature_slot in
    if is_some store.next_sync_committee
    then update_sig_period == store_period || update_sig_period == store_period + 1
    else update_sig_period == store_period

-- not (`attested_header.slot <= finalized_header.slot && !update_has_next_committee`)
unfoldable pub is_relevant : LightClientStore → GenericUpdate → Bool
is_relevant store update =
    let store_period = calc_sync_period store.finalized_header.slot in
    let update_has_next_committee =
      is_none store.next_sync_committee
      && is_some update.next_sync_committee
      && calc_sync_period update.attested_header.slot == store_period in
    not
      (leb update.attested_header.slot store.finalized_header.slot && not update_has_next_committee)

-- the committee that signs in the period of `signature_slot`
unfoldable pub signing_committee : LightClientStore → GenericUpdate → Result SyncCommittee
signing_committee store update =
    if calc_sync_period update.signature_slot == calc_sync_period store.finalized_header.slot
    then ok store.current_sync_committee
    else unwrap store.next_sync_committee

module _ ⦃lib : Primitives⦄ where
  unfoldable pub compute_committee_sign_root : Config → Bytes32 → ℕ → Result Node
  unfolding compute_domain compute_signing_root fork_version
  compute_committee_sign_root config header slot = do
    genesis_root ← unwrap (to_array32 config.chain.genesis_root)
    version ← unwrap (lib.vector_from_iter 4 (fork_version config slot))
    domain ← compute_domain (7 ∷ 0 ∷ 0 ∷ 0 ∷ []) version genesis_root
    compute_signing_root header domain

  -- `bytes_to_bytes32` is a `Vector::from_iter`. An error of the closure is `false`.
  unfoldable pub verify_sync_committee_signture :
      Config → List lib.PublicKey → Header → SignatureBytes → ℕ → Result Bool
  unfolding compute_committee_sign_root is_aggregate_valid
  verify_sync_committee_signture config pks attested_header signature signature_slot =
      ok_or_default
        (do
          root ← ok_or (lib.header_root attested_header) other
          header_root ← unwrap (lib.vector_from_iter 32 root)
          signing_root ← compute_committee_sign_root config header_root signature_slot
          ok (is_aggregate_valid signature signing_root pks))
        false

  -- the finality proof, where the update has one
  unfoldable pub check_finality_proof : GenericUpdate → Result (Unit {0})
  unfolding is_finality_proof_valid
  check_finality_proof update = elim update.finalized_header [
    | none ↦ ok tt
    | some finalized_header ↦ elim update.finality_branch [
      | none ↦ ok tt
      | some finality_branch ↦ do
        is_valid ← is_finality_proof_valid update.attested_header finalized_header finality_branch
        guard is_valid invalid_finality_proof
    ]
  ]

  -- the proof of the next sync committee, where the update has one
  unfoldable pub check_next_committee_proof : GenericUpdate → Result (Unit {0})
  unfolding is_next_committee_proof_valid
  check_next_committee_proof update = elim update.next_sync_committee [
    | none ↦ ok tt
    | some next_sync_committee ↦ elim update.next_sync_committee_branch [
      | none ↦ ok tt
      | some branch ↦ do
        is_valid ← is_next_committee_proof_valid update.attested_header next_sync_committee branch
        guard is_valid invalid_next_sync_committee_proof
    ]
  ]

  unfoldable pub check_signature : ConsensusClient → GenericUpdate → Result (Unit {0})
  unfolding get_participating_keys verify_sync_committee_signture signing_committee
  check_signature client update = do
    sync_committee ← signing_committee client.store update
    pks ← get_participating_keys sync_committee update.sync_aggregate.sync_committee_bits
    is_valid_sig ←
        verify_sync_committee_signture client.config pks update.attested_header
          update.sync_aggregate.sync_committee_signature update.signature_slot
    guard is_valid_sig invalid_signature

  unfoldable pub verify_generic_update : ConsensusClient → ℕ → GenericUpdate → Result (Unit {0})
  verify_generic_update client now update = do
    guard (not (get_bits update.sync_aggregate.sync_committee_bits == 0)) insufficient_participation
    current_slot ← expected_current_slot client.config now
    guard (is_valid_time current_slot update) invalid_timestamp
    guard (is_valid_period client.store update) invalid_period
    guard (is_relevant client.store update) not_relevant
    check_finality_proof update
    check_next_committee_proof update
    check_signature client update

  unfoldable pub verify_update : ConsensusClient → ℕ → Update → Result (Unit {0})
  verify_update client now update = verify_generic_update client now (from_update update)

  unfoldable pub verify_finality_update : ConsensusClient → ℕ → FinalityUpdate → Result (Unit {0})
  verify_finality_update client now update =
      verify_generic_update client now (from_finality_update update)

  unfoldable pub verify_optimistic_update :
      ConsensusClient → ℕ → OptimisticUpdate → Result (Unit {0})
  verify_optimistic_update client now update =
      verify_generic_update client now (from_optimistic_update update)
