-- ===== src/Consensus/Utils.antt =====
-- consensus/src/utils.rs and the free functions at the end of consensus.rs: sync periods, Merkle
-- proofs, signing roots and the participants of a sync aggregate.
use forcerelay_verifier.Prelude.{
  ℕ, suc, ◌+◌, ◌/◌, Bool, true, false, Option, none, some, List, [], ◌∷◌, ◌++◌, get_elem?,
  if◌then◌else◌, ok, ◌>>=◌, ok_or, unwrap, ok_or_default,
}
use forcerelay_verifier.Common.{Bytes, Bytes32, Node, to_array32, bytes32_to_node, slice_to}
use forcerelay_verifier.Consensus.Types.{Header, SyncCommittee, SignatureBytes, BlsPubKey}
use forcerelay_verifier.Consensus.Errors.{Result, other}
use forcerelay_verifier.Consensus.Primitives.{Primitives}

-- 32 slots per epoch, 256 epochs per sync committee
unfoldable pub calc_sync_period : ℕ → ℕ
calc_sync_period slot = let epoch = slot / 32 in epoch / 256

unfoldable pub get_bits : List Bool → ℕ
get_bits [] = 0
get_bits (true ∷ bits) = suc (get_bits bits)
get_bits (false ∷ bits) = get_bits bits

unfoldable pub branch_to_nodes : List Bytes32 → Result (List Node)
branch_to_nodes [] = ok []
branch_to_nodes (bytes ∷ branch) = do
  node ← ok_or (bytes32_to_node bytes) other
  nodes ← branch_to_nodes branch
  ok (node ∷ nodes)

module _ ⦃lib : Primitives⦄ where
  unfoldable pub is_aggregate_valid : SignatureBytes → Bytes → List lib.PublicKey → Bool
  is_aggregate_valid sig_bytes msg pks = elim (lib.signature_from_bytes sig_bytes) [
    | some sig ↦ lib.fast_aggregate_verify sig msg pks
    | none ↦ false
  ]

  -- The leaf is given by its `hash_tree_root()`.
  unfoldable pub is_proof_valid : Header → Option Node → List Bytes32 → ℕ → ℕ → Result Bool
  is_proof_valid attested_header leaf_root branch depth index =
      ok_or_default
        (do
          leaf_hash ← ok_or leaf_root other
          state_root ← ok_or (bytes32_to_node attested_header.state_root) other
          nodes ← branch_to_nodes branch
          ok (lib.is_valid_merkle_branch leaf_hash nodes depth index state_root))
        false

  unfoldable pub is_finality_proof_valid : Header → Header → List Bytes32 → Result Bool
  unfolding is_proof_valid
  is_finality_proof_valid attested_header finality_header branch =
      is_proof_valid attested_header (lib.header_root finality_header) branch 6 41

  unfoldable pub is_next_committee_proof_valid : Header → SyncCommittee → List Bytes32 → Result Bool
  unfolding is_proof_valid
  is_next_committee_proof_valid attested_header next_committee branch =
      is_proof_valid attested_header (lib.committee_root next_committee) branch 5 23

  unfoldable pub is_current_committee_proof_valid :
      Header → SyncCommittee → List Bytes32 → Result Bool
  unfolding is_proof_valid
  is_current_committee_proof_valid attested_header current_committee branch =
      is_proof_valid attested_header (lib.committee_root current_committee) branch 5 22

  -- the loop from bit `i` on
  unfoldable pub participating_keys_from :
      ℕ → List BlsPubKey → List Bool → Result (List lib.PublicKey)
  participating_keys_from i pubkeys [] = ok []
  participating_keys_from i pubkeys (bit ∷ bits) =
      let rest = participating_keys_from (i + 1) pubkeys bits in
      if bit
      then (do
        bytes ← unwrap (get_elem? pubkeys i)
        pk ← unwrap (lib.from_bytes_unchecked bytes)
        pks ← rest
        ok (pk ∷ pks))
      else rest

  unfoldable pub get_participating_keys : SyncCommittee → List Bool → Result (List lib.PublicKey)
  unfolding participating_keys_from
  get_participating_keys committee bitfield = participating_keys_from 0 committee.pubkeys bitfield

  unfoldable pub compute_signing_root : Bytes32 → Bytes32 → Result Node
  compute_signing_root object_root domain =
      ok_or (lib.signing_data_root (record { object_root = object_root; domain = domain })) other

  unfoldable pub compute_fork_data_root : Bytes → Bytes32 → Result Node
  compute_fork_data_root current_version genesis_validator_root =
      ok_or
        (lib.fork_data_root (record {
          current_version = current_version;
          genesis_validator_root = genesis_validator_root;
        }))
        other

  unfoldable pub compute_domain : Bytes → Bytes → Bytes32 → Result Bytes32
  unfolding compute_fork_data_root
  compute_domain domain_type fork_version genesis_root = do
    fork_data_root ← compute_fork_data_root fork_version genesis_root
    end ← unwrap (slice_to 28 fork_data_root)
    unwrap (to_array32 (domain_type ++ end))
