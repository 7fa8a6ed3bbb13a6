-- ===== src/Execution/Proof/Completeness.antt =====
-- `verify_proof` accepts all that a proof proves.
use forcerelay_verifier.Prelude.{
  ℕ, zero, suc, ◌+◌, ◌*◌, ◌≤◌, ◌<◌, ◌≡◌, ◌↔◌, length-append, refl, sym, ap, ◌∙◌, inl, inr, true,
  false, some, List, [], ◌∷◌, ◌++◌, arith, length, get_elem?, drop, bytes_eq, bytes_eq→eq,
  bytes_eq_refl, ltb, ok, unwrap, Bool-cases, ==_iff, sub64, u64_mod,
}
use forcerelay_verifier.Common.{Bytes}
use forcerelay_verifier.Execution.Primitives.{Primitives}
use forcerelay_verifier.Execution.Proof.{
  get_nibble, shared_prefix_length, is_last, verify_last_branch, verify_last_path, verify_branch,
  verify_path, verify_short, verify_node, verify_from, verify_proof,
}
use forcerelay_verifier.Execution.Proof.Nibbles.{
  nibbles, length-nibbles, common_length, get_nibble_lem, paths_match_lem, shared_prefix_length_lem,
  length-rest, length-drop,
}
use forcerelay_verifier.Execution.Proof.Spec.{
  Proves, included, diverged, empty_child, branch, extension,
}
use forcerelay_verifier.Execution.Proof.Nodes.{skip_length-le, drop-drop}
use forcerelay_verifier.Execution.Proof.Soundness.{HasCountedPaths, verify_proof-Proves}

ltb_refl : (n : ℕ) → ltb n n ≡ false
ltb_refl n = ground arith

drop-get_elem? :
    (xs : List ℕ) (i x : ℕ) (rest : List ℕ)
    → drop i xs ≡ x ∷ rest
    → (get_elem? xs i ≡ some x) × (drop (suc i) xs ≡ rest) × (suc i ≤ length xs)
drop-get_elem? [] zero x rest h = ground arith
drop-get_elem? [] (suc i) x rest h = ground arith
drop-get_elem? (y ∷ xs) zero x rest h = (ground arith, ground arith, omega arith)
drop-get_elem? (y ∷ xs) (suc i) x rest h = ground (arith, drop-get_elem? xs i x rest)

common_length-append : (own rest : List ℕ) → common_length (own ++ rest) own ≡ length own
unfolding common_length
common_length-append [] rest = common_length_[] rest
  where
    common_length_[] : (xs : List ℕ) → common_length xs [] ≡ 0
    common_length_[] [] = refl
    common_length_[] (x ∷ xs) = refl
common_length-append (x ∷ own) rest = rw ((==_iff x x).1 refl, common_length-append own rest) refl

drop-append : (own rest : List ℕ) → drop (length own) (own ++ rest) ≡ rest
drop-append [] rest = refl
drop-append (x ∷ own) rest = drop-append own rest

bytes_eq-differ : (xs ys : List ℕ) → ¬ (xs ≡ ys) → bytes_eq xs ys ≡ false
bytes_eq-differ xs ys h = elim (Bool-cases (bytes_eq xs ys)) [
  | inl e ↦ absurd (h (bytes_eq→eq xs ys e))
  | inr e ↦ e
]

module _ ⦃lib : Primitives⦄ (path value : Bytes) (bound : length path * 2 < u64_mod)
    (counted : HasCountedPaths lib) where
  -- the first node of the hash is handed to `verify_node`
  enter :
      (hash node : Bytes) (items : List Bytes) (path_offset : ℕ) (proof : List Bytes)
      → hash ≡ lib.keccak256 node
      → lib.decode_list node ≡ some items
      → verify_from path value hash path_offset (node ∷ proof)
        ≡ verify_node path value path_offset
            (is_last proof)
            items
            (λ h n. verify_from path value h n proof)
  unfolding verify_from
  enter hash node items path_offset proof p q =
      rw (ap (λ h. bytes_eq h (lib.keccak256 node)) p ∙ bytes_eq_refl (lib.keccak256 node), q) refl

  get_nibble-at :
      (path_offset nibble : ℕ) (rest : List ℕ)
      → drop path_offset (nibbles path) ≡ nibble ∷ rest
      → get_nibble path path_offset ≡ ok nibble
  get_nibble-at path_offset nibble rest e =
      get_nibble_lem path path_offset
      ∙ ap unwrap (drop-get_elem? (nibbles path) path_offset nibble rest e).0

  verify_from_complete :
      (hash : Bytes) (rest : List ℕ) (proof : List Bytes) (path_offset : ℕ)
      → path_offset ≤ length path * 2
      → drop path_offset (nibbles path) ≡ rest
      → Proves value hash rest proof
      → verify_from path value hash path_offset proof ≡ ok true
  unfolding verify_node verify_short verify_last_path verify_last_branch verify_branch verify_path
  verify_from_complete hash rest proof path_offset le at
        (included node node_path item skip short same eq) =
      enter hash node _ path_offset [] short.hashes short.decodes
      ∙ rw
          (
            short.skips,
            paths_match_lem node_path skip path path_offset
                (counted node node_path item short.decodes) bound
                (skip_length-le node_path skip short.skips) le,
            eq,
            at,
            bytes_eq_refl rest,
            same,
            bytes_eq_refl value,
          )
          refl
  verify_from_complete hash rest proof path_offset le at
        (diverged node node_path item skip short empty differs) =
      enter hash node _ path_offset [] short.hashes short.decodes
      ∙ rw
          (
            short.skips,
            paths_match_lem node_path skip path path_offset
                (counted node node_path item short.decodes) bound
                (skip_length-le node_path skip short.skips) le,
            at,
            bytes_eq-differ _ _ differs,
            empty,
          )
          refl
  verify_from_complete hash rest proof path_offset le at (empty_child node nibble br empty whole) =
      enter hash node br.items path_offset [] br.hashes br.decodes
      ∙ rw (br.is_full, get_nibble-at path_offset nibble _ (at ∙ whole), br.has_child, empty) refl
  verify_from_complete hash rest proof path_offset le at
        (branch {rest = after} node child next nibble {proof = later} br whole inner) =
      let (got, behind, bounded) =
        drop-get_elem? (nibbles path) path_offset nibble after (at ∙ whole) in
      enter hash node br.items path_offset (next ∷ later) br.hashes br.decodes
      ∙ rw (br.is_full, get_nibble-at path_offset nibble after (at ∙ whole), br.has_child)
          (verify_from_complete child after (next ∷ later) (path_offset + 1)
            (omega (arith, bounded, length-nibbles path))
            (ap (λ n. drop n (nibbles path)) (suc_eq path_offset) ∙ behind) inner)
    where
      suc_eq : (n : ℕ) → n + 1 ≡ suc n
      suc_eq n = omega arith
  verify_from_complete hash rest proof path_offset le at
        (extension {rest = after} node node_path child next skip {proof = later} short whole
          inner) =
      let own = drop skip (nibbles node_path) in
      let node_bound = counted node node_path child short.decodes in
      let skip_le = skip_length-le node_path skip short.skips in
      let len : length own ≡ sub64 (length node_path * 2) skip =
        length-rest node_path skip node_bound skip_le in
      let shared : shared_prefix_length path path_offset node_path ≡ ok (length own) =
        shared_prefix_length_lem path path_offset node_path skip bound node_bound le short.skips
          skip_le
        ∙ ap (λ xs. ok (common_length xs own)) (at ∙ whole)
        ∙ ap ok (common_length-append own after) in
      let total : length (drop path_offset (nibbles path)) ≡ length own + length after =
        ap length (at ∙ whole) ∙ length-append own after in
      enter hash node (node_path ∷ child ∷ []) path_offset (next ∷ later) short.hashes short.decodes
      ∙ rw (shared, short.skips, ap (ltb (length own)) (sym len) ∙ ltb_refl (length own))
          (verify_from_complete child after (next ∷ later) (path_offset + length own)
            (omega (arith, total, length-drop path_offset (nibbles path), length-nibbles path, le))
            (sym (drop-drop path_offset (length own) (nibbles path))
              ∙ ap (drop (length own)) (at ∙ whole)
              ∙ drop-append own after)
            inner)

  -- Where a `usize` counts the nibbles of the key and of the paths in nodes, `verify_proof` accepts
  -- exactly the proofs that prove the value, or its absence, at the nibbles of the key under the
  -- root: each node has the hash that the node before it holds for the nibbles so far. A last node of
  -- two items proves an absence whenever the rest of the key is not its path, be it a leaf or not.
  pub verify_proof_iff :
      (proof : List Bytes) (root : Bytes)
      → (verify_proof proof root path value ≡ ok true) ↔ Proves value root (nibbles path) proof
  unfolding verify_proof
  verify_proof_iff proof root = (
    verify_proof-Proves path value bound counted proof root,
    verify_from_complete root (nibbles path) proof 0 (omega arith) refl,
  )
