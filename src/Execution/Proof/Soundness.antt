-- ===== src/Execution/Proof/Soundness.antt =====
-- `verify_proof` accepts only what a proof proves.
use forcerelay_verifier.Prelude.{
  ℕ, ◌*◌, ◌≤◌, ◌<◌, ◌≡◌, inl, inr, Bool, true, false, some, List, [], ◌∷◌, arith, length, drop,
  bytes_eq, bytes_eq→eq, ◌==◌, ok, unwrap, >>=-eq-ok, unwrap-eq-ok, ok-injective, Bool-cases,
  ==_iff, u64_mod,
}
use forcerelay_verifier.Common.{Bytes}
use forcerelay_verifier.Execution.Errors.{Result}
use forcerelay_verifier.Execution.Primitives.{Primitives}
use forcerelay_verifier.Execution.Proof.{
  is_last, verify_short, verify_node, verify_from, verify_proof,
}
use forcerelay_verifier.Execution.Proof.Nibbles.{nibbles}
use forcerelay_verifier.Execution.Proof.Spec.{Proves}
use forcerelay_verifier.Execution.Proof.Nodes.{
  IsSound, verify_branch-Proves, verify_last_branch-Proves, verify_path-Proves,
  verify_last_path-Proves,
}

-- A `usize` counts the nibbles of the paths in nodes.
abbrev pub HasCountedPaths : Primitives → Type 0
HasCountedPaths lib =
    (node node_path item : Bytes)
    → lib.decode_list node ≡ some (node_path ∷ item ∷ [])
    → length node_path * 2 < u64_mod

refused : {A : Type 0} → Path (Result Bool) (ok false) (ok true) → A
refused e = absurd (differs (ok-injective e))
  where
    differs : ¬ (false ≡ true)
    differs e = cc

module _ ⦃lib : Primitives⦄ (path value : Bytes) (bound : length path * 2 < u64_mod)
    (counted : HasCountedPaths lib) (hash node : Bytes) (path_offset : ℕ)
    (le : path_offset ≤ length path * 2) (p : hash ≡ lib.keccak256 node) where
  last_short-Proves :
      (items : List Bytes) (next : Bytes → ℕ → Result Bool)
      → lib.decode_list node ≡ some items
      → verify_short path value path_offset true items next ≡ ok true
      → Proves value hash (drop path_offset (nibbles path)) (node ∷ [])
  unfolding verify_short
  last_short-Proves [] next q h = refused h
  last_short-Proves (a ∷ []) next q h = refused h
  last_short-Proves (a ∷ b ∷ []) next q h =
      verify_last_path-Proves path value hash node a b path_offset bound (counted node a b q) le p q
        h
  last_short-Proves (a ∷ b ∷ c ∷ items) next q h = refused h

  inner_short-Proves :
      (items : List Bytes) (next : Bytes → ℕ → Result Bool) (second : Bytes) (proof : List Bytes)
      → lib.decode_list node ≡ some items
      → IsSound path value next (second ∷ proof)
      → verify_short path value path_offset false items next ≡ ok true
      → Proves value hash (drop path_offset (nibbles path)) (node ∷ second ∷ proof)
  unfolding verify_short
  inner_short-Proves [] next second proof q sound h = refused h
  inner_short-Proves (a ∷ []) next second proof q sound h = refused h
  inner_short-Proves (a ∷ b ∷ []) next second proof q sound h =
      verify_path-Proves path value hash node a b path_offset next second proof bound
        (counted node a b q) le p q sound h
  inner_short-Proves (a ∷ b ∷ c ∷ items) next second proof q sound h = refused h

  last-Proves :
      (items : List Bytes) (next : Bytes → ℕ → Result Bool)
      → lib.decode_list node ≡ some items
      → verify_node path value path_offset true items next ≡ ok true
      → Proves value hash (drop path_offset (nibbles path)) (node ∷ [])
  unfolding verify_node
  last-Proves items next q h = elim (Bool-cases (length items == 17)) [
    | inl e ↦
        verify_last_branch-Proves path value hash node items path_offset p q ((==_iff _ _).0 e)
          (rw e at h)
    | inr e ↦ last_short-Proves items next q (rw e at h)
  ]

  inner-Proves :
      (items : List Bytes) (next : Bytes → ℕ → Result Bool) (second : Bytes) (proof : List Bytes)
      → lib.decode_list node ≡ some items
      → IsSound path value next (second ∷ proof)
      → verify_node path value path_offset false items next ≡ ok true
      → Proves value hash (drop path_offset (nibbles path)) (node ∷ second ∷ proof)
  unfolding verify_node
  inner-Proves items next second proof q sound h = elim (Bool-cases (length items == 17)) [
    | inl e ↦
        verify_branch-Proves path value hash node items path_offset next second proof p q
          ((==_iff _ _).0 e) sound (rw e at h)
    | inr e ↦ inner_short-Proves items next second proof q sound (rw e at h)
  ]

module _ ⦃lib : Primitives⦄ (path value : Bytes) (bound : length path * 2 < u64_mod)
    (counted : HasCountedPaths lib) where
  -- the first node has the expected hash and decodes
  first_node :
      (hash node : Bytes) (path_offset : ℕ) (proof : List Bytes)
      → verify_from path value hash path_offset (node ∷ proof) ≡ ok true
      → (hash ≡ lib.keccak256 node)
        × ((items : List Bytes) × (lib.decode_list node ≡ some items)
            × (verify_node path value path_offset
                  (is_last proof)
                  items
                  (λ h n. verify_from path value h n proof)
                ≡ ok true))
  unfolding verify_from
  first_node hash node path_offset proof h =
      elim (Bool-cases (bytes_eq hash (lib.keccak256 node))) [
        | inl e ↦
            let (items, q, h1) = >>=-eq-ok (unwrap (lib.decode_list node)) _ (rw e at h) in
            (bytes_eq→eq _ _ e, (items, unwrap-eq-ok _ q, h1))
        | inr e ↦ refused (rw e at h)
      ]

  verify_from-Proves :
      (proof : List Bytes) (hash : Bytes) (path_offset : ℕ)
      → path_offset ≤ length path * 2
      → verify_from path value hash path_offset proof ≡ ok true
      → Proves value hash (drop path_offset (nibbles path)) proof
  unfolding verify_from
  verify_from-Proves [] hash path_offset le h = refused h
  verify_from-Proves (node ∷ []) hash path_offset le h =
      let (p, (items, q, h1)) = first_node hash node path_offset [] h in
      last-Proves path value bound counted hash node path_offset le p items _ q h1
  verify_from-Proves (node ∷ second ∷ proof) hash path_offset le h =
      let (p, (items, q, h1)) = first_node hash node path_offset (second ∷ proof) h in
      inner-Proves path value bound counted hash node path_offset le p items _ second proof q
        (λ child offset le' h'. verify_from-Proves (second ∷ proof) child offset le' h') h1

  -- An accepted proof proves the value at the nibbles of the key.
  pub verify_proof-Proves :
      (proof : List Bytes) (root : Bytes)
      → verify_proof proof root path value ≡ ok true
      → Proves value root (nibbles path) proof
  unfolding verify_proof
  verify_proof-Proves proof root h = verify_from-Proves proof root 0 (omega arith) h
