-- ===== src/Execution/Proof/Truncated.antt =====
-- execution/src/proof.rs: an exclusion proof may end at an extension node. The code takes a last node
-- of two items for a leaf, so that an extension node counts as a leaf of another key.
use forcerelay_verifier.Prelude.{
  ℕ, ◌*◌, ◌<◌, ◌≡◌, refl, sym, ap, ◌∙◌, subst, true, some, List, [], ◌∷◌, ◌++◌, arith, length,
  length-append, drop, ok, u64_mod, some-injective,
}
use forcerelay_verifier.Common.{Bytes}
use forcerelay_verifier.Execution.Primitives.{Primitives}
use forcerelay_verifier.Execution.Proof.{is_empty_value, verify_proof}
use forcerelay_verifier.Execution.Proof.Nibbles.{nibbles}
use forcerelay_verifier.Execution.Proof.Spec.{
  Proves, IsBranch, IsShort, included, diverged, empty_child, branch, extension,
}
use forcerelay_verifier.Execution.Proof.Soundness.{HasCountedPaths}
use forcerelay_verifier.Execution.Proof.Completeness.{verify_proof_iff}

head : {x y : Bytes} {xs ys : List Bytes} → x ∷ xs ≡ y ∷ ys → x ≡ y
head e = cc

tail : {x y : Bytes} {xs ys : List Bytes} → x ∷ xs ≡ y ∷ ys → xs ≡ ys
tail e = cc

-- no list is itself with some more behind
append-ne : (own rest : List ℕ) (n : ℕ) → ¬ (own ≡ own ++ (n ∷ rest))
append-ne own rest n e = omega (arith, ap length e, length-append own (n ∷ rest))

module _ ⦃lib : Primitives⦄ (empty : Bytes) (is_empty : is_empty_value empty ≡ true)
    (node next node_path child : Bytes) (later items : List Bytes)
    (short : lib.decode_list node ≡ some (node_path ∷ child ∷ []))
    (full : lib.decode_list next ≡ some items) (full_length : length items ≡ 17) where
  not-IsBranch : {n hash c : Bytes} {nibble : ℕ} → n ≡ node → ¬ IsBranch hash n c nibble
  not-IsBranch same b = omega (
    arith,
    ap length (some-injective (sym short ∙ ap lib.decode_list (sym same) ∙ b.decodes)),
    b.is_full,
  )

  not_two_items : {n a b : Bytes} → n ≡ next → ¬ (lib.decode_list n ≡ some (a ∷ b ∷ []))
  not_two_items same e = omega (
    arith,
    ap length (some-injective (sym full ∙ ap lib.decode_list (sym same) ∙ e)),
    full_length,
  )

  -- what a proof from a branch proves is at a key that does not end there
  at_branch :
      {value hash : Bytes} {rest : List ℕ} {proof : List Bytes}
      → Proves value hash rest proof
      → proof ≡ next ∷ later
      → (n : ℕ) × (after : List ℕ) × (rest ≡ n ∷ after)
  at_branch (included n path item skip s same at) e = absurd (not_two_items (head e) s.decodes)
  at_branch (diverged n path item skip s none differs) e = absurd (not_two_items (head e) s.decodes)
  at_branch (empty_child {rest = after} n nibble b none whole) e = (nibble, after, whole)
  at_branch (branch {rest = after} n c m nibble b whole inner) e = (nibble, after, whole)
  at_branch (extension n path c m skip s whole inner) e = absurd (not_two_items (head e) s.decodes)

  not_single : (before : List Bytes) {n : Bytes} → ¬ (n ∷ [] ≡ before ++ (node ∷ next ∷ later))
  not_single before e = omega (arith, ap length e, length-append before (node ∷ next ∷ later))

  -- a branch or an extension over a proof that is cut
  over_branch :
      {hash c : Bytes} {nibble : ℕ} {whole rest : List ℕ} (n : Bytes) (before : List Bytes)
      → IsBranch hash n c nibble
      → whole ≡ nibble ∷ rest
      → Proves empty c rest (before ++ (node ∷ []))
      → Proves empty hash whole (n ∷ (before ++ (node ∷ [])))
  over_branch {c = c} {nibble = nibble} n [] b whole inner = branch n c node nibble b whole inner
  over_branch {c = c} {nibble = nibble} n (m ∷ before) b whole inner =
      branch n c m nibble b whole inner

  over_extension :
      {hash c path : Bytes} {skip : ℕ} {whole rest : List ℕ} (n : Bytes) (before : List Bytes)
      → IsShort hash n path c skip
      → whole ≡ drop skip (nibbles path) ++ rest
      → Proves empty c rest (before ++ (node ∷ []))
      → Proves empty hash whole (n ∷ (before ++ (node ∷ [])))
  over_extension {c = c} {path = path} {skip = skip} n [] s whole inner =
      extension n path c node skip s whole inner
  over_extension {c = c} {path = path} {skip = skip} n (m ∷ before) s whole inner =
      extension n path c m skip s whole inner

  -- the extension itself, as a leaf of another key
  at_extension :
      {value hash c path : Bytes} {skip : ℕ} {whole rest : List ℕ} {proof : List Bytes} (n : Bytes)
      → IsShort hash n path c skip
      → whole ≡ drop skip (nibbles path) ++ rest
      → Proves value c rest proof
      → proof ≡ next ∷ later
      → Proves empty hash whole (n ∷ [])
  at_extension {c = c} {path = path} {skip = skip} n s whole inner e =
      let (nibble, after, q) = at_branch inner e in
      diverged n path c skip s is_empty (λ same.
        append-ne (drop skip (nibbles path)) after nibble
          (same ∙ whole ∙ ap (λ r. drop skip (nibbles path) ++ r) q))

  first_node :
      {hash m n : Bytes} {rest : List ℕ} {proof : List Bytes}
      → m ≡ n
      → Proves empty hash rest (m ∷ proof)
      → Proves empty hash rest (n ∷ proof)
  first_node {hash = hash} {rest = rest} {proof = proof} same d =
      subst (λ n. Proves empty hash rest (n ∷ proof)) same d

  truncated :
      {value hash : Bytes} {rest : List ℕ} {proof : List Bytes} (before : List Bytes)
      → Proves value hash rest proof
      → proof ≡ before ++ (node ∷ next ∷ later)
      → Proves empty hash rest (before ++ (node ∷ []))
  truncated before (included n path item skip s same at) e = absurd (not_single before e)
  truncated before (diverged n path item skip s none differs) e = absurd (not_single before e)
  truncated before (empty_child n nibble b none whole) e = absurd (not_single before e)
  truncated [] (branch n c m nibble b whole inner) e = absurd (not-IsBranch (head e) b)
  truncated (first ∷ before) (branch n c m nibble b whole inner) e =
      first_node (head e) (over_branch n before b whole (truncated before inner (tail e)))
  truncated [] (extension n path c m skip s whole inner) e =
      first_node (head e) (at_extension n s whole inner (tail e))
  truncated (first ∷ before) (extension n path c m skip s whole inner) e =
      first_node (head e) (over_extension n before s whole (truncated before inner (tail e)))

  -- Where a `usize` counts the nibbles of the key and of the paths in nodes: when a proof of any value
  -- is accepted, and a node of two items in it is followed by a branch node, the proof that is cut
  -- behind that node is accepted for each empty value at the same key. So a server can prove that a key
  -- under an extension node is absent although it has a value.
  pub truncated_proof_accepted :
      (path value root : Bytes) (before : List Bytes)
      → length path * 2 < u64_mod
      → HasCountedPaths lib
      → verify_proof (before ++ (node ∷ next ∷ later)) root path value ≡ ok true
      → verify_proof (before ++ (node ∷ [])) root path empty ≡ ok true
  truncated_proof_accepted path value root before bound counted e =
      (verify_proof_iff path empty bound counted (before ++ (node ∷ [])) root).1 (
        truncated before
          ((verify_proof_iff path value bound counted (before ++ (node ∷ next ∷ later)) root).0 e)
          refl)
