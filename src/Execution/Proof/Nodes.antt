-- ===== src/Execution/Proof/Nodes.antt =====
-- Each kind of node that `verify_proof` accepts is one of those of a proof.
use forcerelay_verifier.Prelude.{
  ℕ, zero, suc, ◌+◌, ◌*◌, ◌≤◌, ◌<◌, ◌≡◌, refl, sym, ap, subst, ◌∙◌, Bool, true, false, not, ◌&&◌,
  some, List, [], ◌∷◌, ◌++◌, arith, length, get_elem?, drop, bytes_eq, bytes_eq→eq, bytes_eq_refl,
  ltb, if◌then◌else◌, ok, unwrap, >>=-eq-ok, unwrap-eq-ok, ok-injective, sub64, u64_mod,
}
use forcerelay_verifier.Common.{Bytes}
use forcerelay_verifier.Execution.Errors.{Result}
use forcerelay_verifier.Execution.Primitives.{Primitives}
use forcerelay_verifier.Execution.Proof.{
  get_nibble, skip_length, paths_match, shared_prefix_length, is_empty, is_empty_value,
  verify_last_branch, verify_last_path, verify_branch, verify_path,
}
use forcerelay_verifier.Execution.Proof.Nibbles.{
  nibbles, length-nibbles, common_length, get_nibble_lem, paths_match_lem, shared_prefix_length_lem,
  length-rest, length-drop,
}
use forcerelay_verifier.Execution.Proof.Spec.{
  IsShort, Proves, included, diverged, empty_child, branch, extension,
}

get_elem?-drop :
    (xs : List ℕ) (i x : ℕ)
    → get_elem? xs i ≡ some x
    → (drop i xs ≡ x ∷ drop (suc i) xs) × (suc i ≤ length xs)
get_elem?-drop [] i x h = ground arith
get_elem?-drop (y ∷ xs) zero x h = ground arith
get_elem?-drop (y ∷ xs) (suc i) x h = ground (arith, get_elem?-drop xs i x)

pub skip_length-le : (p : Bytes) (skip : ℕ) → skip_length p ≡ ok skip → skip ≤ length p * 2
unfolding skip_length get_nibble
skip_length-le [] skip h = ground arith
skip_length-le (b ∷ p) skip h = ground arith

-- A list that has another one in common whole starts with it.
common_length-prefix :
    (xs ys : List ℕ)
    → length ys ≤ common_length xs ys
    → (xs ≡ ys ++ drop (length ys) xs) × (length ys ≤ length xs)
unfolding common_length
common_length-prefix xs [] h = (refl, omega arith)
common_length-prefix [] (y ∷ ys) h = ground arith
common_length-prefix (x ∷ xs) (y ∷ ys) h = ground (arith, common_length-prefix xs ys)

common_length-le : (xs ys : List ℕ) → common_length xs ys ≤ length ys
unfolding common_length
common_length-le [] ys = omega arith
common_length-le (x ∷ xs) [] = omega arith
common_length-le (x ∷ xs) (y ∷ ys) = ground (arith, common_length-le xs ys)

ltb-false : (a b : ℕ) → ltb a b ≡ false → b ≤ a
ltb-false a b h = ground arith

drop-[] : (n : ℕ) → drop {A = ℕ} n [] ≡ []
drop-[] zero = refl
drop-[] (suc n) = refl

pub drop-drop : (i j : ℕ) (xs : List ℕ) → drop j (drop i xs) ≡ drop (i + j) xs
drop-drop zero j xs = ap (λ n. drop n xs) e
  where
    e : j ≡ 0 + j
    e = omega arith
drop-drop (suc i) j [] = drop-[] j ∙ sym (drop-[] (suc i + j))
drop-drop (suc i) j (x ∷ xs) = drop-drop i j xs ∙ ap (λ n. drop n (x ∷ xs)) e
  where
    e : suc (i + j) ≡ suc i + j
    e = omega arith

module _ ⦃lib : Primitives⦄ (path value : Bytes) where
  -- what the rest of the loop gives at an offset in the path
  abbrev pub IsSound : (Bytes → ℕ → Result Bool) → List Bytes → Type 0
  IsSound next proof =
      (child : Bytes) (offset : ℕ)
      → offset ≤ length path * 2
      → next child offset ≡ ok true
      → Proves value child (drop offset (nibbles path)) proof

  pub verify_branch-Proves :
      (hash node : Bytes) (items : List Bytes) (path_offset : ℕ) (next : Bytes → ℕ → Result Bool)
      (second : Bytes) (proof : List Bytes)
      → hash ≡ lib.keccak256 node
      → lib.decode_list node ≡ some items
      → length items ≡ 17
      → IsSound next (second ∷ proof)
      → verify_branch path path_offset items next ≡ ok true
      → Proves value hash (drop path_offset (nibbles path)) (node ∷ second ∷ proof)
  unfolding verify_branch
  verify_branch-Proves hash node items path_offset next second proof p q r sound h =
      let (nibble, s, h1) = >>=-eq-ok (get_nibble path path_offset) _ h in
      let (child, t, h2) = >>=-eq-ok (unwrap (get_elem? items nibble)) _ h1 in
      let (split, bound) =
        get_elem?-drop (nibbles path) path_offset nibble
          (unwrap-eq-ok _ (sym (get_nibble_lem path path_offset) ∙ s)) in
      branch node child second nibble
        (record {
          items = items;
          hashes = p;
          decodes = q;
          is_full = r;
          has_child = unwrap-eq-ok _ t;
        })
        split
        (subst (λ n. Proves value child (drop n (nibbles path)) (second ∷ proof)) next_eq
          (sound child (path_offset + 1) (omega (arith, bound, length-nibbles path)) h2))
    where
      next_eq : path_offset + 1 ≡ suc path_offset
      next_eq = omega arith

  pub verify_last_branch-Proves :
      (hash node : Bytes) (items : List Bytes) (path_offset : ℕ)
      → hash ≡ lib.keccak256 node
      → lib.decode_list node ≡ some items
      → length items ≡ 17
      → verify_last_branch path value path_offset items ≡ ok true
      → Proves value hash (drop path_offset (nibbles path)) (node ∷ [])
  unfolding verify_last_branch
  verify_last_branch-Proves hash node items path_offset p q r h =
      let (nibble, s, h1) = >>=-eq-ok (get_nibble path path_offset) _ h in
      let (child, t, h2) = >>=-eq-ok (unwrap (get_elem? items nibble)) _ h1 in
      let (split, bound) =
        get_elem?-drop (nibbles path) path_offset nibble
          (unwrap-eq-ok _ (sym (get_nibble_lem path path_offset) ∙ s)) in
      let (none_there, is_empty_value_eq) = both child (is_empty_value value) (ok-injective h2) in
      empty_child node nibble
        (record {
          items = items;
          hashes = p;
          decodes = q;
          is_full = r;
          has_child = unwrap-eq-ok _ t ∙ ap some none_there;
        })
        is_empty_value_eq split
    where
      both : (child : Bytes) (b : Bool) → (is_empty child && b) ≡ true → (child ≡ []) × (b ≡ true)
      both [] b e = (refl, e)
      both (x ∷ child) b e = ground arith

  pub verify_last_path-Proves :
      (hash node node_path item : Bytes) (path_offset : ℕ)
      → length path * 2 < u64_mod
      → length node_path * 2 < u64_mod
      → path_offset ≤ length path * 2
      → hash ≡ lib.keccak256 node
      → lib.decode_list node ≡ some (node_path ∷ item ∷ [])
      → verify_last_path path value path_offset node_path item ≡ ok true
      → Proves value hash (drop path_offset (nibbles path)) (node ∷ [])
  unfolding verify_last_path
  verify_last_path-Proves hash node node_path item path_offset b1 b2 le p q h =
      let (skip, s, h1) = >>=-eq-ok (skip_length node_path) _ h in
      let (is_match, t, h2) = >>=-eq-ok (paths_match node_path skip path path_offset) _ h1 in
      let same = ok-injective (
        sym (
          paths_match_lem node_path skip path path_offset b2 b1 (skip_length-le node_path skip s)
            le)
        ∙ t) in
      go skip (record { hashes = p; decodes = q; skips = s }) is_match same (ok-injective h2)
    where
      go :
          (skip : ℕ)
          → IsShort hash node node_path item skip
          → (is_match : Bool)
          → bytes_eq (drop skip (nibbles node_path)) (drop path_offset (nibbles path)) ≡ is_match
          → (if not is_match && is_empty_value value then true else bytes_eq item value && is_match)
            ≡ true
          → Proves value hash (drop path_offset (nibbles path)) (node ∷ [])
      go skip short true same e =
          included node node_path item skip short (bytes_eq→eq _ _ (both _ e))
            (bytes_eq→eq _ _ same)
        where
          both : (b : Bool) → (b && true) ≡ true → b ≡ true
          both b e = ground arith
      go skip short false same e =
          diverged node node_path item skip short (either _ _ e)
            (λ eq. absurd (differs (sym (eq_true eq) ∙ same)))
        where
          either : (a b : Bool) → (if a then true else b && false) ≡ true → a ≡ true
          either a b e = ground arith

          differs : ¬ (true ≡ false)
          differs e = cc

          eq_true :
              drop skip (nibbles node_path) ≡ drop path_offset (nibbles path)
              → bytes_eq (drop skip (nibbles node_path)) (drop path_offset (nibbles path)) ≡ true
          eq_true eq = ap (λ xs. bytes_eq xs (drop path_offset (nibbles path))) eq ∙ bytes_eq_refl _

  pub verify_path-Proves :
      (hash node node_path item : Bytes) (path_offset : ℕ) (next : Bytes → ℕ → Result Bool)
      (second : Bytes) (proof : List Bytes)
      → length path * 2 < u64_mod
      → length node_path * 2 < u64_mod
      → path_offset ≤ length path * 2
      → hash ≡ lib.keccak256 node
      → lib.decode_list node ≡ some (node_path ∷ item ∷ [])
      → IsSound next (second ∷ proof)
      → verify_path path path_offset node_path item next ≡ ok true
      → Proves value hash (drop path_offset (nibbles path)) (node ∷ second ∷ proof)
  unfolding verify_path
  verify_path-Proves hash node node_path item path_offset next second proof b1 b2 le p q sound h =
      let (prefix, s, h1) = >>=-eq-ok (shared_prefix_length path path_offset node_path) _ h in
      let (skip, t, h2) = >>=-eq-ok (skip_length node_path) _ h1 in
      let skip_le = skip_length-le node_path skip t in
      let common =
        ok-injective
          (sym (shared_prefix_length_lem path path_offset node_path skip b1 b2 le t skip_le) ∙ s) in
      let (long, h3) = reaches (ltb prefix (sub64 (length node_path * 2) skip)) _ h2 in
      extend prefix skip (record { hashes = p; decodes = q; skips = t }) common
        (length-rest node_path skip b2 skip_le) long h3
    where
      reaches :
          (b : Bool) (call : Result Bool)
          → (if b then ok false else call) ≡ ok true
          → (b ≡ false) × (call ≡ ok true)
      reaches true call e = absurd (differs (ok-injective e))
        where
          differs : ¬ (false ≡ true)
          differs e = cc
      reaches false call e = (refl, e)

      extend :
          (prefix skip : ℕ)
          → IsShort hash node node_path item skip
          → common_length (drop path_offset (nibbles path)) (drop skip (nibbles node_path)) ≡ prefix
          → length (drop skip (nibbles node_path)) ≡ sub64 (length node_path * 2) skip
          → ltb prefix (sub64 (length node_path * 2) skip) ≡ false
          → next item (path_offset + prefix) ≡ ok true
          → Proves value hash (drop path_offset (nibbles path)) (node ∷ second ∷ proof)
      extend prefix skip short common len long h3 =
          let whole = drop path_offset (nibbles path) in
          let own = drop skip (nibbles node_path) in
          let all : length own ≤ common_length whole own =
            omega (arith, common, len, ltb-false _ _ long) in
          let (split, shorter) = common_length-prefix whole own all in
          let exact : length own ≡ prefix =
            omega (arith, common, all, common_length-le whole own) in
          extension node node_path item second skip short
            (split
              ∙ ap (λ n. own ++ drop n whole) exact
              ∙ ap (λ xs. own ++ xs) (drop-drop path_offset prefix (nibbles path)))
            (sound item (path_offset + prefix)
              (omega (
                arith,
                shorter,
                exact,
                length-drop path_offset (nibbles path),
                length-nibbles path,
                le,
              ))
              h3)
