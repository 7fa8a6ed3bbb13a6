-- ===== src/Execution/Proof/Unique.antt =====
-- execution/src/proof.rs: two accepted proofs of one length agree on the value.
use forcerelay_verifier.Prelude.{
  ℕ, ◌*◌, ◌<◌, ◌≡◌, refl, sym, ap, ◌∙◌, ◌⊎◌, inl, inr, true, List, [], ◌∷◌, ◌++◌, arith, length,
  get_elem?, drop, ok, u64_mod, some-injective, ok-injective,
}
use forcerelay_verifier.Common.{Bytes}
use forcerelay_verifier.Execution.Primitives.{Primitives}
use forcerelay_verifier.Execution.Proof.{skip_length, is_empty_value, verify_proof}
use forcerelay_verifier.Execution.Proof.Nibbles.{nibbles}
use forcerelay_verifier.Execution.Proof.Spec.{
  Proves, IsBranch, IsShort, included, diverged, empty_child, branch, extension,
}
use forcerelay_verifier.Execution.Proof.Soundness.{HasCountedPaths}
use forcerelay_verifier.Execution.Proof.Completeness.{verify_proof_iff}

append_cancel : (own : List ℕ) {xs ys : List ℕ} → own ++ xs ≡ own ++ ys → xs ≡ ys
append_cancel [] e = e
append_cancel (x ∷ own) e = append_cancel own (cc)

module _ ⦃lib : Primitives⦄ where
  -- Nodes at one depth of the two proofs that have one hash are the same.
  abbrev pub NoCollision : List Bytes → List Bytes → Type 0
  NoCollision (m ∷ ms) (n ∷ ns) = (lib.keccak256 m ≡ lib.keccak256 n → m ≡ n) × NoCollision ms ns
  NoCollision ms ns = Unit

  -- One value, or two that both stand for absence.
  abbrev pub Agree : Bytes → Bytes → Type 0
  Agree v w = (v ≡ w) ⊎ ((is_empty_value v ≡ true) × (is_empty_value w ≡ true))

  short-IsBranch :
      {h g m n path item c : Bytes} {skip nibble : ℕ}
      → m ≡ n
      → IsShort h m path item skip
      → ¬ IsBranch g n c nibble
  short-IsBranch same s b = omega (
    arith,
    ap length (some-injective (sym s.decodes ∙ ap lib.decode_list same ∙ b.decodes)),
    b.is_full,
  )

  same_short :
      {h g m n path path' item item' : Bytes} {skip skip' : ℕ}
      → m ≡ n
      → IsShort h m path item skip
      → IsShort g n path' item' skip'
      → (path ≡ path') × (item ≡ item') × (drop skip (nibbles path) ≡ drop skip' (nibbles path'))
  same_short {path = path} {path' = path'} {item = item} {item' = item'} same s t =
      let items = some-injective (sym s.decodes ∙ ap lib.decode_list same ∙ t.decodes) in
      let e : path ≡ path' = cc in
      let k = ok-injective (sym s.skips ∙ ap skip_length e ∙ t.skips) in
      (e, cc, λ i. drop (k i) (nibbles (e i)))

  same_child :
      {h g m n c d : Bytes} {nibble nibble' : ℕ}
      → m ≡ n
      → nibble ≡ nibble'
      → IsBranch h m c nibble
      → IsBranch g n d nibble'
      → c ≡ d
  same_child same e b b' =
      let items = some-injective (sym b.decodes ∙ ap lib.decode_list same ∙ b'.decodes) in
      some-injective (sym b.has_child ∙ (λ i. get_elem? (items i) (e i)) ∙ b'.has_child)

  meet :
      {h g m n : Bytes}
      → h ≡ lib.keccak256 m
      → g ≡ lib.keccak256 n
      → h ≡ g
      → (lib.keccak256 m ≡ lib.keccak256 n → m ≡ n)
      → m ≡ n
  meet e f hg free = free (sym e ∙ hg ∙ f)

  same_step :
      {n n' : ℕ} {r s after after' : List ℕ}
      → r ≡ n ∷ after
      → s ≡ n' ∷ after'
      → r ≡ s
      → (n ≡ n') × (after ≡ after')
  same_step e f rs = let q = sym e ∙ rs ∙ f in (cc, cc)

  unique :
      {v w h g : Bytes} {r s : List ℕ} {p q : List Bytes}
      → Proves v h r p
      → Proves w g s q
      → h ≡ g
      → r ≡ s
      → length p ≡ length q
      → NoCollision p q
      → Agree v w
  unique (included m path item skip x same at) (included n path' item' skip' y same' at') hg rs l
        free =
      inl (sym same ∙ (same_short (meet x.hashes y.hashes hg free.0) x y).1 ∙ same')
  unique (included m path item skip x same at) (diverged n path' item' skip' y none' differs') hg rs
        l free =
      absurd (differs' (sym (same_short (meet x.hashes y.hashes hg free.0) x y).2 ∙ at ∙ rs))
  unique (included m path item skip x same at) (empty_child n nibble' y none' whole') hg rs l free =
      absurd (short-IsBranch (meet x.hashes y.hashes hg free.0) x y)
  unique (included m path item skip x same at) (branch n c' k' nibble' y whole' inner') hg rs l
        free =
      absurd (omega (arith, l))
  unique (included m path item skip x same at)
        (extension {rest = after} n path' c' k' skip' y whole' inner') hg rs l free =
      absurd (omega (arith, l))
  unique (diverged m path item skip x none differs) (included n path' item' skip' y same' at') hg rs
        l free =
      absurd (differs ((same_short (meet x.hashes y.hashes hg free.0) x y).2 ∙ at' ∙ sym rs))
  unique (diverged m path item skip x none differs) (diverged n path' item' skip' y none' differs')
        hg rs l free =
      inr (none, none')
  unique (diverged m path item skip x none differs) (empty_child n nibble' y none' whole') hg rs l
        free =
      inr (none, none')
  unique (diverged m path item skip x none differs) (branch n c' k' nibble' y whole' inner') hg rs l
        free =
      absurd (omega (arith, l))
  unique (diverged m path item skip x none differs)
        (extension {rest = after} n path' c' k' skip' y whole' inner') hg rs l free =
      absurd (omega (arith, l))
  unique (empty_child m nibble x none whole) (included n path' item' skip' y same' at') hg rs l
        free =
      absurd (short-IsBranch (sym (meet x.hashes y.hashes hg free.0)) y x)
  unique (empty_child m nibble x none whole) (diverged n path' item' skip' y none' differs') hg rs l
        free =
      inr (none, none')
  unique (empty_child m nibble x none whole) (empty_child n nibble' y none' whole') hg rs l free =
      inr (none, none')
  unique (empty_child m nibble x none whole) (branch n c' k' nibble' y whole' inner') hg rs l free =
      absurd (omega (arith, l))
  unique (empty_child m nibble x none whole)
        (extension {rest = after} n path' c' k' skip' y whole' inner') hg rs l free =
      absurd (omega (arith, l))
  unique (branch m c k nibble x whole inner) (included n path' item' skip' y same' at') hg rs l
        free =
      absurd (omega (arith, l))
  unique (branch m c k nibble x whole inner) (diverged n path' item' skip' y none' differs') hg rs l
        free =
      absurd (omega (arith, l))
  unique (branch m c k nibble x whole inner) (empty_child n nibble' y none' whole') hg rs l free =
      absurd (omega (arith, l))
  unique (branch m c k nibble x whole inner) (branch n c' k' nibble' y whole' inner') hg rs l free =
      let (e, later) = same_step whole whole' rs in
      unique inner inner' (same_child (meet x.hashes y.hashes hg free.0) e x y) later
        (omega (arith, l)) free.1
  unique (branch m c k nibble x whole inner)
        (extension {rest = after} n path' c' k' skip' y whole' inner') hg rs l free =
      absurd (short-IsBranch (sym (meet x.hashes y.hashes hg free.0)) y x)
  unique (extension m path c k skip x whole inner) (included n path' item' skip' y same' at') hg rs
        l free =
      absurd (omega (arith, l))
  unique (extension m path c k skip x whole inner) (diverged n path' item' skip' y none' differs')
        hg rs l free =
      absurd (omega (arith, l))
  unique (extension m path c k skip x whole inner) (empty_child n nibble' y none' whole') hg rs l
        free =
      absurd (omega (arith, l))
  unique (extension m path c k skip x whole inner) (branch n c' k' nibble' y whole' inner') hg rs l
        free =
      absurd (short-IsBranch (meet x.hashes y.hashes hg free.0) x y)
  unique (extension m path c k skip x whole inner)
        (extension {rest = after} n path' c' k' skip' y whole' inner') hg rs l free =
      let (_, child, own) = same_short (meet x.hashes y.hashes hg free.0) x y in
      unique inner inner' child
        (append_cancel (drop skip (nibbles path))
          (sym whole ∙ rs ∙ whole' ∙ ap (λ o. o ++ after) (sym own)))
        (omega (arith, l)) free.1

  -- Where a `usize` counts the nibbles of the key and of the paths in nodes: when two proofs of one
  -- length are accepted for a key under a root, each for a value, and no two nodes at one depth of them
  -- collide under the hash, the values are the same, or both stand for absence.
  pub verify_proof_unique :
      (path v w root : Bytes) (p q : List Bytes)
      → length path * 2 < u64_mod
      → HasCountedPaths lib
      → NoCollision p q
      → length p ≡ length q
      → verify_proof p root path v ≡ ok true
      → verify_proof q root path w ≡ ok true
      → Agree v w
  verify_proof_unique path v w root p q bound counted free l d e =
      unique ((verify_proof_iff path v bound counted p root).0 d)
        ((verify_proof_iff path w bound counted q root).0 e) refl refl l free
