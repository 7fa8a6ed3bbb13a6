-- ===== src/Execution/Proof/Nibbles.antt =====
-- Paths as lists of nibbles: `get_nibble`, `paths_match` and `shared_prefix_length` read them there.
use forcerelay_verifier.Prelude.{
  ◌∙◌, sym, ℕ, zero, suc, ◌+◌, ◌-◌, ◌*◌, ◌/◌, ◌%◌, ◌≤◌, ◌<◌, ◌≡◌, refl, inl, inr, Bool, true, false,
  Option, none, some, List, [], ◌∷◌, arith, length, get_elem?, drop, bytes_eq, min, ok, unwrap,
  ◌>>=◌, sub64, sub64-eq-sub, u64_mod, ◌==◌, if◌then◌else◌, Bool-cases,
}
use forcerelay_verifier.Common.{Bytes}
use forcerelay_verifier.Execution.Errors.{ExecutionError}
use forcerelay_verifier.Execution.Proof.{
  get_nibble, skip_length, nibbles_match, paths_match, count_shared, shared_prefix_length,
}

-- The high and the low nibble of each byte.
unfoldable pub nibbles : Bytes → List ℕ
nibbles [] = []
nibbles (b ∷ bytes) = b / 16 ∷ b % 16 ∷ nibbles bytes

pub length-nibbles : (p : Bytes) → length (nibbles p) ≡ length p * 2
unfolding nibbles
length-nibbles [] = refl
length-nibbles (b ∷ p) = omega (arith, length-nibbles p)

-- the nibble of a byte at an even or an odd offset
abbrev half_of : Option ℕ → Bool → Option ℕ
half_of none is_even = none
half_of (some b) true = some (b / 16)
half_of (some b) false = some (b % 16)

get_elem?-nibbles :
    (p : Bytes) (i : ℕ) → get_elem? (nibbles p) i ≡ half_of (get_elem? p (i / 2)) (i % 2 == 0)
unfolding nibbles
get_elem?-nibbles [] i = refl
get_elem?-nibbles (b ∷ p) zero = refl
get_elem?-nibbles (b ∷ p) (suc zero) = refl
get_elem?-nibbles (b ∷ p) (suc (suc i)) =
    get_elem?-nibbles p i ∙ (λ k. half_of (get_elem? (b ∷ p) (sym half k)) (sym parity k == 0))
  where
    half : suc (suc i) / 2 ≡ suc (i / 2)
    half = omega arith

    parity : suc (suc i) % 2 ≡ i % 2
    parity = omega arith

half_of-eq :
    (byte : Option ℕ) (is_even : Bool)
    → (do b ← unwrap byte; ok (if is_even then b / 16 else b % 16))
      ≡ unwrap {E = ExecutionError} (half_of byte is_even)
half_of-eq none is_even = refl
half_of-eq (some b) true = refl
half_of-eq (some b) false = refl

-- `get_nibble` reads the list of nibbles, and panics past its end.
pub get_nibble_lem : (p : Bytes) (i : ℕ) → get_nibble p i ≡ unwrap (get_elem? (nibbles p) i)
unfolding get_nibble
get_nibble_lem p i =
    half_of-eq (get_elem? p (i / 2)) (i % 2 == 0) ∙ (λ k. unwrap (sym (get_elem?-nibbles p i) k))

length≡0 {ℓ} : {A : Type ℓ} → (xs : List A) → length xs ≡ 0 → xs ≡ []
length≡0 [] h = refl
length≡0 (x ∷ xs) h = ground (arith, h)

-- The first of the elements behind `i`, when there are some.
drop-step :
    (xs : List ℕ) (i n : ℕ)
    → length (drop i xs) ≡ suc n
    → (x : ℕ) × (get_elem? xs i ≡ some x)
      × (drop i xs ≡ x ∷ drop (suc i) xs)
      × (length (drop (suc i) xs) ≡ n)
drop-step [] zero n h = ground arith
drop-step [] (suc i) n h = ground arith
drop-step (x ∷ xs) zero n h = (x, refl, refl, omega (arith, h))
drop-step (x ∷ xs) (suc i) n h = drop-step xs i n h

next : (k : ℕ) → k + 1 ≡ suc k
next k = omega arith

-- `paths_match` compares the rest of the two lists of nibbles, for offsets that stand in them.
nibbles_match_lem :
    (n : ℕ) (p1 : Bytes) (i : ℕ) (p2 : Bytes) (j : ℕ)
    → length (drop i (nibbles p1)) ≡ n
    → length (drop j (nibbles p2)) ≡ n
    → nibbles_match n p1 i p2 j ≡ ok (bytes_eq (drop i (nibbles p1)) (drop j (nibbles p2)))
unfolding nibbles_match bytes_eq
nibbles_match_lem zero p1 i p2 j h1 h2 = rw (length≡0 _ h1, length≡0 _ h2) refl
nibbles_match_lem (suc n) p1 i p2 j h1 h2 =
    let (x, get1, drop1, rest1) = drop-step (nibbles p1) i n h1 in
    let (y, get2, drop2, rest2) = drop-step (nibbles p2) j n h2 in
    rw
      (
        get_nibble_lem p1 i,
        get1,
        get_nibble_lem p2 j,
        get2,
        drop1,
        drop2,
        next i,
        next j,
        nibbles_match_lem n p1 (suc i) p2 (suc j) rest1 rest2,
      )
      (elim (Bool-cases (x == y)) [ inl e ↦ rw e refl | inr e ↦ rw e refl ])

pub length-drop {ℓ} : {A : Type ℓ} → (n : ℕ) (xs : List A) → length (drop n xs) ≡ length xs - n
length-drop zero xs = omega arith
length-drop (suc n) [] = omega arith
length-drop (suc n) (x ∷ xs) = omega (arith, length-drop n xs)

bytes_eq-length : (xs ys : List ℕ) → ¬ (length xs ≡ length ys) → bytes_eq xs ys ≡ false
unfolding bytes_eq
bytes_eq-length [] [] h = absurd (h refl)
bytes_eq-length [] (y ∷ ys) h = refl
bytes_eq-length (x ∷ xs) [] h = refl
bytes_eq-length (x ∷ xs) (y ∷ ys) h = ground (arith, bytes_eq-length xs ys, h)

pub length-rest :
    (p : Bytes) (s : ℕ)
    → length p * 2 < u64_mod
    → s ≤ length p * 2
    → length (drop s (nibbles p)) ≡ sub64 (length p * 2) s
length-rest p s bound h =
    length-drop s (nibbles p)
    ∙ (λ k. length-nibbles p k - s)
    ∙ sym (sub64-eq-sub (length p * 2) s h bound)

==-true : (a b : ℕ) → (a == b) ≡ true → a ≡ b
==-true a b h = ground arith

==-false : (a b : ℕ) → (a == b) ≡ false → ¬ (a ≡ b)
==-false a b h = ground arith

-- For two offsets that do not lie past the ends of their paths, of byte strings whose nibbles a
-- `usize` counts, `paths_match` returns without a panic, and it returns true exactly if the two
-- lists of the nibbles behind the offsets are the same.
pub paths_match_lem :
    (p1 : Bytes) (s1 : ℕ) (p2 : Bytes) (s2 : ℕ)
    → length p1 * 2 < u64_mod
    → length p2 * 2 < u64_mod
    → s1 ≤ length p1 * 2
    → s2 ≤ length p2 * 2
    → paths_match p1 s1 p2 s2 ≡ ok (bytes_eq (drop s1 (nibbles p1)) (drop s2 (nibbles p2)))
unfolding paths_match
paths_match_lem p1 s1 p2 s2 b1 b2 h1 h2 =
    let l1 = length-rest p1 s1 b1 h1 in
    let l2 = length-rest p2 s2 b2 h2 in
    let len1 = sub64 (length p1 * 2) s1 in
    let len2 = sub64 (length p2 * 2) s2 in
    elim (Bool-cases (len1 == len2)) [
      | inl e ↦ rw e (nibbles_match_lem len1 p1 s1 p2 s2 l1 (l2 ∙ sym (==-true len1 len2 e)))
      | inr e ↦ rw (e, bytes_eq-length _ _ (λ q. ==-false len1 len2 e (sym l1 ∙ q ∙ l2))) refl
    ]

-- How long a prefix two lists have in common.
unfoldable pub common_length : List ℕ → List ℕ → ℕ
common_length (x ∷ xs) (y ∷ ys) = if x == y then suc (common_length xs ys) else 0
common_length _ _ = 0

common_length-empty : (xs ys : List ℕ) → 0 ≡ min (length ys) (length xs) → common_length xs ys ≡ 0
unfolding common_length
common_length-empty [] ys h = refl
common_length-empty (x ∷ xs) [] h = refl
common_length-empty (x ∷ xs) (y ∷ ys) h = absurd (omega (arith, h))

count_shared-step :
    (n : ℕ) (p1 : Bytes) (i : ℕ) (p2 : Bytes) (j x y : ℕ)
    → (get_elem? (nibbles p1) i ≡ some x) × (drop i (nibbles p1) ≡ x ∷ drop (suc i) (nibbles p1))
    → (get_elem? (nibbles p2) j ≡ some y) × (drop j (nibbles p2) ≡ y ∷ drop (suc j) (nibbles p2))
    → count_shared n p1 (suc i) p2 (suc j)
      ≡ ok (common_length (drop (suc i) (nibbles p1)) (drop (suc j) (nibbles p2)))
    → count_shared (suc n) p1 i p2 j
      ≡ ok (common_length (drop i (nibbles p1)) (drop j (nibbles p2)))
unfolding count_shared common_length
count_shared-step n p1 i p2 j x y (get1, drop1) (get2, drop2) rest =
    rw (get_nibble_lem p1 i, get1, get_nibble_lem p2 j, get2, drop1, drop2, next i, next j, rest)
      (elim (Bool-cases (x == y)) [ inl e ↦ rw e refl | inr e ↦ rw e refl ])

count_shared_lem :
    (n : ℕ) (p1 : Bytes) (i : ℕ) (p2 : Bytes) (j : ℕ)
    → n ≡ min (length (drop j (nibbles p2))) (length (drop i (nibbles p1)))
    → count_shared n p1 i p2 j ≡ ok (common_length (drop i (nibbles p1)) (drop j (nibbles p2)))
unfolding count_shared common_length
count_shared_lem zero p1 i p2 j h =
    λ k. ok (sym (common_length-empty (drop i (nibbles p1)) (drop j (nibbles p2)) h) k)
count_shared_lem (suc n) p1 i p2 j h =
    let (x, get1, drop1, rest1) =
      drop-step (nibbles p1) i (length (drop i (nibbles p1)) - 1) (omega (arith, h)) in
    let (y, get2, drop2, rest2) =
      drop-step (nibbles p2) j (length (drop j (nibbles p2)) - 1) (omega (arith, h)) in
    count_shared-step n p1 i p2 j x y (get1, drop1) (get2, drop2)
      (count_shared_lem n p1 (suc i) p2 (suc j) (omega (arith, h, rest1, rest2)))

-- When the node's path has the nibbles that its flag skips, and the offset does not lie past the end
-- of the path, and a `usize` counts the nibbles of both, `shared_prefix_length` returns without a
-- panic how many nibbles behind the offset agree with those of the node's path behind its flag.
pub shared_prefix_length_lem :
    (path : Bytes) (path_offset : ℕ) (node_path : Bytes) (skip : ℕ)
    → length path * 2 < u64_mod
    → length node_path * 2 < u64_mod
    → path_offset ≤ length path * 2
    → skip_length node_path ≡ ok skip
    → skip ≤ length node_path * 2
    → shared_prefix_length path path_offset node_path
      ≡ ok (common_length (drop path_offset (nibbles path)) (drop skip (nibbles node_path)))
unfolding shared_prefix_length
shared_prefix_length_lem path path_offset node_path skip b1 b2 h1 h h2 =
    let l1 = length-rest path path_offset b1 h1 in
    let l2 = length-rest node_path skip b2 h2 in
    rw (h, sym l1, sym l2) (count_shared_lem _ path path_offset node_path skip refl)
