-- ===== src/Execution/Proof.antt =====
-- execution/src/proof.rs: Merkle-Patricia proofs. A path is a byte string that is read by nibbles,
-- the high one of a byte first.
pub mod Nibbles
pub mod Spec
pub mod Nodes
pub mod Soundness
pub mod Completeness
pub mod Truncated
pub mod Unique
use forcerelay_verifier.Prelude.{
  ℕ, zero, suc, ◌+◌, ◌*◌, ◌/◌, ◌%◌, Bool, true, false, not, ◌&&◌, ◌||◌, Option, none, some, List,
  [], ◌∷◌, ◌==◌, ltb, min, length, get_elem?, bytes_eq, sub64, if◌then◌else◌, ok, panic, unwrap,
  ◌>>=◌,
}
use forcerelay_verifier.Common.{Bytes}
use forcerelay_verifier.Execution.Errors.{Result}
use forcerelay_verifier.Execution.Primitives.{Primitives, ProofResponse}

unfoldable pub get_nibble : Bytes → ℕ → Result ℕ
get_nibble path offset = do
  byte ← unwrap (get_elem? path (offset / 2))
  ok (if offset % 2 == 0 then byte / 16 else byte % 16)

-- the flag of a compact path, in its first nibble: how many nibbles to skip
abbrev pub skip_of_flag : ℕ → ℕ
skip_of_flag nibble =
    if nibble == 0
    then 2
    else if nibble == 1
    then 1
    else if nibble == 2
    then 2
    else if nibble == 3
    then 1
    else 0

unfoldable pub skip_length : Bytes → Result ℕ
unfolding get_nibble
skip_length [] = ok 0
skip_length (b ∷ node) = do nibble ← get_nibble (b ∷ node) 0; ok (skip_of_flag nibble)

-- the loop of `paths_match` over `n` more offsets
unfoldable pub nibbles_match : ℕ → Bytes → ℕ → Bytes → ℕ → Result Bool
nibbles_match zero p1 i p2 j = ok true
nibbles_match (suc n) p1 i p2 j =
    let rest = nibbles_match n p1 (i + 1) p2 (j + 1) in
    do n1 ← get_nibble p1 i; n2 ← get_nibble p2 j; if n1 == n2 then rest else ok false

unfoldable pub paths_match : Bytes → ℕ → Bytes → ℕ → Result Bool
unfolding nibbles_match
paths_match p1 s1 p2 s2 =
    let len1 = sub64 (length p1 * 2) s1 in
    let len2 = sub64 (length p2 * 2) s2 in
    if len1 == len2 then nibbles_match len1 p1 s1 p2 s2 else ok false

-- the loop of `shared_prefix_length` over `n` more offsets
unfoldable pub count_shared : ℕ → Bytes → ℕ → Bytes → ℕ → Result ℕ
count_shared zero path i node_path j = ok 0
count_shared (suc n) path i node_path j =
    let rest = count_shared n path (i + 1) node_path (j + 1) in
    do
      path_nibble ← get_nibble path i
      node_path_nibble ← get_nibble node_path j
      if path_nibble == node_path_nibble then (do k ← rest; ok (suc k)) else ok 0

unfoldable pub shared_prefix_length : Bytes → ℕ → Bytes → Result ℕ
unfolding count_shared
shared_prefix_length path path_offset node_path = do
  skip ← skip_length node_path
  let len = min (sub64 (length node_path * 2) skip) (sub64 (length path * 2) path_offset)
  count_shared len path path_offset node_path skip

abbrev pub empty_storage_hash : Bytes
empty_storage_hash =
    0x56 ∷ 0xe8 ∷ 0x1f ∷ 0x17 ∷ 0x1b ∷ 0xcc ∷ 0x55 ∷ 0xa6 ∷ 0xff ∷ 0x83 ∷ 0x45 ∷ 0xe6 ∷ 0x92 ∷ 0xc0
    ∷ 0xf8 ∷ 0x6e ∷ 0x5b ∷ 0x48 ∷ 0xe0 ∷ 0x1b ∷ 0x99 ∷ 0x6c ∷ 0xad ∷ 0xc0 ∷ 0x01 ∷ 0x62 ∷ 0x2f
    ∷ 0xb5 ∷ 0xe3 ∷ 0x63 ∷ 0xb4 ∷ 0x21 ∷ []

abbrev pub empty_code_hash : Bytes
empty_code_hash =
    0xc5 ∷ 0xd2 ∷ 0x46 ∷ 0x01 ∷ 0x86 ∷ 0xf7 ∷ 0x23 ∷ 0x3c ∷ 0x92 ∷ 0x7e ∷ 0x7d ∷ 0xb2 ∷ 0xdc ∷ 0xc7
    ∷ 0x03 ∷ 0xc0 ∷ 0xe5 ∷ 0x00 ∷ 0xb6 ∷ 0x53 ∷ 0xca ∷ 0x82 ∷ 0x27 ∷ 0x3b ∷ 0x7b ∷ 0xfa ∷ 0xd8
    ∷ 0x04 ∷ 0x5d ∷ 0x85 ∷ 0xa4 ∷ 0x70 ∷ []

-- `v.is_empty()`
abbrev pub is_empty : Bytes → Bool
is_empty [] = true
is_empty (b ∷ bytes) = false

-- `i == proof.len() - 1`
abbrev pub is_last : List Bytes → Bool
is_last [] = true
is_last (node ∷ proof) = false

module _ ⦃lib : Primitives⦄ where
  unfoldable pub is_empty_value : Bytes → Bool
  is_empty_value value =
      let empty_account = lib.encode_list ([] ∷ [] ∷ empty_storage_hash ∷ empty_code_hash ∷ []) in
      let is_empty_slot = bytes_eq value (0x80 ∷ []) in
      is_empty_slot || bytes_eq value empty_account

  -- the last node of a proof: a branch node, or one with a path
  unfoldable pub verify_last_branch : Bytes → Bytes → ℕ → List Bytes → Result Bool
  unfolding is_empty_value
  verify_last_branch path value path_offset node_list = do
    nibble ← get_nibble path path_offset
    node ← unwrap (get_elem? node_list nibble)
    ok (is_empty node && is_empty_value value)

  unfoldable pub verify_last_path : Bytes → Bytes → ℕ → Bytes → Bytes → Result Bool
  unfolding is_empty_value paths_match
  verify_last_path path value path_offset node_path node_value = do
    skip ← skip_length node_path
    is_match ← paths_match node_path skip path path_offset
    ok (
        if not is_match && is_empty_value value
        then true
        else bytes_eq node_value value && is_match)

  -- An inner node hands its child's hash and the offset behind it to `next`, the rest of the loop.
  unfoldable pub verify_branch : Bytes → ℕ → List Bytes → (Bytes → ℕ → Result Bool) → Result Bool
  verify_branch path path_offset node_list next = do
    nibble ← get_nibble path path_offset
    child ← unwrap (get_elem? node_list nibble)
    next child (path_offset + 1)

  unfoldable pub verify_path : Bytes → ℕ → Bytes → Bytes → (Bytes → ℕ → Result Bool) → Result Bool
  unfolding shared_prefix_length
  verify_path path path_offset node_path child next = do
    prefix_length ← shared_prefix_length path path_offset node_path
    skip ← skip_length node_path
    if ltb prefix_length (sub64 (length node_path * 2) skip)
        then ok false
        else next child (path_offset + prefix_length)

  -- a node that is no branch: two items, a path and a child or a value
  unfoldable pub verify_short :
      Bytes → Bytes → ℕ → Bool → List Bytes → (Bytes → ℕ → Result Bool) → Result Bool
  unfolding verify_last_path verify_path
  verify_short path value path_offset is_last (node_path ∷ item ∷ []) next =
      if is_last
      then verify_last_path path value path_offset node_path item
      else verify_path path path_offset node_path item next
  verify_short path value path_offset is_last node_list next = ok false

  unfoldable pub verify_node :
      Bytes → Bytes → ℕ → Bool → List Bytes → (Bytes → ℕ → Result Bool) → Result Bool
  unfolding verify_last_branch verify_branch verify_short
  verify_node path value path_offset is_last node_list next =
      if length node_list == 17
      then if is_last
        then verify_last_branch path value path_offset node_list
        else verify_branch path path_offset node_list next
      else verify_short path value path_offset is_last node_list next

  -- the loop of `verify_proof`, with `expected_hash` and `path_offset`
  unfoldable pub verify_from : Bytes → Bytes → Bytes → ℕ → List Bytes → Result Bool
  verify_from path value expected_hash path_offset [] = ok false
  verify_from path value expected_hash path_offset (node ∷ proof) =
      let next = λ (hash : Bytes) (offset : ℕ). verify_from path value hash offset proof in
      if bytes_eq expected_hash (lib.keccak256 node)
      then (do
        node_list ← unwrap (lib.decode_list node)
        verify_node path value path_offset (is_last proof) node_list next)
      else ok false

  unfoldable pub verify_proof : List Bytes → Bytes → Bytes → Bytes → Result Bool
  unfolding verify_from
  verify_proof proof root path value = verify_from path value root 0 proof

  unfoldable pub encode_account : ProofResponse → Bytes
  encode_account proof = lib.encode_list (
      lib.uint_bytes proof.nonce
      ∷ lib.uint_bytes proof.balance
      ∷ proof.storage_hash
      ∷ proof.code_hash
      ∷ [])
