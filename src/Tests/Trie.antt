-- ===== src/Tests/Trie.antt =====
-- The theorems on execution/src/proof.rs over a trie of an extension node, a branch node and a leaf.
use forcerelay_verifier.Prelude.{
  ℕ, ◌*◌, ◌%◌, ◌<◌, ◌≡◌, refl, ap, subst, true, Option, none, some, List, [], ◌∷◌, ◌++◌, replicate,
  length, length-take, take, drop, ◌==◌, if◌then◌else◌, ok, u64_mod, arith, Bool-cases, inl, inr,
  some-injective, bytes_eq,
}
use forcerelay_verifier.Common.{Bytes, hex_str_to_bytes}
use forcerelay_verifier.Execution.Primitives.{Primitives, ProofResponse, StorageProof}
use forcerelay_verifier.Execution.Types.{Account}
use forcerelay_verifier.Execution.Rpc.{ExecutionRpc}
use forcerelay_verifier.Execution.Client.{get_account}
use forcerelay_verifier.Execution.Client.Cleared.{clearing, get_account-cleared}
use forcerelay_verifier.Execution.Proof.{
  encode_account, verify_proof, verify_node, get_nibble, skip_length, shared_prefix_length,
  is_empty_value,
}
use forcerelay_verifier.Execution.Proof.Soundness.{HasCountedPaths}
use forcerelay_verifier.Execution.Proof.Truncated.{truncated_proof_accepted}
use forcerelay_verifier.Execution.Proof.Unique.{Agree, verify_proof_unique}
use forcerelay_verifier.Tests.Ledger

-- 0 is written as RLP does it
abbrev encode_uint : ℕ → Bytes
encode_uint n = if n == 0 then 0x80 ∷ [] else n ∷ []

-- 255 marks a branch node whose children are all the same; any other node has a path of the length
-- that it starts with
abbrev items_of : ℕ → Bytes → List Bytes
items_of n node =
    if n == 255 then replicate 17 node else take (n % 256) node ∷ drop (n % 256) node ∷ []

abbrev decode : Bytes → Option (List Bytes)
decode [] = none
decode (n ∷ node) = some (items_of n node)

instance abbrev trie : Primitives
trie = record Ledger.toy { decode_list = decode; encode_uint = encode_uint }

trie-counted : HasCountedPaths trie
trie-counted [] node_path item e = cc
trie-counted (n ∷ node) node_path item e = go (some-injective e)
  where
    few : length (take (n % 256) node) * 2 < u64_mod
    few = omega (arith, length-take (n % 256) node)

    go : items_of n node ≡ node_path ∷ item ∷ [] → length node_path * 2 < u64_mod
    go e = elim (Bool-cases (n == 255)) [
      | inl h ↦ absurd (omega (arith, ap length (rw h at e)))
      | inr h ↦
          let same : take (n % 256) node ≡ node_path = cc (rw h at e) in
          subst (λ p. length p * 2 < u64_mod) same few
    ]

abbrev key : Bytes
key = replicate 32 20

abbrev root : Bytes
root = replicate 32 35

abbrev extension_node : Bytes
extension_node = 2 ∷ 0 ∷ 20 ∷ replicate 32 33

abbrev branch_node : Bytes
branch_node = 255 ∷ replicate 32 33

abbrev leaf : Bytes
leaf = 31 ∷ 0x34 ∷ replicate 30 20 ++ (5 ∷ [])

abbrev three_nodes : List Bytes
three_nodes = extension_node ∷ branch_node ∷ leaf ∷ []

accepts_three_nodes : verify_proof three_nodes root key (5 ∷ []) ≡ ok true
unfolding verify_proof verify_node get_nibble bytes_eq skip_length shared_prefix_length
accepts_three_nodes = refl

zero_slot : is_empty_value (0x80 ∷ []) ≡ true
unfolding is_empty_value bytes_eq
zero_slot = refl

-- The slot has the value 5, and the extension node alone proves that it is empty.
truncated_proof_accepted_example : verify_proof (extension_node ∷ []) root key (0x80 ∷ []) ≡ ok true
truncated_proof_accepted_example =
    truncated_proof_accepted (0x80 ∷ []) zero_slot extension_node branch_node (0 ∷ 20 ∷ [])
      (replicate 32 33) (leaf ∷ []) (replicate 17 (replicate 32 33)) refl refl refl key (5 ∷ [])
      root [] (omega arith) trie-counted accepts_three_nodes

verify_proof_unique_example : Agree (5 ∷ []) (5 ∷ [])
verify_proof_unique_example =
    verify_proof_unique key (5 ∷ []) (5 ∷ []) root three_nodes three_nodes (omega arith)
      trie-counted (λ e. refl, (λ e. refl, (λ e. refl, tt))) refl accepts_three_nodes
      accepts_three_nodes

-- the slot that has the value 5, and the account that it is in
abbrev sent : StorageProof
sent = record { key = replicate 20 9; proof = three_nodes; value = 5 }

abbrev account_leaf : Bytes
account_leaf = 33 ∷ 0x20 ∷ key ++ (1 ∷ 100 ∷ root ++ replicate 32 3)

abbrev answer : ProofResponse
answer = record {
  account_proof = account_leaf ∷ [];
  balance = 100;
  code_hash = replicate 32 3;
  nonce = 1;
  storage_hash = root;
  storage_proof = sent ∷ [];
}

abbrev rpc : ExecutionRpc
rpc = record {
  get_proof = λ owner slots block. ok answer;
  create_access_list = λ opts block. ok [];
  get_code = λ owner block. ok (1 ∷ 2 ∷ 3 ∷ []);
  send_raw_transaction = λ bytes. ok [];
  get_transaction_receipt = λ hash. ok none;
  get_transaction = λ hash. ok none;
  get_logs = λ filter. ok [];
  chain_id = ok 1;
  get_fee_history = λ count last percentiles.
      ok (record { base_fee_per_gas = []; gas_used_ratio = []; oldest_block = 7; reward = [] });
}

abbrev account : Account
account = record {
  balance = 100;
  nonce = 1;
  code_hash = replicate 32 3;
  code = 1 ∷ 2 ∷ 3 ∷ [];
  storage_hash = root;
  slots = (sent.key, 5) ∷ [];
}

gets_account : get_account rpc Ledger.address none Ledger.payload ≡ ok account
unfolding get_account verify_proof verify_node get_nibble encode_account hex_str_to_bytes bytes_eq
    skip_length shared_prefix_length
gets_account = refl

get_account-cleared_example :
    get_account (clearing rpc answer sent [] extension_node) Ledger.address none Ledger.payload
    ≡ ok (record account { slots = (sent.key, 0) ∷ [] })
get_account-cleared_example =
    get_account-cleared rpc answer sent [] extension_node (leaf ∷ [])
      (replicate 17 (replicate 32 33)) branch_node (0 ∷ 20 ∷ []) (replicate 32 33) zero_slot refl
      refl refl trie-counted (λ bytes. omega arith) refl Ledger.address none Ledger.payload refl
      refl gets_account
