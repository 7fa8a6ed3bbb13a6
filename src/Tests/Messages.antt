-- ===== src/Tests/Messages.antt =====
-- The theorems on the deserializers of consensus/src/types.rs at concrete inputs.
use forcerelay_verifier.Prelude.{
  ◌≡◌, ◌↔◌, ◌≤◌, refl, map, length, replicate, some, [], ◌∷◌, ◌++◌, ok, err, panic,
}
use forcerelay_verifier.Common.{Bytes}
use forcerelay_verifier.Common.Numbers.{codes, hex_prefix}
use forcerelay_verifier.Common.Tags.{custom}
use forcerelay_verifier.Consensus.Deserialize.{
  Readers, branch_deserialize, bytes32_deserialize, logs_bloom_deserialize, address_deserialize,
  extra_data_deserialize, u64_deserialize, u256_deserialize,
}
use forcerelay_verifier.Consensus.Deserialize.Laws.{Spells, fixed_deserialize_iff}
use forcerelay_verifier.Common.Numbers.{from_str_radix}

-- a byte is its own digit, and every length is let through
abbrev readers : Readers
readers = record {
  decode = some;
  vector_from_iter = λ n bytes. some bytes;
  vectors_from_iter = λ n vectors. some vectors;
  list_from_iter = λ n bytes. some bytes;
  lists_from_iter = λ n lists. some lists;
  indices_from_iter = λ n indices. some indices;
  from_dec_str = from_str_radix 10;
  to_little_endian = λ n. n ∷ [];
  from_bytes_le = length;
}

-- A number that cannot be read is a panic, and an error for `u256`.
unreadable :
    (u64_deserialize (ok (codes "12a")) ≡ panic)
    × (u256_deserialize readers (ok (codes "12a")) ≡ err custom)
unfolding u64_deserialize u256_deserialize from_str_radix
unreadable = (refl, refl)

abbrev root : Bytes
root = replicate 32 7

reads_root :
    (bytes32_deserialize readers (ok (hex_prefix ++ root)) ≡ ok root)
    × (address_deserialize readers (ok (hex_prefix ++ root)) ≡ panic)
unfolding bytes32_deserialize address_deserialize
reads_root = (refl, refl)

fixed_deserialize_iff_example :
    ((bytes32_deserialize readers (ok (hex_prefix ++ root)) ≡ ok root)
      ↔ (Spells readers (ok (hex_prefix ++ root)) root × (length root ≡ 32)))
    × ((logs_bloom_deserialize readers (ok (hex_prefix ++ root)) ≡ ok root)
        ↔ (Spells readers (ok (hex_prefix ++ root)) root × (length root ≡ 256)))
    × ((address_deserialize readers (ok (hex_prefix ++ root)) ≡ ok root)
        ↔ (Spells readers (ok (hex_prefix ++ root)) root × (length root ≡ 20)))
    × ((extra_data_deserialize readers (ok (hex_prefix ++ root)) ≡ ok root)
        ↔ (Spells readers (ok (hex_prefix ++ root)) root × (length root ≤ 32)))
fixed_deserialize_iff_example = fixed_deserialize_iff readers (ok (hex_prefix ++ root)) root

-- A branch is read node by node.
reads_branch :
    branch_deserialize readers (ok (map (λ b. hex_prefix ++ b) (root ∷ replicate 32 9 ∷ [])))
    ≡ ok (root ∷ replicate 32 9 ∷ [])
unfolding branch_deserialize
reads_branch = refl
