-- ===== src/Consensus/Deserialize/Laws.antt =====
-- consensus/src/types.rs: what the deserializers return.
use forcerelay_verifier.Prelude.{
  ℕ, ◌≤◌, ◌≡◌, ◌↔◌, refl, ap, ◌∙◌, sym, Bool, true, some, [], ◌∷◌, ◌++◌, length, Bool-cases, inl,
  inr, leb, leb→le, ==_iff, ◌==◌, if◌then◌else◌, ok, panic, unwrap, >>=-eq-ok, unwrap-eq-ok,
  ok-injective, arith,
}
use forcerelay_verifier.Common.{Bytes, Text, strip_prefix}
use forcerelay_verifier.Common.Numbers.{hex_prefix}
use forcerelay_verifier.Common.Tags.{Deserialized}
use forcerelay_verifier.Consensus.Deserialize.{
  Readers, converted, bytes32_deserialize, logs_bloom_deserialize, address_deserialize,
  extra_data_deserialize,
}

strip_prefix-eq-some : (s : Text) {t : Text} → strip_prefix s ≡ some t → s ≡ hex_prefix ++ t
strip_prefix-eq-some [] e = cc
strip_prefix-eq-some (c ∷ []) e = cc
strip_prefix-eq-some (c ∷ d ∷ s) e = ground arith

module _ (lib : Readers) where
  -- a text of the prefix `0x` and of digits that decode to the bytes
  abbrev pub Spells : Deserialized Text → Bytes → Type 0
  Spells read bytes = (s : Text) × (read ≡ ok (hex_prefix ++ s)) × (lib.decode s ≡ some bytes)

  module _ (fits : ℕ → Bool) (read : Deserialized Text) (bytes : Bytes) where
    checked :
        (b : Bytes)
        → Path (Deserialized Bytes) (if fits (length b) then ok b else panic) (ok bytes)
        → (b ≡ bytes) × (fits (length b) ≡ true)
    checked b e = elim (Bool-cases (fits (length b))) [
      | inl h ↦ (ok-injective (rw h at e), h)
      | inr h ↦ absurd (cc (rw h at e))
    ]

    converted_sound :
        converted lib fits read ≡ ok bytes → Spells read bytes × (fits (length bytes) ≡ true)
    unfolding converted
    converted_sound e =
        let (text, p, e1) = >>=-eq-ok read _ e in
        let (digits, q, e2) = >>=-eq-ok (unwrap (strip_prefix text)) _ e1 in
        let (b, r, e3) = >>=-eq-ok (unwrap (lib.decode digits)) _ e2 in
        let (same, h) = checked b e3 in
        (
          (
            digits,
            p ∙ ap ok (strip_prefix-eq-some text (unwrap-eq-ok (strip_prefix text) q)),
            unwrap-eq-ok (lib.decode digits) r ∙ ap some same,
          ),
          ap (λ b. fits (length b)) (sym same) ∙ h,
        )

    converted_complete :
        Spells read bytes × (fits (length bytes) ≡ true) → converted lib fits read ≡ ok bytes
    unfolding converted
    converted_complete ((s, p, q), h) = rw (p, q, h) refl

    converted_iff :
        {P : Type 0}
        → (fits (length bytes) ≡ true) ↔ P
        → (converted lib fits read ≡ ok bytes) ↔ (Spells read bytes × P)
    converted_iff reflects = (
      λ e. let (spelled, h) = converted_sound e in (spelled, reflects.0 h),
      λ h. converted_complete (h.0, reflects.1 h.1),
    )

  -- A hash, a bloom filter, an address or extra data is read exactly if the text is the prefix `0x`
  -- with digits that decode to bytes of the length of the type: 32, 256, 20, or at most 32. Those
  -- bytes are the value.
  pub fixed_deserialize_iff :
      (read : Deserialized Text) (bytes : Bytes)
      → ((bytes32_deserialize lib read ≡ ok bytes) ↔ (Spells read bytes × (length bytes ≡ 32)))
        × ((logs_bloom_deserialize lib read ≡ ok bytes)
            ↔ (Spells read bytes × (length bytes ≡ 256)))
        × ((address_deserialize lib read ≡ ok bytes) ↔ (Spells read bytes × (length bytes ≡ 20)))
        × ((extra_data_deserialize lib read ≡ ok bytes) ↔ (Spells read bytes × (length bytes ≤ 32)))
  unfolding bytes32_deserialize logs_bloom_deserialize address_deserialize extra_data_deserialize
  fixed_deserialize_iff read bytes = (
    converted_iff (λ n. n == 32) read bytes (==_iff (length bytes) 32),
    converted_iff (λ n. n == 256) read bytes (==_iff (length bytes) 256),
    converted_iff (λ n. n == 20) read bytes (==_iff (length bytes) 20),
    converted_iff (λ n. leb n 32) read bytes (leb→le (length bytes) 32, λ h. ground arith),
  )
