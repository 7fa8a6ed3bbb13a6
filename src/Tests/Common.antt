-- ===== src/Tests/Common.antt =====
-- The theorems on common/src at concrete inputs.
use forcerelay_verifier.Prelude.{◌≡◌, refl, none, some, ok, err, arith}
use forcerelay_verifier.Common.{number}
use forcerelay_verifier.Common.Numbers.{codes, to_text, from_str_radix}
use forcerelay_verifier.Common.Tags.{display, deserialize, custom}
use forcerelay_verifier.Common.Tags.RoundTrip.{deserialize-display}
use forcerelay_verifier.Prelude.{bytes_eq, [], ◌∷◌, panic}
use forcerelay_verifier.Common.Errors.{block_not_found_text, rpc_error_text}
use forcerelay_verifier.Execution.Rpc.Mock.{without_last}

prints : (to_text 10 17034870 ≡ codes "17034870") × (to_text 16 17034870 ≡ codes "103ee76")
unfolding to_text
prints = (refl, refl)

-- A sign is read, a number that does not fit and a text with no digits are not.
reads :
    (from_str_radix 16 (codes "+fF") ≡ some 255)
    × (from_str_radix 10 (codes "18446744073709551616") ≡ none)
    × (from_str_radix 10 (codes "+") ≡ none)
    × (deserialize (ok (codes "0x")) ≡ err custom)
unfolding from_str_radix deserialize bytes_eq
reads = (refl, refl, refl, refl)

deserialize-display_example : deserialize (ok (display (number 17034870))) ≡ ok (number 17034870)
deserialize-display_example = deserialize-display (number 17034870) (omega arith)

error_texts :
    (block_not_found_text (record { block = number 17 }) ≡ codes "block not available: 17")
    × (rpc_error_text (λ e. e) (record { method = codes "get_code"; error = codes "timeout" })
        ≡ codes "rpc error on method: get_code, message: timeout")
unfolding block_not_found_text rpc_error_text to_text
error_texts = (refl, refl)

-- The line feed goes, and half a character is a panic.
strips_the_last :
    (without_last (codes "0x60\n") ≡ ok (codes "0x60"))
    × (without_last [] ≡ panic)
    × (without_last (0x61 ∷ 0xc3 ∷ 0xa9 ∷ []) ≡ panic)
unfolding without_last
strips_the_last = (refl, refl, refl)
