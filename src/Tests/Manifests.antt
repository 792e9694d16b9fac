-- ===== src/Tests/Manifests.antt =====
-- crates/camera-config/src/model.rs at concrete texts.
use ptpsim.Prelude.{ℕ, List, ◌<◌, ◌*◌, ◌^◌, ◌≡◌, refl, [], ◌∷◌, ◌++◌, some, none, length, arith}
use ptpsim.Wire.Utf16.{Text}
use ptpsim.Manifest.HexCode.{parse_hex_code, parse_hex_u32, parse_hex_bytes, strip_hex_prefix}
use ptpsim.Manifest.HexRoundTrip.{
  print_hex4, print_bytes, parse_hex_code-print_hex4, parse_hex_bytes-print_bytes,
}

-- " 0x101b\n"
parse_hex_code-print_hex4_example :
    (parse_hex_code ((32 ∷ []) ++ ((48 ∷ 120 ∷ print_hex4 0x101b) ++ (10 ∷ []))) ≡ some 0x101b)
    × ((s : Text) (n : ℕ) → parse_hex_code s ≡ some n → n < 2 ^ 16)
    × ((s : Text) (n : ℕ) → parse_hex_u32 s ≡ some n → n < 2 ^ 32)
parse_hex_code-print_hex4_example =
    parse_hex_code-print_hex4 0x101b (32 ∷ []) (10 ∷ []) (omega arith) (refl, tt) (refl, tt)

parse_hex_bytes-print_bytes_example :
    (parse_hex_bytes (print_bytes (0xde ∷ 0x0f ∷ [])) ≡ some (0xde ∷ 0x0f ∷ []))
    × (parse_hex_bytes (48 ∷ 120 ∷ print_bytes (0xde ∷ 0x0f ∷ [])) ≡ some (0xde ∷ 0x0f ∷ []))
    × ((s : Text) (read : List ℕ)
        → parse_hex_bytes s ≡ some read
        → (length (strip_hex_prefix s) ≡ 2 * length read) × (0 < length read))
parse_hex_bytes-print_bytes_example =
    parse_hex_bytes-print_bytes 0xde (0x0f ∷ []) (omega arith, (omega arith, tt))

-- "+ff" has a sign that `from_str_radix` takes, "0x" has no digit, "10000" does not fit.
signed_code : parse_hex_code (43 ∷ 102 ∷ 102 ∷ []) ≡ some 255
unfolding parse_hex_code ptpsim.Manifest.HexCode.from_hex strip_hex_prefix
    ptpsim.Manifest.HexCode.trim ptpsim.Manifest.HexCode.hex_digits
    ptpsim.Manifest.HexCode.hex_digit
signed_code = refl

empty_code : parse_hex_code (48 ∷ 120 ∷ []) ≡ none
unfolding parse_hex_code ptpsim.Manifest.HexCode.from_hex strip_hex_prefix
    ptpsim.Manifest.HexCode.trim
empty_code = refl

wide_code : parse_hex_code (49 ∷ 48 ∷ 48 ∷ 48 ∷ 48 ∷ []) ≡ none
unfolding parse_hex_code ptpsim.Manifest.HexCode.from_hex strip_hex_prefix
    ptpsim.Manifest.HexCode.trim ptpsim.Manifest.HexCode.hex_digits
    ptpsim.Manifest.HexCode.hex_digit
wide_code = refl

odd_bytes : parse_hex_bytes (49 ∷ 50 ∷ 51 ∷ []) ≡ none
unfolding parse_hex_bytes strip_hex_prefix
odd_bytes = refl
