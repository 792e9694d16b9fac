-- ===== src/Manifest/HexCode.antt =====
-- crates/camera-config/src/model.rs: the codes and bytes that a manifest writes in hexadecimal. A `&str`
-- is the list of its Unicode scalar values.
use ptpsim.Prelude.{
  ℕ, ◌+◌, ◌-◌, ◌*◌, ◌%◌, ◌^◌, List, [], ◌∷◌, Option, none, some, Bool, true, false, ◌&&◌, ◌||◌, not,
  ltb, leb, ◌==◌, if◌then◌else◌, length, is_empty,
}
use ptpsim.Wire.Utf16.{Text}

-- `char::is_whitespace`.
abbrev pub is_whitespace : ℕ → Bool
is_whitespace c =
    (leb 9 c && leb c 13)
    || ((c == 32)
        || ((c == 0x85)
            || ((c == 0xa0)
                || ((c == 0x1680)
                    || ((leb 0x2000 c && leb c 0x200a)
                        || ((c == 0x2028)
                            || ((c == 0x2029)
                                || ((c == 0x202f) || ((c == 0x205f) || (c == 0x3000))))))))))

unfoldable pub trim_start : Text → Text
trim_start [] = []
trim_start (c ∷ s) = let rest = trim_start s in if is_whitespace c then rest else c ∷ s

unfoldable pub trim_end : Text → Text
trim_end [] = []
trim_end (c ∷ s) =
    let rest = trim_end s in if is_empty rest && is_whitespace c then [] else c ∷ rest

unfoldable pub trim : Text → Text
unfolding trim_start trim_end
trim s = trim_end (trim_start s)

-- `strip_prefix("0x")`, or else of "0X", or else the text.
unfoldable pub strip_hex_prefix : Text → Text
strip_hex_prefix (c ∷ d ∷ s) = if (c == 48) && ((d == 120) || (d == 88)) then s else c ∷ d ∷ s
strip_hex_prefix s = s

-- `to_digit(16)`.
unfoldable pub hex_digit : ℕ → Option ℕ
hex_digit c =
    if leb 48 c && leb c 57
    then some (c - 48)
    else if leb 97 c && leb c 102
    then some (c - 87)
    else if leb 65 c && leb c 70
    then some (c - 55)
    else none

-- The digits of `from_str_radix`, with its check for overflow, on the value so far.
unfoldable pub hex_digits : ℕ → ℕ → Text → Option ℕ
hex_digits limit value [] = some value
hex_digits limit value (c ∷ s) = elim (hex_digit c) [
  | none ↦ none
  | some d ↦
      let rest = hex_digits limit (value * 16 + d) s in
      if ltb (value * 16 + d) limit then rest else none
]

-- `from_str_radix(s, 16).ok()` of the unsigned type below `limit`: one plus sign may stand in front.
unfoldable pub from_hex : ℕ → Text → Option ℕ
from_hex limit [] = none
from_hex limit (c ∷ s) =
    if c == 43
    then (if is_empty s then none else hex_digits limit 0 s)
    else hex_digits limit 0 (c ∷ s)

unfoldable pub parse_hex_code : Text → Option ℕ
parse_hex_code s = from_hex (2 ^ 16) (strip_hex_prefix (trim s))

unfoldable pub parse_hex_u32 : Text → Option ℕ
parse_hex_u32 s = from_hex (2 ^ 32) (strip_hex_prefix (trim s))

abbrev pub is_ascii_hexdigit : ℕ → Bool
is_ascii_hexdigit c = elim (hex_digit c) [ none ↦ false | some d ↦ true ]

abbrev pub all_hexdigits : Text → Bool
all_hexdigits [] = true
all_hexdigits (c ∷ s) = is_ascii_hexdigit c && all_hexdigits s

-- The steps of two, each read by `from_str_radix` into a `u8`, until one fails.
unfoldable pub hex_pairs : Text → Option (List ℕ)
hex_pairs [] = some []
hex_pairs (c ∷ []) = none
hex_pairs (c ∷ d ∷ s) = elim (from_hex (2 ^ 8) (c ∷ d ∷ [])) [
  | none ↦ none
  | some b ↦ elim (hex_pairs s) [ none ↦ none | some bs ↦ some (b ∷ bs) ]
]

unfoldable pub parse_hex_bytes : Text → Option (List ℕ)
unfolding hex_pairs
parse_hex_bytes s =
    let p = strip_hex_prefix s in
    if is_empty p || (not ((length p % 2) == 0) || not (all_hexdigits p)) then none else hex_pairs p
