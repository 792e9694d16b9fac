-- ===== src/Tests/Versions.antt =====
-- crates/camera-config/src/version.rs at the versions of its tests.
use ptpsim.Prelude.{
  ℕ, ◌≡◌, ◌≢◌, ◌⊎◌, refl, sym, ap, ◌∙◌, List, [], ◌∷◌, Option, some, none, true, false, ◌&&◌, ◌||◌,
  arith,
}
use ptpsim.Wire.Utf16.{Text}
use ptpsim.Manifest.HexCode.{trim, trim_start, trim_end}
use ptpsim.Manifest.Version.{
  Ordering, less, greater, parse, parse_parts, parse_u64, decimal_digits, split_dots, compare,
  compare_from, component, is_less, in_range,
}
use ptpsim.Manifest.VersionOrder.{Outcome, compare_lem}
use ptpsim.Manifest.VersionRange.{IsVersion, in_range_split}

-- "1.31"
abbrev v1_31 : Text
v1_31 = 49 ∷ 46 ∷ 51 ∷ 49 ∷ []

v1_31-IsVersion : IsVersion v1_31
unfolding parse parse_parts parse_u64 decimal_digits split_dots trim trim_start trim_end
v1_31-IsVersion = (1 ∷ 31 ∷ [], refl)

-- "1.40"
abbrev v1_40 : Text
v1_40 = 49 ∷ 46 ∷ 52 ∷ 48 ∷ []

v1_40-IsVersion : IsVersion v1_40
unfolding parse parse_parts parse_u64 decimal_digits split_dots trim trim_start trim_end
v1_40-IsVersion = (1 ∷ 40 ∷ [], refl)

-- "2.0"
abbrev v2_0 : Text
v2_0 = 50 ∷ 46 ∷ 48 ∷ []

v2_0-IsVersion : IsVersion v2_0
unfolding parse parse_parts parse_u64 decimal_digits split_dots trim trim_start trim_end
v2_0-IsVersion = (2 ∷ 0 ∷ [], refl)

-- "2.9"
abbrev v2_9 : Text
v2_9 = 50 ∷ 46 ∷ 57 ∷ []

v2_9-IsVersion : IsVersion v2_9
unfolding parse parse_parts parse_u64 decimal_digits split_dots trim trim_start trim_end
v2_9-IsVersion = (2 ∷ 9 ∷ [], refl)

-- " 02.30"
abbrev v2_30 : Text
v2_30 = 32 ∷ 48 ∷ 50 ∷ 46 ∷ 51 ∷ 48 ∷ []

v2_30-IsVersion : IsVersion v2_30
unfolding parse parse_parts parse_u64 decimal_digits split_dots trim trim_start trim_end
v2_30-IsVersion = (2 ∷ 30 ∷ [], refl)

-- The order is by numbers and not by text.
not_lexical : compare v2_9 v2_30 ≡ some less
unfolding parse parse_parts parse_u64 decimal_digits split_dots trim trim_start trim_end compare
    compare_from component
not_lexical = refl

compare_lem_example :
    (((parse v2_9 ≡ none) ⊎ (parse v2_30 ≡ none)) × (compare v2_9 v2_30 ≡ none))
    ⊎ ((va : List ℕ) × (vb : List ℕ) × (o : Ordering) × (parse v2_9 ≡ some va)
        × (parse v2_30 ≡ some vb)
        × (compare v2_9 v2_30 ≡ some o)
        × Outcome va vb o)
compare_lem_example = compare_lem v2_9 v2_30

earlier : (o : Option Ordering) → is_less o ≡ true → o ≢ some greater
earlier o h e = ground (arith, sym h ∙ ap is_less e)

low : compare v1_31 v2_0 ≢ some greater
unfolding parse parse_parts parse_u64 decimal_digits split_dots trim trim_start trim_end compare
    compare_from component
low = earlier (compare v1_31 v2_0) refl

high : compare v2_0 v2_30 ≢ some greater
unfolding parse parse_parts parse_u64 decimal_digits split_dots trim trim_start trim_end compare
    compare_from component
high = earlier (compare v2_0 v2_30) refl

in_range_split_example :
    (in_range v1_40 (some v1_31) (some v2_30)
      ≡ (in_range v1_40 (some v1_31) (some v2_0) || in_range v1_40 (some v2_0) (some v2_30)))
    × ((in_range v1_40 (some v1_31) (some v2_0) && in_range v1_40 (some v2_0) (some v2_30)) ≡ false)
in_range_split_example =
    in_range_split v1_40 v1_31 v2_0 v2_30 v1_40-IsVersion v1_31-IsVersion v2_0-IsVersion
      v2_30-IsVersion low high

-- The upper bound is not in the range, and a text that is no version is in it only as a bound.
above_excluded : in_range v2_0 (some v1_31) (some v2_0) ≡ false
unfolding parse parse_parts parse_u64 decimal_digits split_dots trim trim_start trim_end compare
    compare_from component in_range
above_excluded = refl

unparsed_bound : in_range (98 ∷ []) (some (98 ∷ [])) none ≡ true
unfolding parse parse_parts parse_u64 decimal_digits split_dots trim trim_start trim_end compare
    compare_from component in_range
unparsed_bound = refl
