-- ===== src/Manifest/Version.antt =====
-- crates/camera-config/src/version.rs: the order of firmware versions. `VersionScheme` has one
-- constructor, `DottedInt`, and no definition takes it as an argument.
use ptpsim.Prelude.{
  ℕ, zero, suc, ◌+◌, ◌-◌, ◌*◌, ◌^◌, List, [], ◌∷◌, Option, none, some, Bool, true, false, ◌&&◌,
  ◌||◌, ltb, leb, ◌==◌, list_eq, length, is_empty, if◌then◌else◌,
}
use ptpsim.Wire.Utf16.{Text}
use ptpsim.Manifest.HexCode.{trim}

-- `std::cmp::Ordering`
pub data Ordering : Type 0 where
  less equal greater : Ordering

-- `split('.')`
abbrev pub cons_first : ℕ → List Text → List Text
cons_first c [] = (c ∷ []) ∷ []
cons_first c (part ∷ parts) = (c ∷ part) ∷ parts

unfoldable pub split_dots : Text → List Text
split_dots [] = [] ∷ []
split_dots (c ∷ s) = let rest = split_dots s in if c == 46 then [] ∷ rest else cons_first c rest

-- The decimal digits of `str::parse::<u64>`, with its check for overflow, on the value so far.
unfoldable pub decimal_digits : ℕ → Text → Option ℕ
decimal_digits value [] = some value
decimal_digits value (c ∷ s) =
    let next = value * 10 + (c - 48) in
    let rest = decimal_digits next s in
    if leb 48 c && leb c 57 && ltb next (2 ^ 64) then rest else none

-- `parse::<u64>().ok()`: one plus sign may stand in front.
unfoldable pub parse_u64 : Text → Option ℕ
unfolding decimal_digits
parse_u64 [] = none
parse_u64 (c ∷ s) =
    if c == 43 then (if is_empty s then none else decimal_digits 0 s) else decimal_digits 0 (c ∷ s)

-- `map(|c| c.trim().parse::<u64>().ok()).collect()`
unfoldable pub parse_parts : List Text → Option (List ℕ)
parse_parts [] = some []
parse_parts (part ∷ parts) =
    let rest = parse_parts parts in
    elim (parse_u64 (trim part)) [
      | none ↦ none
      | some n ↦ elim rest [ none ↦ none | some ns ↦ some (n ∷ ns) ]
    ]

unfoldable pub parse : Text → Option (List ℕ)
parse s = if is_empty (trim s) then none else parse_parts (split_dots (trim s))

-- `get(i).copied().unwrap_or(0)`
unfoldable pub component : List ℕ → ℕ → ℕ
component [] i = 0
component (n ∷ ns) zero = n
component (n ∷ ns) (suc i) = component ns i

abbrev pub cmp : ℕ → ℕ → Ordering
cmp a b = if ltb a b then less else if a == b then equal else greater

-- `Ordering::Equal => continue`, and any other order is returned.
abbrev pub or_continue : Ordering → Ordering → Ordering
or_continue less rest = less
or_continue equal rest = rest
or_continue greater rest = greater

-- The loop of `compare` from the component `i`, with so many left.
unfoldable pub compare_from : (left i : ℕ) (va vb : List ℕ) → Ordering
compare_from zero i va vb = equal
compare_from (suc left) i va vb =
    let rest = compare_from left (suc i) va vb in
    or_continue (cmp (component va i) (component vb i)) rest

abbrev pub max : ℕ → ℕ → ℕ
max m n = if leb m n then n else m

unfoldable pub compare : Text → Text → Option Ordering
compare a b = elim (parse a) [
  | none ↦ none
  | some va ↦ elim (parse b) [
    | none ↦ none
    | some vb ↦ some (compare_from (max (length va) (length vb)) 0 va vb)
  ]
]

abbrev pub is_less : Option Ordering → Bool
is_less (some less) = true
is_less _ = false

abbrev pub is_at_least : Option Ordering → Bool
is_at_least (some greater) = true
is_at_least (some equal) = true
is_at_least _ = false

-- `min == Some(v)`
abbrev pub is_bound : Text → Option Text → Bool
is_bound v none = false
is_bound v (some bound) = list_eq bound v

abbrev pub above_min : Text → Option Text → Bool
above_min v none = true
above_min v (some lo) = is_at_least (compare v lo) || list_eq lo v

abbrev pub below_max : Text → Option Text → Bool
below_max v none = true
below_max v (some hi) = is_less (compare v hi)

unfoldable pub in_range : (v : Text) (min max : Option Text) → Bool
in_range v min max = elim (parse v) [
  | none ↦ is_bound v min || is_bound v max
  | some parsed ↦ above_min v min && below_max v max
]
