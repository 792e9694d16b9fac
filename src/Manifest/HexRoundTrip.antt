-- ===== src/Manifest/HexRoundTrip.antt =====
-- crates/camera-config/src/model.rs: what the readers of hexadecimal texts read, and what they refuse.
use ptpsim.Prelude.{
  ℕ, ◌+◌, ◌*◌, ◌/◌, ◌%◌, ◌^◌, ◌≤◌, ◌<◌, ◌≡◌, refl, ap, ◌∙◌, List, [], ◌∷◌, ◌++◌, Option, none, some,
  Bool, true, false, ◌&&◌, ◌||◌, not, ltb, ◌==◌, if◌then◌else◌, arith, All, length, is_empty,
  Option-cases, Bool-cases, inl, inr, ltb→lt, lt→ltb,
}
use ptpsim.Wire.Bytes.{IsByte}
use ptpsim.Wire.Utf16.{Text}
use ptpsim.Manifest.HexCode.{
  is_whitespace, trim_start, trim_end, trim, strip_hex_prefix, hex_digit, hex_digits, from_hex,
  parse_hex_code, parse_hex_u32, is_ascii_hexdigit, all_hexdigits, hex_pairs, parse_hex_bytes,
}

abbrev pub IsSpace : ℕ → Type 0
IsSpace c = is_whitespace c ≡ true

abbrev pub NotSpace : ℕ → Type 0
NotSpace c = is_whitespace c ≡ false

trim_start-padded :
    (a t : Text) (c : ℕ) → All IsSpace a → NotSpace c → trim_start (a ++ (c ∷ t)) ≡ c ∷ t
unfolding trim_start
trim_start-padded [] t c h n = rw n refl
trim_start-padded (x ∷ a) t c h n = rw h.0 (trim_start-padded a t c h.1 n)

trim_end-spaces : (b : Text) → All IsSpace b → trim_end b ≡ []
unfolding trim_end
trim_end-spaces [] h = refl
trim_end-spaces (x ∷ b) h = rw (trim_end-spaces b h.1, h.0) refl

trim_end-padded : (s b : Text) → All NotSpace s → All IsSpace b → trim_end (s ++ b) ≡ s
unfolding trim_end
trim_end-padded [] b h k = trim_end-spaces b k
trim_end-padded (c ∷ s) b h k = rw (trim_end-padded s b h.1 k, h.0) (kept s c)
  where
    kept : (t : Text) (x : ℕ) → (if is_empty t && false then [] else x ∷ t) ≡ x ∷ t
    kept [] x = refl
    kept (y ∷ t) x = refl

trim-padded :
    (a b s : Text) (c : ℕ)
    → All IsSpace a
    → All IsSpace b
    → All NotSpace (c ∷ s)
    → trim (a ++ ((c ∷ s) ++ b)) ≡ c ∷ s
unfolding trim
trim-padded a b s c h k n =
    rw (trim_start-padded a (s ++ b) c h n.0) (trim_end-padded (c ∷ s) b n k)

abbrev pub print_digit : ℕ → ℕ
print_digit d = if ltb d 10 then 48 + d else 87 + d

hex_digit-print_digit : (d : ℕ) → d < 16 → hex_digit (print_digit d) ≡ some d
unfolding hex_digit
hex_digit-print_digit d h = ground arith

print_digit-NotSpace : (d : ℕ) → d < 16 → NotSpace (print_digit d)
print_digit-NotSpace d h = ground arith

-- The number that hexadecimal digits stand for, behind those read so far.
abbrev pub digits_value : ℕ → List ℕ → ℕ
digits_value v [] = v
digits_value v (d ∷ ds) = digits_value (v * 16 + d) ds

digits_value-up : (v : ℕ) (ds : List ℕ) → v ≤ digits_value v ds
digits_value-up v [] = omega arith
digits_value-up v (d ∷ ds) = omega (arith, digits_value-up (v * 16 + d) ds)

abbrev pub print_digits : List ℕ → Text
print_digits [] = []
print_digits (d ∷ ds) = print_digit d ∷ print_digits ds

hex_digits-print_digits :
    (limit v : ℕ) (ds : List ℕ)
    → All (λ d. d < 16) ds
    → digits_value v ds < limit
    → hex_digits limit v (print_digits ds) ≡ some (digits_value v ds)
unfolding hex_digits
hex_digits-print_digits limit v [] h k = refl
hex_digits-print_digits limit v (d ∷ ds) h k =
    rw (hex_digits, hex_digit-print_digit d h.0, lt→ltb (v * 16 + d) limit small)
      (hex_digits-print_digits limit (v * 16 + d) ds h.1 k)
  where
    small : v * 16 + d < limit
    small = omega (arith, digits_value-up (v * 16 + d) ds)

hex_digits-lt : (limit v n : ℕ) (s : Text) → v < limit → hex_digits limit v s ≡ some n → n < limit
unfolding hex_digits
hex_digits-lt limit v n [] h e = ground arith
hex_digits-lt limit v n (c ∷ s) h e = elim (Option-cases (hex_digit c)) [
  | inl p ↦ absurd (ground (arith, p, e))
  | inr (d, p) ↦ elim (Bool-cases (ltb (v * 16 + d) limit)) [
    | inl q ↦
        hex_digits-lt limit (v * 16 + d) n s (ltb→lt (v * 16 + d) limit q) (ground (arith, p, q, e))
    | inr q ↦ absurd (ground (arith, p, q, e))
  ]
]

-- Whatever text is read, the number fits its type.
from_hex-lt : (limit n : ℕ) (s : Text) → 0 < limit → from_hex limit s ≡ some n → n < limit
unfolding from_hex
from_hex-lt limit n [] h e = absurd (ground arith)
from_hex-lt limit n (c ∷ s) h e =
    ground (arith, hex_digits-lt limit 0 n s h, hex_digits-lt limit 0 n (c ∷ s) h)

pub parse_hex_code-lt : (s : Text) (n : ℕ) → parse_hex_code s ≡ some n → n < 2 ^ 16
unfolding parse_hex_code
parse_hex_code-lt s n e = from_hex-lt (2 ^ 16) n _ (omega arith) e

-- A number's low four hexadecimal digits, as `{:04x}` prints them.
abbrev pub print_hex4 : ℕ → Text
print_hex4 v =
    print_digit (v / 4096 % 16)
    ∷ print_digit (v / 256 % 16)
    ∷ print_digit (v / 16 % 16)
    ∷ print_digit (v % 16)
    ∷ []

from_hex-print_digits :
    (limit d : ℕ) (ds : List ℕ)
    → All (λ d. d < 16) (d ∷ ds)
    → digits_value 0 (d ∷ ds) < limit
    → from_hex limit (print_digits (d ∷ ds)) ≡ some (digits_value 0 (d ∷ ds))
unfolding from_hex
from_hex-print_digits limit d ds h k =
    rw (no_sign d h.0) (hex_digits-print_digits limit 0 (d ∷ ds) h k)
  where
    no_sign : (x : ℕ) → x < 16 → (print_digit x == 43) ≡ false
    no_sign x l = ground arith

from_hex-print_hex4 : (v : ℕ) → v < 2 ^ 16 → from_hex (2 ^ 16) (print_hex4 v) ≡ some v
from_hex-print_hex4 v h =
    from_hex-print_digits (2 ^ 16) (v / 4096 % 16) (v / 256 % 16 ∷ v / 16 % 16 ∷ v % 16 ∷ [])
      (omega arith, (omega arith, (omega arith, (omega arith, tt)))) (omega arith)
    ∙ ap (λ n. some n) (omega arith)

-- Every 16-bit code, printed as `0x` and four lowercase hexadecimal digits with any white space around,
-- is read as itself; and whatever text is read as a code or as a `u32`, the number fits its 16 or 32 bits.
pub parse_hex_code-print_hex4 :
    (v : ℕ) (a b : Text)
    → v < 2 ^ 16
    → All IsSpace a
    → All IsSpace b
    → (parse_hex_code (a ++ ((48 ∷ 120 ∷ print_hex4 v) ++ b)) ≡ some v)
      × ((s : Text) (n : ℕ) → parse_hex_code s ≡ some n → n < 2 ^ 16)
      × ((s : Text) (n : ℕ) → parse_hex_u32 s ≡ some n → n < 2 ^ 32)
unfolding parse_hex_code parse_hex_u32 strip_hex_prefix
parse_hex_code-print_hex4 v a b h k l = (
  rw (trim-padded a b (120 ∷ print_hex4 v) 48 k l printed) (from_hex-print_hex4 v h),
  parse_hex_code-lt,
  λ s n e. from_hex-lt (2 ^ 32) n _ (omega arith) e,
)
  where
    digit : (d : ℕ) → d < 16 → NotSpace (print_digit d)
    digit d p = print_digit-NotSpace d p

    printed : All NotSpace (48 ∷ 120 ∷ print_hex4 v)
    printed =
        let low : All NotSpace (print_digit (v / 16 % 16) ∷ print_digit (v % 16) ∷ []) =
          (digit (v / 16 % 16) (omega arith), (digit (v % 16) (omega arith), tt)) in
        (
          refl,
          (refl, (digit (v / 4096 % 16) (omega arith), (digit (v / 256 % 16) (omega arith), low))),
        )

-- Bytes as two lowercase hexadecimal digits each.
abbrev pub print_bytes : List ℕ → Text
print_bytes [] = []
print_bytes (b ∷ bs) = print_digit (b / 16) ∷ print_digit (b % 16) ∷ print_bytes bs

from_hex-byte :
    (b : ℕ)
    → IsByte b
    → from_hex (2 ^ 8) (print_digit (b / 16) ∷ print_digit (b % 16) ∷ []) ≡ some b
unfolding hex_digits
from_hex-byte b h =
    from_hex-print_digits (2 ^ 8) (b / 16) (b % 16 ∷ []) (omega arith, (omega arith, tt))
      (omega arith)
    ∙ ap (λ n. some n) (omega arith)

hex_pairs-print_bytes : (bs : List ℕ) → All IsByte bs → hex_pairs (print_bytes bs) ≡ some bs
unfolding hex_pairs
hex_pairs-print_bytes [] h = refl
hex_pairs-print_bytes (b ∷ bs) h =
    rw (hex_pairs, from_hex-byte b h.0, hex_pairs-print_bytes bs h.1) refl

is_ascii_hexdigit-print_digit : (d : ℕ) → d < 16 → is_ascii_hexdigit (print_digit d) ≡ true
unfolding hex_digit
is_ascii_hexdigit-print_digit d h = ground arith

hexdigits-print_bytes : (bs : List ℕ) → All IsByte bs → all_hexdigits (print_bytes bs) ≡ true
hexdigits-print_bytes [] h = refl
hexdigits-print_bytes (b ∷ bs) h =
    both (is_ascii_hexdigit-print_digit (b / 16) (omega arith))
      (both (is_ascii_hexdigit-print_digit (b % 16) (omega arith)) (hexdigits-print_bytes bs h.1))
  where
    both : {x y : Bool} → x ≡ true → y ≡ true → (x && y) ≡ true
    both p q = rw (p, q) refl

even-print_bytes : (bs : List ℕ) → length (print_bytes bs) % 2 ≡ 0
even-print_bytes [] = refl
even-print_bytes (b ∷ bs) = omega (arith, even-print_bytes bs)

hex_pairs-length : (s : Text) (bs : List ℕ) → hex_pairs s ≡ some bs → length s ≡ 2 * length bs
unfolding hex_pairs
hex_pairs-length [] bs e = ground arith
hex_pairs-length (c ∷ []) bs e = absurd (ground arith)
hex_pairs-length (c ∷ d ∷ s) bs e = elim (Option-cases (hex_pairs s)) [
  | inl p ↦ absurd (ground (arith, p, e))
  | inr (r, p) ↦ ground (arith, p, e, hex_pairs-length s r p)
]

strip-print_bytes :
    (b : ℕ) (bs : List ℕ)
    → IsByte b
    → strip_hex_prefix (print_bytes (b ∷ bs)) ≡ print_bytes (b ∷ bs)
unfolding strip_hex_prefix
strip-print_bytes b bs h = ground (arith, no_x (b % 16) (omega arith))
  where
    no_x : (d : ℕ) → d < 16 → ((print_digit d == 120) || (print_digit d == 88)) ≡ false
    no_x d l = ground arith

-- The part of `parse_hex_bytes` behind the prefix.
abbrev read_bytes : Text → Option (List ℕ)
read_bytes p =
    if is_empty p || (not ((length p % 2) == 0) || not (all_hexdigits p)) then none else hex_pairs p

read_bytes-print_bytes :
    (b : ℕ) (bs : List ℕ) → All IsByte (b ∷ bs) → read_bytes (print_bytes (b ∷ bs)) ≡ some (b ∷ bs)
read_bytes-print_bytes b bs h =
    rw (even-print_bytes (b ∷ bs), hexdigits-print_bytes (b ∷ bs) h)
      (hex_pairs-print_bytes (b ∷ bs) h)

read_bytes-length :
    (p : Text) (bs : List ℕ) → read_bytes p ≡ some bs → (length p ≡ 2 * length bs) × (0 < length bs)
read_bytes-length [] bs e = absurd (ground arith)
read_bytes-length (c ∷ s) bs e = ground (arith, hex_pairs-length (c ∷ s) bs)

-- One byte or more, printed as two lowercase hexadecimal digits each, with or without `0x` in front, are
-- read back; and what is read from any text is half as many bytes as the text without the prefix has characters,
-- and at least one.
pub parse_hex_bytes-print_bytes :
    (b : ℕ) (bs : List ℕ)
    → All IsByte (b ∷ bs)
    → (parse_hex_bytes (print_bytes (b ∷ bs)) ≡ some (b ∷ bs))
      × (parse_hex_bytes (48 ∷ 120 ∷ print_bytes (b ∷ bs)) ≡ some (b ∷ bs))
      × ((s : Text) (read : List ℕ)
          → parse_hex_bytes s ≡ some read
          → (length (strip_hex_prefix s) ≡ 2 * length read) × (0 < length read))
unfolding parse_hex_bytes strip_hex_prefix
parse_hex_bytes-print_bytes b bs h = (
  ap read_bytes (strip-print_bytes b bs h.0) ∙ read_bytes-print_bytes b bs h,
  read_bytes-print_bytes b bs h,
  λ s read e. read_bytes-length (strip_hex_prefix s) read e,
)
