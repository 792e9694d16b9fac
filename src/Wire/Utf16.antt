-- ===== src/Wire/Utf16.antt =====
-- `str::encode_utf16` and `String::from_utf16` of the standard library. A `String` is the list of
-- its Unicode scalar values.
use ptpsim.Prelude.{
  ℕ, ◌+◌, ◌-◌, ◌*◌, ◌/◌, ◌%◌, ◌^◌, ◌≤◌, ◌<◌, ◌≡◌, refl, ap, ◌∙◌, ◌⊎◌, List, [], ◌∷◌, ◌++◌, All,
  Option, none, some, arith, ltb, leb, if◌then◌else◌, ◌&&◌, Bool, Bool-cases, inl, inr, ltb→lt,
  ltb-not→le, All-append,
}

abbrev pub Text : Type 0
Text = List ℕ

abbrev pub IsScalar : ℕ → Type 0
IsScalar c = (c < 0xd800) ⊎ ((0xe000 ≤ c) × (c < 0x110000))

unfoldable pub encode_char : ℕ → List ℕ
encode_char c =
    if ltb c 0x10000
    then c ∷ []
    else (0xd800 + (c - 0x10000) / 0x400) ∷ (0xdc00 + (c - 0x10000) % 0x400) ∷ []

unfoldable pub encode_utf16 : Text → List ℕ
unfolding encode_char
encode_utf16 [] = []
encode_utf16 (c ∷ s) = encode_char c ++ encode_utf16 s

abbrev is_surrogate : ℕ → Bool
is_surrogate u = leb 0xd800 u && ltb u 0xe000

abbrev is_low_surrogate : ℕ → Bool
is_low_surrogate u = leb 0xdc00 u && ltb u 0xe000

abbrev cons_char : ℕ → Option Text → Option Text
cons_char c none = none
cons_char c (some s) = some (c ∷ s)

-- `none` is `FromUtf16Error`: a low surrogate first, or a high one with no low one behind it.
unfoldable pub from_utf16 : List ℕ → Option Text
from_utf16 [] = some []
from_utf16 (u ∷ []) = if is_surrogate u then none else some (u ∷ [])
from_utf16 (u ∷ v ∷ us) =
    let single = cons_char u (from_utf16 (v ∷ us)) in
    let pair = cons_char (0x10000 + (u - 0xd800) * 0x400 + (v - 0xdc00)) (from_utf16 us) in
    if is_surrogate u then (if ltb u 0xdc00 && is_low_surrogate v then pair else none) else single

pub encode_char-lt : (c : ℕ) → IsScalar c → All (λ u. u < 2 ^ 16) (encode_char c)
unfolding encode_char
encode_char-lt c h = ground arith

from_utf16_single :
    (c : ℕ) (us : List ℕ)
    → IsScalar c
    → c < 0x10000
    → from_utf16 (c ∷ us) ≡ cons_char c (from_utf16 us)
unfolding from_utf16
from_utf16_single c [] h k = ground arith
from_utf16_single c (v ∷ us) h k = ground arith

from_utf16_surrogates :
    (u v : ℕ) (us : List ℕ)
    → 0xd800 ≤ u
    → u < 0xdc00
    → 0xdc00 ≤ v
    → v < 0xe000
    → from_utf16 (u ∷ v ∷ us)
      ≡ cons_char (0x10000 + (u - 0xd800) * 0x400 + (v - 0xdc00)) (from_utf16 us)
unfolding from_utf16
from_utf16_surrogates u v us h k l m = ground arith

pair_value :
    (c : ℕ)
    → 0x10000 ≤ c
    → 0x10000
        + (0xd800 + (c - 0x10000) / 0x400 - 0xd800) * 0x400
        + (0xdc00 + (c - 0x10000) % 0x400 - 0xdc00)
      ≡ c
pair_value c h = omega arith

from_utf16_pair :
    (c : ℕ) (us : List ℕ)
    → 0x10000 ≤ c
    → c < 0x110000
    → from_utf16 ((0xd800 + (c - 0x10000) / 0x400) ∷ (0xdc00 + (c - 0x10000) % 0x400) ∷ us)
      ≡ cons_char c (from_utf16 us)
from_utf16_pair c us h k =
    from_utf16_surrogates _ _ us (omega arith) (omega arith) (omega arith) (omega arith)
    ∙ ap (λ n. cons_char n (from_utf16 us)) (pair_value c h)

from_utf16-char :
    (c : ℕ) (us : List ℕ)
    → IsScalar c
    → from_utf16 (encode_char c ++ us) ≡ cons_char c (from_utf16 us)
unfolding encode_char
from_utf16-char c us h = elim (Bool-cases (ltb c 0x10000)) [
  | inl e ↦ rw e (from_utf16_single c us h (ltb→lt c _ e))
  | inr e ↦ rw e (from_utf16_pair c us (ltb-not→le c _ e) (omega arith))
]

from_utf16_empty : from_utf16 [] ≡ some []
unfolding from_utf16
from_utf16_empty = refl

encode_utf16_cons : (c : ℕ) (s : Text) → encode_utf16 (c ∷ s) ≡ encode_char c ++ encode_utf16 s
unfolding encode_utf16
encode_utf16_cons c s = refl

encode_utf16_nil : encode_utf16 [] ≡ []
unfolding encode_utf16
encode_utf16_nil = refl

-- The standard library's round trip, for every text of scalar values.
pub from_utf16-encode_utf16 : (s : Text) → All IsScalar s → from_utf16 (encode_utf16 s) ≡ some s
from_utf16-encode_utf16 [] h = rw encode_utf16_nil from_utf16_empty
from_utf16-encode_utf16 (c ∷ s) h =
    rw encode_utf16_cons
      (from_utf16-char c (encode_utf16 s) h.0 ∙ ap (cons_char c) (from_utf16-encode_utf16 s h.1))

pub encode_utf16-lt : (s : Text) → All IsScalar s → All (λ u. u < 2 ^ 16) (encode_utf16 s)
encode_utf16-lt [] h = rw encode_utf16_nil tt
encode_utf16-lt (c ∷ s) h =
    rw encode_utf16_cons
      (All-append _ (encode_char c) (encode_utf16 s) (encode_char-lt c h.0) (encode_utf16-lt s h.1))
