-- ===== src/Wire/Codes/Sequences.antt =====
-- Rules for the decoders of sequences: `repeat`, `ptp_array` and `ptp_string`.
use ptpsim.Prelude.{
  ℕ, zero, suc, ◌+◌, ◌^◌, ◌≤◌, ◌<◌, ◌≡◌, refl, sym, ap, ◌∙◌, List, [], ◌∷◌, ◌++◌, length, All,
  arith, length-append, le→ltb, ◌==◌, some, All-append, append_assoc, append-nil, false,
}
use mathlib.Core.Path.{subst}
use ptpsim.Wire.Bytes.{to_le_bytes}
use ptpsim.Wire.Utf16.{Text, IsScalar, encode_utf16, from_utf16-encode_utf16, encode_utf16-lt}
use ptpsim.Wire.Reader.{
  Decoder, remaining, u16, repeat, counted, ptp_array, ptp_string, units_text, text_of_units,
  drop_terminator, max_elements,
}
use ptpsim.Wire.Codes.Read.{
  Codes, mid, remaining-mid, Codes-pure, Codes-bind, Codes-apply, u8-Codes, u16-Codes, u32-Codes,
}

-- The bytes of the items, one after the other.
abbrev pub concat_map {ℓ} : {A : Type ℓ} → (A → List ℕ) → List A → List ℕ
concat_map g [] = []
concat_map g (a ∷ as') = g a ++ concat_map g as'

module _ {ℓ} {A : Type ℓ} (f : Decoder A) where
  repeat-zero : Codes (repeat zero f) [] []
  unfolding repeat
  repeat-zero = Codes-pure []

  repeat-suc :
      (n : ℕ) {bs cs : List ℕ} {a : A} {as' : List A}
      → Codes f bs a
      → Codes (repeat n f) cs as'
      → Codes (repeat (suc n) f) (bs ++ cs) (a ∷ as')
  unfolding repeat
  repeat-suc n {a} ha has = Codes-bind _ ha (Codes-apply (λ r. a ∷ r) has)

module _ {ℓ κ} {A : Type ℓ} (P : A → Type κ) (f : Decoder A) (g : A → List ℕ) where
  pub repeat-Codes :
      ((a : A) → P a → Codes f (g a) a)
      → (as' : List A) → All P as'
      → Codes (repeat (length as') f) (concat_map g as') as'
  repeat-Codes item [] h = repeat-zero f
  repeat-Codes item (a ∷ as') h = repeat-suc f (length as') (item a h.0) (repeat-Codes item as' h.1)

  length-le-concat_map :
      ((a : A) → P a → 1 ≤ length (g a))
      → (as' : List A) → All P as'
      → length as' ≤ length (concat_map g as')
  length-le-concat_map big [] h = omega arith
  length-le-concat_map big (a ∷ as') h =
      omega
        (arith, length-append (g a) (concat_map g as'), big a h.0, length-le-concat_map big as' h.1)

module _ {ℓ} {A : Type ℓ} (f : Decoder A) where
  -- Both guards pass where the count is at most `max_elements` and the bytes are there.
  counted-Codes :
      (count : ℕ) {bs : List ℕ} {as' : List A}
      → count ≤ max_elements
      → count ≤ length bs
      → Codes (repeat count f) bs as'
      → Codes (counted count f) bs as'
  unfolding counted
  counted-Codes count {bs} small fits h = record {
    at = λ pre post.
        rw
          (
            le→ltb _ _ small,
            le→ltb (remaining (mid pre (bs ++ post))) count
                (omega (arith, remaining-mid pre (bs ++ post), length-append bs post)),
          )
          (h.at pre post);
  }

abbrev pub array_bytes {ℓ} : {A : Type ℓ} → (A → List ℕ) → List A → List ℕ
array_bytes g as' = to_le_bytes 4 (length as') ++ concat_map g as'

module _ {ℓ κ} {A : Type ℓ} (P : A → Type κ) (f : Decoder A) (g : A → List ℕ) where
  pub ptp_array-Codes :
      ((a : A) → P a → Codes f (g a) a)
      → ((a : A) → P a → 1 ≤ length (g a))
      → (as' : List A) → All P as'
      → length as' ≤ max_elements
      → Codes (ptp_array f) (array_bytes g as') as'
  unfolding ptp_array
  ptp_array-Codes item big as' h small = Codes-bind _ (u32-Codes (length as') (omega arith)) (
      counted-Codes f (length as') small (length-le-concat_map P f g big as' h)
        (repeat-Codes P f g item as' h))

pub drop_terminator-append : (us : List ℕ) → drop_terminator (us ++ (0 ∷ [])) ≡ us
unfolding drop_terminator
drop_terminator-append [] = refl
drop_terminator-append (u ∷ []) = refl
drop_terminator-append (u ∷ v ∷ us) = ap (λ t. u ∷ t) (drop_terminator-append (v ∷ us))

abbrev pub unit_bytes : List ℕ → List ℕ
unit_bytes = concat_map (to_le_bytes 2)

-- What `Writer.ptp_string` writes.
abbrev pub string_bytes : Text → List ℕ
string_bytes [] = to_le_bytes 1 0
string_bytes (c ∷ s) =
    to_le_bytes 1 (length (encode_utf16 (c ∷ s)) + 1)
    ++ (unit_bytes (encode_utf16 (c ∷ s)) ++ to_le_bytes 2 0)

-- A text that a PTP string can carry: with the terminator at most 255 code units.
pub record IsPtpText (s : Text) : Type 0 where
  pub scalars : All IsScalar s
  pub short : length (encode_utf16 s) + 1 ≤ 255

unit_bytes-append : (us vs : List ℕ) → unit_bytes (us ++ vs) ≡ unit_bytes us ++ unit_bytes vs
unit_bytes-append [] vs = refl
unit_bytes-append (u ∷ us) vs =
    ap (λ t. to_le_bytes 2 u ++ t) (unit_bytes-append us vs)
    ∙ sym (append_assoc (to_le_bytes 2 u) (unit_bytes us) (unit_bytes vs))

terminated-Codes :
    (us : List ℕ)
    → All (λ u. u < 2 ^ 16) us
    → Codes (repeat (length us + 1) u16) (unit_bytes us ++ to_le_bytes 2 0) (us ++ (0 ∷ []))
terminated-Codes us h =
    subst (λ n. Codes (repeat n u16) (unit_bytes us ++ to_le_bytes 2 0) (us ++ (0 ∷ [])))
      (length-append us (0 ∷ []))
      (subst (λ bs. Codes (repeat (length (us ++ (0 ∷ []))) u16) bs (us ++ (0 ∷ []))) bytes
        (repeat-Codes (λ u. u < 2 ^ 16) u16 (to_le_bytes 2) u16-Codes (us ++ (0 ∷ []))
          (All-append _ us (0 ∷ []) h (omega arith))))
  where
    bytes : unit_bytes (us ++ (0 ∷ [])) ≡ unit_bytes us ++ to_le_bytes 2 0
    bytes =
        unit_bytes-append us (0 ∷ []) ∙ ap (λ t. unit_bytes us ++ t) (append-nil (to_le_bytes 2 0))

text_of_units-Codes : (s : Text) → Codes (text_of_units (some s)) [] s
text_of_units-Codes s = Codes-pure s

units_text-Codes :
    (s : Text)
    → All IsScalar s
    → Codes
        (units_text (length (encode_utf16 s) + 1))
        (unit_bytes (encode_utf16 s) ++ to_le_bytes 2 0)
        s
unfolding units_text
units_text-Codes s h =
    subst (λ bs. Codes (units_text (length (encode_utf16 s) + 1)) bs s) (append-nil _)
      (Codes-bind _ (terminated-Codes (encode_utf16 s) (encode_utf16-lt s h))
        (rw (drop_terminator-append (encode_utf16 s), from_utf16-encode_utf16 s h) (Codes-pure s)))

pub ptp_string-Codes : (s : Text) → IsPtpText s → Codes ptp_string (string_bytes s) s
unfolding ptp_string
ptp_string-Codes [] h =
    subst (λ bs. Codes ptp_string bs []) (append-nil _)
      (Codes-bind _ (u8-Codes 0 (omega arith)) (Codes-pure []))
ptp_string-Codes (c ∷ s) h =
    Codes-bind _ (u8-Codes (length (encode_utf16 (c ∷ s)) + 1) (omega (arith, h.short)))
      (rw nonzero (units_text-Codes (c ∷ s) h.scalars))
  where
    nonzero : ((length (encode_utf16 (c ∷ s)) + 1) == 0) ≡ false
    nonzero = ground arith
