-- ===== src/Wire/Codes/Write.antt =====
-- Rules for `Emits`: an encoder succeeds on every writer and appends exactly `bs`.
use ptpsim.Prelude.{
  ℕ, ◌+◌, ◌^◌, ◌≤◌, ◌<◌, ◌≡◌, ap, sym, List, [], ◌∷◌, ◌++◌, ok, err, length, arith, append-nil,
  append_assoc, le→ltb, lt→ltb, All, All_of, refl,
}
use mathlib.Core.Path.{subst}
use ptpsim.Wire.Bytes.{to_le_bytes, ℤ, to_unsigned}
use ptpsim.Wire.Error.{string_too_long}
use ptpsim.Wire.Utf16.{Text, encode_utf16}
use ptpsim.Wire.Writer
use ptpsim.Wire.Writer.{Writer, Encoder, emit, ◌>>◌, each, units}
use ptpsim.Wire.Codes.Sequences.{concat_map, array_bytes, unit_bytes, string_bytes, IsPtpText}

pub record Emits (e : Encoder) (bs : List ℕ) : Type 0 where
  pub at : (w : Writer) → e w ≡ ok (record { buf = w.buf ++ bs })

pub Emits-then :
    {e f : Encoder} {bs cs : List ℕ} → Emits e bs → Emits f cs → Emits (e >> f) (bs ++ cs)
unfolding ◌>>◌
Emits-then {bs} {cs} he hf = record {
  at = λ w. rw (he.at w, ← append_assoc w.buf bs cs) (hf.at (record { buf = w.buf ++ bs }));
}

pub bytes-Emits : (bs : List ℕ) → Emits (emit (Writer.bytes bs)) bs
unfolding emit Writer.bytes
bytes-Emits bs = record { at = λ w. refl }

pub u8-Emits : (v : ℕ) → Emits (emit (Writer.u8 v)) (to_le_bytes 1 v)
unfolding emit Writer.u8
u8-Emits v = record { at = λ w. refl }

pub u16-Emits : (v : ℕ) → Emits (emit (Writer.u16 v)) (to_le_bytes 2 v)
unfolding emit Writer.u16
u16-Emits v = record { at = λ w. refl }

pub u32-Emits : (v : ℕ) → Emits (emit (Writer.u32 v)) (to_le_bytes 4 v)
unfolding emit Writer.u32
u32-Emits v = record { at = λ w. refl }

pub u64-Emits : (v : ℕ) → Emits (emit (Writer.u64 v)) (to_le_bytes 8 v)
unfolding emit Writer.u64
u64-Emits v = record { at = λ w. refl }

pub i8-Emits : (z : ℤ) → Emits (emit (Writer.i8 z)) (to_le_bytes 1 (to_unsigned (2 ^ 7) z))
unfolding emit Writer.i8
i8-Emits z = record { at = λ w. refl }

pub i16-Emits : (z : ℤ) → Emits (emit (Writer.i16 z)) (to_le_bytes 2 (to_unsigned (2 ^ 15) z))
unfolding emit Writer.i16
i16-Emits z = record { at = λ w. refl }

pub i32-Emits : (z : ℤ) → Emits (emit (Writer.i32 z)) (to_le_bytes 4 (to_unsigned (2 ^ 31) z))
unfolding emit Writer.i32
i32-Emits z = record { at = λ w. refl }

pub i64-Emits : (z : ℤ) → Emits (emit (Writer.i64 z)) (to_le_bytes 8 (to_unsigned (2 ^ 63) z))
unfolding emit Writer.i64
i64-Emits z = record { at = λ w. refl }

module _ {ℓ κ} {A : Type ℓ} (P : A → Type κ) (f : A → Encoder) (g : A → List ℕ) where
  each_nil : Emits (each f []) []
  unfolding each
  each_nil = record { at = λ w. ap (λ t. ok (record { buf = t })) (sym (append-nil w.buf)) }

  each_cons :
      (a : A) (as' : List A) {bs cs : List ℕ}
      → Emits (f a) bs
      → Emits (each f as') cs
      → Emits (each f (a ∷ as')) (bs ++ cs)
  unfolding each
  each_cons a as' ha has = Emits-then ha has

  pub each-Emits :
      ((a : A) → P a → Emits (f a) (g a))
      → (as' : List A) → All P as'
      → Emits (each f as') (concat_map g as')
  each-Emits item [] h = each_nil
  each-Emits item (a ∷ as') h = each_cons a as' (item a h.0) (each-Emits item as' h.1)

  pub ptp_array-Emits :
      ((a : A) → P a → Emits (f a) (g a))
      → (as' : List A) → All P as'
      → length as' < 2 ^ 32
      → Emits (Writer.ptp_array f as') (array_bytes g as')
  unfolding Writer.ptp_array
  ptp_array-Emits item as' h small =
      Emits-then
        (subst (λ n. Emits (emit (Writer.u32 n)) (to_le_bytes 4 (length as'))) (omega arith)
          (u32-Emits (length as')))
        (each-Emits item as' h)

units-Emits :
    (us : List ℕ)
    → length us + 1 ≤ 255
    → Emits (units us) (to_le_bytes 1 (length us + 1) ++ (unit_bytes us ++ to_le_bytes 2 0))
unfolding units
units-Emits us h = rw (le→ltb 255 (length us + 1) h) (
    Emits-then (u8-Emits _) (
      Emits-then
        (each-Emits (λ _. Unit {0}) _ (to_le_bytes 2) (λ u _. u16-Emits u) us
          (All_of _ (λ _. tt) us))
        (u16-Emits 0)))

pub ptp_string-Emits : (s : Text) → IsPtpText s → Emits (Writer.ptp_string s) (string_bytes s)
unfolding Writer.ptp_string
ptp_string-Emits [] h = u8-Emits 0
ptp_string-Emits (c ∷ s) h = units-Emits (encode_utf16 (c ∷ s)) h.short

-- The only way in which the string encoder fails, and when.
pub ptp_string_too_long :
    (s : Text) (w : Writer)
    → 255 < length (encode_utf16 s) + 1
    → Writer.ptp_string s w ≡ err (string_too_long (length (encode_utf16 s) + 1))
unfolding Writer.ptp_string
ptp_string_too_long [] w h = absurd (unfold encode_utf16 in omega arith)
ptp_string_too_long (c ∷ s) w h =
    unfold units in rw (lt→ltb 255 (length (encode_utf16 (c ∷ s)) + 1) h)
