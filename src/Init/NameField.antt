-- ===== src/Init/NameField.antt =====
-- crates/protocol-primitives/src/fuji_init.rs: the 54-byte name field, written and read.
use ptpsim.Prelude.{
  ℕ, zero, suc, ◌+◌, ◌-◌, ◌*◌, ◌/◌, ◌%◌, ◌^◌, ◌<◌, ◌≡◌, ◌≢◌, refl, sym, ap, ◌∙◌, List, [], ◌∷◌,
  ◌++◌, Bool, false, ◌||◌, Result, ok, length, take, drop, All, ltb, ◌==◌, arith, if◌then◌else◌,
  length-append, take-append, append_assoc, ne→==, All-append,
}
use ptpsim.Prelude.Try.{◌>>◌, fail_if}
use ptpsim.Wire.Bytes.{to_le_bytes, from_le_bytes, length-to_le_bytes}
use ptpsim.Wire.Utf16.{Text, encode_char, encode_utf16}
use ptpsim.Wire.Codes.Sequences.{concat_map}
use ptpsim.Frame.Error.{FramingError, init_request}

abbrev pub name_field_bytes : ℕ
name_field_bytes = 54

abbrev pub max_name_units : ℕ
max_name_units = name_field_bytes / 2 - 1

-- `[0u8; n]`
abbrev pub zeros : ℕ → List ℕ
zeros zero = []
zeros (suc n) = 0 ∷ zeros n

-- `field[offset..offset + len].copy_from_slice(bytes)`
abbrev pub copy_at : ℕ → List ℕ → List ℕ → List ℕ
copy_at offset bytes field = take offset field ++ (bytes ++ drop (offset + length bytes) field)

-- `for (index, unit) in units.into_iter().enumerate()`
unfoldable pub put_units : (index : ℕ) → List ℕ → List ℕ → List ℕ
put_units index [] field = field
put_units index (unit ∷ units) field =
    put_units (index + 1) units (copy_at (index * 2) (to_le_bytes 2 unit) field)

-- `name.contains('\0')`
abbrev pub contains_nul : Text → Bool
contains_nul [] = false
contains_nul (c ∷ s) = (c == 0) || contains_nul s

unfoldable pub fixed_name_field : Text → Result FramingError (List ℕ)
unfolding put_units
fixed_name_field name = do
  let units = encode_utf16 name
  fail_if (contains_nul name || ltb max_name_units (length units)) init_request
  ok (put_units 0 units (zeros name_field_bytes))

-- `chunks_exact(2)` and `u16::from_le_bytes`: a last single byte is left out.
abbrev pub pairs : List ℕ → List ℕ
pairs [] = []
pairs (a ∷ []) = []
pairs (a ∷ b ∷ bytes) = from_le_bytes (a ∷ b ∷ []) ∷ pairs bytes

-- `position(|unit| *unit == 0).unwrap_or(units.len())`
abbrev pub text_end : List ℕ → ℕ
text_end [] = 0
text_end (unit ∷ units) = let later = text_end units in if unit == 0 then 0 else suc later

zeros-drop : (m n : ℕ) → drop m (zeros (m + n)) ≡ zeros n
zeros-drop zero n = ap zeros (omega arith)
zeros-drop (suc m) n = ap (λ k. drop (suc m) (zeros k)) (suc_plus m n) ∙ zeros-drop m n
  where
    suc_plus : (m n : ℕ) → suc m + n ≡ suc (m + n)
    suc_plus m n = omega arith

pub drop_past : (xs ys : List ℕ) (k : ℕ) → drop (length xs + k) (xs ++ ys) ≡ drop k ys
drop_past [] ys k = ap (λ j. drop j ys) (omega arith)
drop_past (x ∷ xs) ys k =
    ap (λ j. drop j (x ∷ (xs ++ ys))) (suc_plus (length xs) k) ∙ drop_past xs ys k
  where
    suc_plus : (m n : ℕ) → suc m + n ≡ suc (m + n)
    suc_plus m n = omega arith

-- The units so far, then zeros: one more unit takes the place of two of them.
pub copy_next :
    (done bytes : List ℕ) (n : ℕ)
    → copy_at (length done) bytes (done ++ zeros (length bytes + n)) ≡ done ++ (bytes ++ zeros n)
copy_next done bytes n =
    rw
      (
        take-append done (zeros (length bytes + n)),
        drop_past done (zeros (length bytes + n)) (length bytes),
        zeros-drop (length bytes) n,
      )
      refl

pub put_units_lem :
    (units done : List ℕ) (index n : ℕ)
    → length done ≡ index * 2
    → put_units index units (done ++ zeros (length units * 2 + n))
      ≡ done ++ (concat_map (to_le_bytes 2) units ++ zeros n)
unfolding put_units
put_units_lem [] done index n h = ap (λ k. done ++ zeros k) (omega arith)
put_units_lem (unit ∷ units) done index n h =
    ap (put_units (index + 1) units) step
    ∙ put_units_lem units (done ++ to_le_bytes 2 unit) (index + 1) n longer
    ∙ append_assoc done (to_le_bytes 2 unit) (concat_map (to_le_bytes 2) units ++ zeros n)
    ∙ ap (λ t. done ++ t)
        (sym (append_assoc (to_le_bytes 2 unit) (concat_map (to_le_bytes 2) units) (zeros n)))
  where
    longer : length (done ++ to_le_bytes 2 unit) ≡ (index + 1) * 2
    longer = omega (arith, h, length-append done (to_le_bytes 2 unit), length-to_le_bytes 2 unit)

    room : suc (length units) * 2 + n ≡ length (to_le_bytes 2 unit) + (length units * 2 + n)
    room = omega (arith, length-to_le_bytes 2 unit)

    step :
        copy_at (index * 2) (to_le_bytes 2 unit) (done ++ zeros (suc (length units) * 2 + n))
        ≡ (done ++ to_le_bytes 2 unit) ++ zeros (length units * 2 + n)
    step =
        ap (λ k. copy_at k (to_le_bytes 2 unit) (done ++ zeros (suc (length units) * 2 + n)))
          (sym h)
        ∙ ap (λ k. copy_at (length done) (to_le_bytes 2 unit) (done ++ zeros k)) room
        ∙ copy_next done (to_le_bytes 2 unit) (length units * 2 + n)
        ∙ sym (append_assoc done (to_le_bytes 2 unit) (zeros (length units * 2 + n)))

pub pairs-units :
    (units : List ℕ) (n : ℕ)
    → All (λ u. u < 2 ^ 16) units
    → pairs (concat_map (to_le_bytes 2) units ++ zeros (n * 2)) ≡ units ++ zeros n
unfolding to_le_bytes from_le_bytes
pairs-units [] zero h = refl
pairs-units [] (suc n) h =
    ap (λ k. pairs (zeros k)) (two_more n) ∙ ap (λ t. 0 ∷ t) (pairs-units [] n h)
  where
    two_more : (n : ℕ) → suc n * 2 ≡ suc (suc (n * 2))
    two_more n = omega arith
pairs-units (unit ∷ units) n h =
    let whole : unit % 256 + 256 * (unit / 256 % 256 + 0) ≡ unit = omega (arith, h.0) in
    rw (whole, pairs-units units n h.1) refl

pub text_end-units :
    (units rest : List ℕ) → All (λ u. u ≢ 0) units → text_end (units ++ (0 ∷ rest)) ≡ length units
text_end-units [] rest h = refl
text_end-units (unit ∷ units) rest h = rw (ne→== unit 0 h.0, text_end-units units rest h.1) refl

encode_char-nonzero : (c : ℕ) → c ≢ 0 → All (λ u. u ≢ 0) (encode_char c)
unfolding encode_char
encode_char-nonzero c h = ground arith

pub encode_utf16-nonzero : (s : Text) → contains_nul s ≡ false → All (λ u. u ≢ 0) (encode_utf16 s)
unfolding encode_utf16
encode_utf16-nonzero [] h = tt
encode_utf16-nonzero (c ∷ s) h =
    let both : ((c == 0) ≡ false) × (contains_nul s ≡ false) = ground arith in
    All-append (λ u. u ≢ 0) (encode_char c) (encode_utf16 s)
      (encode_char-nonzero c (ground (arith, both.0))) (encode_utf16-nonzero s both.1)
