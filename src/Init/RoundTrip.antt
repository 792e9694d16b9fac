-- ===== src/Init/RoundTrip.antt =====
-- crates/protocol-primitives/src/fuji_init.rs: what is built is parsed, and what is accepted.
use ptpsim.Prelude.{
  ℕ, zero, suc, ◌+◌, ◌-◌, ◌*◌, ◌%◌, ◌^◌, ◌≤◌, ◌≡◌, ◌↔◌, refl, sym, ap, ◌∙◌, List, [], ◌∷◌, ◌++◌,
  false, ◌||◌, ok, some, length, take, drop, All, ltb, arith, length-append, take-append,
  drop-append, append_assoc,
}
use ptpsim.Prelude.Try.{fail_if_pass}
use ptpsim.Wire.Bytes.{to_le_bytes, from_le_bytes, length-to_le_bytes}
use ptpsim.Wire.Utf16.{
  Text, IsScalar, encode_utf16, from_utf16, from_utf16-encode_utf16, encode_utf16-lt,
}
use ptpsim.Wire.Codes.Sequences.{concat_map}
use ptpsim.Frame.Error.{init_request}
use ptpsim.Init.NameField.{
  zeros, put_units, put_units_lem, contains_nul, fixed_name_field, pairs, text_end, drop_past,
  pairs-units, text_end-units, encode_utf16-nonzero,
}
use ptpsim.Init.AppInit.{app_init_packet, build_app_init, parse_app_init, validate_init_ack}

-- A name without a NUL that leaves room for its terminator.
pub record IsClientName (name : Text) : Type 0 where
  pub scalars : All IsScalar name
  pub no_nul : contains_nul name ≡ false
  pub short : length (encode_utf16 name) ≤ 26

-- The field of a name: its units, then zeros.
abbrev pub field_of : Text → List ℕ
field_of name =
    concat_map (to_le_bytes 2) (encode_utf16 name) ++ zeros ((27 - length (encode_utf16 name)) * 2)

length-zeros : (n : ℕ) → length (zeros n) ≡ n
length-zeros zero = refl
length-zeros (suc n) = omega (arith, length-zeros n)

pub length-units : (us : List ℕ) → length (concat_map (to_le_bytes 2) us) ≡ length us * 2
length-units [] = omega arith
length-units (u ∷ us) = omega (
  arith,
  length-append (to_le_bytes 2 u) (concat_map (to_le_bytes 2) us),
  length-to_le_bytes 2 u,
  length-units us,
)

pub length-field_of : (name : Text) → IsClientName name → length (field_of name) ≡ 54
length-field_of name c = omega (
  arith,
  c.short,
  length-append (concat_map (to_le_bytes 2) (encode_utf16 name))
      (zeros ((27 - length (encode_utf16 name)) * 2)),
  length-units (encode_utf16 name),
  length-zeros ((27 - length (encode_utf16 name)) * 2),
)

fixed_name_field_lem :
    (name : Text) → IsClientName name → fixed_name_field name ≡ ok (field_of name)
unfolding fixed_name_field
fixed_name_field_lem name c =
    fail_if_pass (contains_nul name || ltb 26 (length (encode_utf16 name))) init_request
      (ground (arith, c.no_nul, c.short))
      (ap ok (
        ap (λ n. put_units 0 (encode_utf16 name) (zeros n))
          (whole (length (encode_utf16 name)) c.short)
        ∙ put_units_lem (encode_utf16 name) [] 0 ((27 - length (encode_utf16 name)) * 2) refl))
  where
    whole : (n : ℕ) → n ≤ 26 → 54 ≡ n * 2 + (27 - n) * 2
    whole n h = omega arith

-- The packet's parts, one behind the other.
abbrev laid_out : List ℕ → List ℕ → List ℕ
laid_out guid field = to_le_bytes 4 82 ++ (to_le_bytes 4 1 ++ (guid ++ (to_le_bytes 4 0 ++ field)))

module _ (guid field : List ℕ) (sixteen : length guid ≡ 16) (wide : length field ≡ 54) where
  app_init_packet_lem : app_init_packet guid field ≡ laid_out guid field
  unfolding app_init_packet
  app_init_packet_lem =
      let size : (length ((guid ++ to_le_bytes 4 0) ++ field) + 8) % 2 ^ 32 ≡ 82 = omega (
        arith,
        length-append (guid ++ to_le_bytes 4 0) field,
        length-append guid (to_le_bytes 4 0),
        length-to_le_bytes 4 0,
        sixteen,
        wide,
      ) in
      rw size (simp append_assoc refl)

  length-laid_out : length (laid_out guid field) ≡ 82
  unfolding to_le_bytes
  length-laid_out = omega (arith, length-append guid (0 ∷ 0 ∷ 0 ∷ 0 ∷ field), sixteen, wide)

  laid_out-guid : take 16 (drop 8 (laid_out guid field)) ≡ guid
  unfolding to_le_bytes
  laid_out-guid =
      ap (λ n. take n (guid ++ (0 ∷ 0 ∷ 0 ∷ 0 ∷ field))) (sym sixteen)
      ∙ take-append guid (0 ∷ 0 ∷ 0 ∷ 0 ∷ field)

  laid_out_reserved : take 4 (drop 24 (laid_out guid field)) ≡ 0 ∷ 0 ∷ 0 ∷ 0 ∷ []
  unfolding to_le_bytes
  laid_out_reserved =
      ap (λ n. take 4 (drop n (guid ++ (0 ∷ 0 ∷ 0 ∷ 0 ∷ field)))) (sym sixteen)
      ∙ ap (take 4) (drop-append guid (0 ∷ 0 ∷ 0 ∷ 0 ∷ field))

  laid_out_field : drop 28 (laid_out guid field) ≡ field
  unfolding to_le_bytes
  laid_out_field =
      ap (λ n. drop (n + 4) (guid ++ (0 ∷ 0 ∷ 0 ∷ 0 ∷ field))) (sym sixteen)
      ∙ drop_past guid (0 ∷ 0 ∷ 0 ∷ 0 ∷ field) 4

  laid_out_length : from_le_bytes (take 4 (laid_out guid field)) ≡ 82
  unfolding to_le_bytes from_le_bytes
  laid_out_length = refl

  laid_out_type : from_le_bytes (take 4 (drop 4 (laid_out guid field))) ≡ 1
  unfolding to_le_bytes from_le_bytes
  laid_out_type = refl

pub read_name :
    (name : Text)
    → IsClientName name
    → from_utf16 (take (text_end (pairs (field_of name))) (pairs (field_of name))) ≡ some name
read_name name c =
    let units = encode_utf16 name in
    let terminated : pairs (field_of name) ≡ units ++ (0 ∷ zeros (26 - length units)) =
      pairs-units units (27 - length units) (encode_utf16-lt name c.scalars)
      ∙ ap (λ n. units ++ zeros n) (one_left (length units) c.short) in
    rw
      (
        terminated,
        text_end-units units (zeros (26 - length units)) (encode_utf16-nonzero name c.no_nul),
        take-append units (0 ∷ zeros (26 - length units)),
      )
      (from_utf16-encode_utf16 name c.scalars)
  where
    one_left : (n : ℕ) → n ≤ 26 → 27 - n ≡ suc (26 - n)
    one_left n h = omega arith

parse_laid_out :
    (guid field : List ℕ) (name : Text)
    → length guid ≡ 16
    → length field ≡ 54
    → from_utf16 (take (text_end (pairs field)) (pairs field)) ≡ some name
    → parse_app_init (laid_out guid field)
      ≡ ok (record { initiator_guid = guid; friendly_name = name })
unfolding parse_app_init
parse_laid_out guid field name sixteen wide h =
    rw
      (
        length-laid_out guid field sixteen wide,
        laid_out_length guid field sixteen wide,
        laid_out_type guid field sixteen wide,
        laid_out_reserved guid field sixteen wide,
        laid_out_field guid field sixteen wide,
        laid_out-guid guid field sixteen wide,
        h,
      )
      refl

-- A name of scalar values without a NUL, of at most 26 UTF-16 units, and a GUID of 16 bytes are built
-- into a packet of 82 bytes, from which the parser reads both back.
pub parse-build_app_init :
    (guid : List ℕ) (name : Text)
    → length guid ≡ 16
    → IsClientName name
    → (packet : List ℕ) × (build_app_init guid name ≡ ok packet)
      × (length packet ≡ 82)
      × (parse_app_init packet ≡ ok (record { initiator_guid = guid; friendly_name = name }))
unfolding build_app_init
parse-build_app_init guid name sixteen c =
    let wide = length-field_of name c in
    (
      laid_out guid (field_of name),
      rw
          (
            sixteen,
            fixed_name_field_lem name c,
            app_init_packet_lem guid (field_of name) sixteen wide,
          )
          refl,
      length-laid_out guid (field_of name) sixteen wide,
      parse_laid_out guid (field_of name) name sixteen wide (read_name name c),
    )

-- What the validator of an acknowledgement accepts has at least the eight bytes of a header, declares
-- its own length in the first four and the type of an acknowledgement in the next four; and anything
-- else is refused.
pub validate_init_ack_lem :
    (packet : List ℕ)
    → (validate_init_ack packet ≡ ok tt) ↔ (
        (8 ≤ length packet)
        × (from_le_bytes (take 4 packet) ≡ length packet)
        × (from_le_bytes (take 4 (drop 4 packet)) ≡ 2))
unfolding validate_init_ack
validate_init_ack_lem packet = ((λ h. ground arith), λ h. ground arith)
