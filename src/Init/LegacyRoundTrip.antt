-- ===== src/Init/LegacyRoundTrip.antt =====
-- crates/protocol-primitives/src/legacy_app_init.rs: what is built is parsed.
use ptpsim.Prelude.{
  ℕ, zero, suc, ◌+◌, ◌-◌, ◌*◌, ◌/◌, ◌%◌, ◌^◌, ◌≤◌, ◌<◌, ◌≡◌, ◌≢◌, refl, sym, ap, ◌∙◌, List, [], ◌∷◌,
  ◌++◌, false, ◌||◌, ok, some, length, take, drop, All, ltb, arith, length-append, take-append,
  drop-append, append_assoc, ne→==,
}
use ptpsim.Prelude.Try.{fail_if_pass}
use ptpsim.Wire.Bytes.{IsByte, to_le_bytes, from_le_bytes, from_le_bytes-to_le_bytes}
use ptpsim.Wire.Utf16.{Text, encode_utf16, from_utf16-encode_utf16, encode_utf16-lt}
use ptpsim.Wire.Codes.Sequences.{concat_map}
use ptpsim.Frame.Error.{init_request}
use ptpsim.Init.NameField.{
  zeros, copy_at, put_units, put_units_lem, contains_nul, pairs, drop_past, pairs-units,
  encode_utf16-nonzero,
}
use ptpsim.Init.RoundTrip.{IsClientName, field_of, length-field_of, length-units}
use ptpsim.Init.Legacy.{
  Ipv4Addr, to_bits, from_bits, put_name_units, legacy_header, build_legacy_app_init, terminator_of,
  any_nonzero, parse_legacy_app_init,
}

-- The four octets of an address.
pub record IsAddress (ip : Ipv4Addr) : Type 0 where
  pub a : IsByte ip.a
  pub b : IsByte ip.b
  pub c : IsByte ip.c
  pub d : IsByte ip.d

from_bits-to_bits : (ip : Ipv4Addr) → IsAddress ip → from_bits (to_bits ip) ≡ ip
from_bits-to_bits ip h i = record { a = highest i; b = high i; c = low i; d = lowest i }
  where
    highest : to_bits ip / 2 ^ 24 % 256 ≡ ip.a
    highest = omega (arith, h.a, h.b, h.c, h.d)

    high : to_bits ip / 2 ^ 16 % 256 ≡ ip.b
    high = omega (arith, h.a, h.b, h.c, h.d)

    low : to_bits ip / 2 ^ 8 % 256 ≡ ip.c
    low = omega (arith, h.a, h.b, h.c, h.d)

    lowest : to_bits ip % 256 ≡ ip.d
    lowest = omega (arith, h.a, h.b, h.c, h.d)

to_bits-lt : (ip : Ipv4Addr) → IsAddress ip → to_bits ip < 256 ^ 4
to_bits-lt ip h = omega (arith, h.a, h.b, h.c, h.d)

take_past : (xs ys : List ℕ) (k : ℕ) → take (length xs + k) (xs ++ ys) ≡ xs ++ take k ys
take_past [] ys k = ap (λ j. take j ys) (omega arith)
take_past (x ∷ xs) ys k =
    ap (λ j. take j (x ∷ (xs ++ ys))) (suc_plus (length xs) k) ∙ ap (λ t. x ∷ t) (take_past xs ys k)
  where
    suc_plus : (m n : ℕ) → suc m + n ≡ suc (m + n)
    suc_plus m n = omega arith

-- A copy behind a prefix is a copy into what follows it.
copy_at_past :
    (pre field bytes : List ℕ) (k : ℕ)
    → copy_at (length pre + k) bytes (pre ++ field) ≡ pre ++ copy_at k bytes field
copy_at_past pre field bytes k =
    rw
      (
        take_past pre field k,
        ap (λ n. drop n (pre ++ field)) (assoc (length pre) k (length bytes)),
        drop_past pre field (k + length bytes),
      )
      (append_assoc pre (take k field) (bytes ++ drop (k + length bytes) field))
  where
    assoc : (a b c : ℕ) → a + b + c ≡ a + (b + c)
    assoc a b c = omega arith

-- Units behind the first 28 bytes are put as into a field of their own.
put_name_units_lem :
    (units pre field : List ℕ) (index : ℕ)
    → length pre ≡ 28
    → put_name_units index units (pre ++ field) ≡ pre ++ put_units index units field
unfolding put_name_units put_units
put_name_units_lem [] pre field index h = refl
put_name_units_lem (unit ∷ units) pre field index h =
    ap (put_name_units (index + 1) units) (
      ap (λ n. copy_at (n + index * 2) (to_le_bytes 2 unit) (pre ++ field)) (sym h)
      ∙ copy_at_past pre field (to_le_bytes 2 unit) (index * 2))
    ∙ put_name_units_lem units pre (copy_at (index * 2) (to_le_bytes 2 unit) field) (index + 1) h

terminator_of-units :
    (units rest : List ℕ)
    → All (λ u. u ≢ 0) units
    → terminator_of (units ++ (0 ∷ rest)) ≡ some (length units)
terminator_of-units [] rest h = refl
terminator_of-units (unit ∷ units) rest h =
    rw (ne→== unit 0 h.0, terminator_of-units units rest h.1) refl

any_nonzero-zeros : (n : ℕ) → any_nonzero (zeros n) ≡ false
any_nonzero-zeros zero = refl
any_nonzero-zeros (suc n) = any_nonzero-zeros n

-- The parts of the packet before the name.
abbrev header_of : List ℕ → Ipv4Addr → List ℕ
header_of guid ip = to_le_bytes 4 82 ++ (to_le_bytes 4 1 ++ (guid ++ to_le_bytes 4 (to_bits ip)))

module _ (guid : List ℕ) (ip : Ipv4Addr) (sixteen : length guid ≡ 16) where
  take-guid : (rest : List ℕ) → take 16 (guid ++ rest) ≡ guid
  take-guid rest = ap (λ n. take n (guid ++ rest)) (sym sixteen) ∙ take-append guid rest

  drop-guid : (rest : List ℕ) (k : ℕ) → drop (16 + k) (guid ++ rest) ≡ drop k rest
  drop-guid rest k = ap (λ n. drop (n + k) (guid ++ rest)) (sym sixteen) ∙ drop_past guid rest k

  legacy_header_lem : legacy_header guid ip ≡ header_of guid ip ++ zeros 54
  unfolding legacy_header to_le_bytes
  legacy_header_lem =
      rw (sixteen, take-guid (zeros 58), drop-guid (zeros 58) 4)
        (ap (λ t. 82 ∷ 0 ∷ 0 ∷ 0 ∷ 1 ∷ 0 ∷ 0 ∷ 0 ∷ t)
          (sym (append_assoc guid (to_le_bytes 4 (to_bits ip)) (zeros 54))))

  length-header_of : length (header_of guid ip) ≡ 28
  unfolding to_le_bytes
  length-header_of = omega (arith, length-append guid (to_le_bytes 4 (to_bits ip)), sixteen)

-- The whole packet: its header, and a field with a name.
abbrev packet_of : List ℕ → Ipv4Addr → Text → List ℕ
packet_of guid ip name = header_of guid ip ++ field_of name

module _ (guid : List ℕ) (ip : Ipv4Addr) (name : Text) (sixteen : length guid ≡ 16)
    (c : IsClientName name) where
  put_name : put_name_units 0 (encode_utf16 name) (legacy_header guid ip) ≡ packet_of guid ip name
  put_name =
      ap (put_name_units 0 (encode_utf16 name)) (legacy_header_lem guid ip sixteen)
      ∙ put_name_units_lem (encode_utf16 name) (header_of guid ip) (zeros 54) 0
          (length-header_of guid ip sixteen)
      ∙ ap (λ t. header_of guid ip ++ t)
          (ap (λ n. put_units 0 (encode_utf16 name) (zeros n))
              (whole (length (encode_utf16 name)) c.short)
            ∙ put_units_lem (encode_utf16 name) [] 0 ((27 - length (encode_utf16 name)) * 2) refl)
    where
      whole : (n : ℕ) → n ≤ 26 → 54 ≡ n * 2 + (27 - n) * 2
      whole n h = omega arith

  build_packet : build_legacy_app_init guid ip name ≡ ok (packet_of guid ip name)
  unfolding build_legacy_app_init
  build_packet = rw sixteen (
      fail_if_pass (contains_nul name || ltb 26 (length (encode_utf16 name))) init_request
        (ground (arith, c.no_nul, c.short)) (ap ok put_name))

  length-packet_of : length (packet_of guid ip name) ≡ 82
  length-packet_of = omega (
    arith,
    length-append (header_of guid ip) (field_of name),
    length-header_of guid ip sixteen,
    length-field_of name c,
  )

  packet_of-name : drop 28 (packet_of guid ip name) ≡ field_of name
  packet_of-name =
      ap (λ n. drop n (packet_of guid ip name)) (sym (length-header_of guid ip sixteen))
      ∙ drop-append (header_of guid ip) (field_of name)

  packet_of-guid : take 16 (drop 8 (packet_of guid ip name)) ≡ guid
  unfolding to_le_bytes
  packet_of-guid =
      rw (append_assoc guid (to_le_bytes 4 (to_bits ip)) (field_of name))
        (take-guid guid ip sixteen (to_le_bytes 4 (to_bits ip) ++ field_of name))

  packet_of_ip : take 4 (drop 24 (packet_of guid ip name)) ≡ to_le_bytes 4 (to_bits ip)
  unfolding to_le_bytes
  packet_of_ip =
      rw
        (
          append_assoc guid (to_le_bytes 4 (to_bits ip)) (field_of name),
          drop-guid guid ip sixteen (to_le_bytes 4 (to_bits ip) ++ field_of name) 0,
        )
        refl

  packet_of_length : from_le_bytes (take 4 (packet_of guid ip name)) ≡ 82
  unfolding to_le_bytes from_le_bytes
  packet_of_length = refl

  packet_of_type : from_le_bytes (take 4 (drop 4 (packet_of guid ip name))) ≡ 1
  unfolding to_le_bytes from_le_bytes
  packet_of_type = refl

  terminated :
      pairs (field_of name) ≡ encode_utf16 name ++ (0 ∷ zeros (26 - length (encode_utf16 name)))
  terminated =
      pairs-units (encode_utf16 name) (27 - length (encode_utf16 name))
        (encode_utf16-lt name c.scalars)
      ∙ ap (λ n. encode_utf16 name ++ zeros n) (one_left (length (encode_utf16 name)) c.short)
    where
      one_left : (n : ℕ) → n ≤ 26 → 27 - n ≡ suc (26 - n)
      one_left n h = omega arith

  tail_of : any_nonzero (drop ((length (encode_utf16 name) + 1) * 2) (field_of name)) ≡ false
  tail_of =
      let n = length (encode_utf16 name) in
      let units = concat_map (to_le_bytes 2) (encode_utf16 name) in
      let place : (n + 1) * 2 ≡ length units + 2 =
        omega (arith, length-units (encode_utf16 name)) in
      rw (place, drop_past units (zeros ((27 - n) * 2)) 2, two_less n c.short)
        (any_nonzero-zeros ((26 - n) * 2))
    where
      two_less : (n : ℕ) → n ≤ 26 → (27 - n) * 2 ≡ suc (suc ((26 - n) * 2))
      two_less n h = omega arith

  parse_packet :
      IsAddress ip
      → parse_legacy_app_init (packet_of guid ip name)
        ≡ ok (record { initiator_guid = guid; client_ip = ip; friendly_name = name })
  unfolding parse_legacy_app_init
  parse_packet h =
      let units = encode_utf16 name in
      rw
        (
          length-packet_of,
          packet_of_length,
          packet_of_type,
          packet_of_ip,
          packet_of-guid,
          packet_of-name,
          from_le_bytes-to_le_bytes 4 (to_bits ip) (to_bits-lt ip h),
          from_bits-to_bits ip h,
          terminated,
          terminator_of-units units (zeros (26 - length units))
              (encode_utf16-nonzero name c.no_nul),
          take-append units (0 ∷ zeros (26 - length units)),
          tail_of,
          from_utf16-encode_utf16 name c.scalars,
        )
        refl

-- A GUID of 16 bytes, an address of four bytes and a name of scalar values without a NUL, of at most
-- 26 UTF-16 units, are built into a packet of 82 bytes, from which the parser reads all three back.
pub parse-build_legacy_app_init :
    (guid : List ℕ) (ip : Ipv4Addr) (name : Text)
    → length guid ≡ 16
    → IsAddress ip
    → IsClientName name
    → (packet : List ℕ) × (build_legacy_app_init guid ip name ≡ ok packet)
      × (length packet ≡ 82)
      × (parse_legacy_app_init packet
          ≡ ok (record { initiator_guid = guid; client_ip = ip; friendly_name = name }))
parse-build_legacy_app_init guid ip name sixteen h c = (
  packet_of guid ip name,
  build_packet guid ip name sixteen c,
  length-packet_of guid ip name sixteen c,
  parse_packet guid ip name sixteen c h,
)
