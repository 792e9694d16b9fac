-- ===== src/Init/Legacy.antt =====
-- crates/protocol-primitives/src/legacy_app_init.rs: the 82-byte request with the client's address,
-- and the check of the 68-byte acknowledgement.
use ptpsim.Prelude.{
  ℕ, suc, ◌+◌, ◌*◌, ◌/◌, ◌%◌, ◌^◌, List, [], ◌∷◌, Bool, false, ◌||◌, Option, none, some, Result, ok,
  length, take, drop, ltb, ◌==◌, not, list_eq, if◌then◌else◌,
}
use ptpsim.Prelude.Try.{◌>>=◌, ◌>>◌, fail_if, ok_or}
use ptpsim.Wire.Bytes.{to_le_bytes, from_le_bytes}
use ptpsim.Wire.Utf16.{Text, encode_utf16, from_utf16}
use ptpsim.Frame.Error.{FramingError, guid_length, init_request, init_ack}
use ptpsim.Init.NameField.{zeros, copy_at, contains_nul, pairs}

abbrev pub init_len : ℕ
init_len = 82

abbrev pub init_type : ℕ
init_type = 1

abbrev pub ip_offset : ℕ
ip_offset = 24

abbrev pub name_offset : ℕ
name_offset = 28

-- `std::net::Ipv4Addr` and its conversions to and from `u32`.
pub record Ipv4Addr : Type 0 where
  pub a : ℕ
  pub b : ℕ
  pub c : ℕ
  pub d : ℕ

abbrev pub to_bits : Ipv4Addr → ℕ
to_bits ip = ip.a * 2 ^ 24 + ip.b * 2 ^ 16 + ip.c * 2 ^ 8 + ip.d

abbrev pub from_bits : ℕ → Ipv4Addr
from_bits n = record {
  a = n / 2 ^ 24 % 256;
  b = n / 2 ^ 16 % 256;
  c = n / 2 ^ 8 % 256;
  d = n % 256;
}

pub record LegacyAppInit : Type 0 where
  pub initiator_guid : List ℕ
  pub client_ip : Ipv4Addr
  pub friendly_name : Text

-- `for (index, unit) in units.into_iter().enumerate()`
unfoldable pub put_name_units : (index : ℕ) → List ℕ → List ℕ → List ℕ
put_name_units index [] packet = packet
put_name_units index (unit ∷ units) packet =
    put_name_units (index + 1) units (copy_at (name_offset + index * 2) (to_le_bytes 2 unit) packet)

-- The packet up to the name, in the order of the copies.
unfoldable pub legacy_header : List ℕ → Ipv4Addr → List ℕ
legacy_header guid client_ip =
    let sized = copy_at 0 (to_le_bytes 4 init_len) (zeros init_len) in
    let typed = copy_at 4 (to_le_bytes 4 init_type) sized in
    copy_at ip_offset (to_le_bytes 4 (to_bits client_ip)) (copy_at 8 guid typed)

unfoldable pub build_legacy_app_init : List ℕ → Ipv4Addr → Text → Result FramingError (List ℕ)
build_legacy_app_init guid client_ip friendly_name = do
  fail_if (not (length guid == 16)) (guid_length (length guid))
  let units = encode_utf16 friendly_name
  fail_if (contains_nul friendly_name || ltb 26 (length units)) init_request
  ok (put_name_units 0 units (legacy_header guid client_ip))

-- `chunks_exact(2).position(|pair| pair == [0, 0])`
abbrev pub terminator_of : List ℕ → Option ℕ
terminator_of [] = none
terminator_of (unit ∷ units) =
    let later = terminator_of units in
    if unit == 0 then some 0 else elim later [ none ↦ none | some n ↦ some (suc n) ]

-- `iter().any(|byte| *byte != 0)`
abbrev pub any_nonzero : List ℕ → Bool
any_nonzero [] = false
any_nonzero (byte ∷ bytes) = not (byte == 0) || any_nonzero bytes

unfoldable pub parse_legacy_app_init : List ℕ → Result FramingError LegacyAppInit
parse_legacy_app_init packet = do
  fail_if (not (length packet == init_len)) init_request
  let declared = from_le_bytes (take 4 packet)
  let packet_type = from_le_bytes (take 4 (drop 4 packet))
  fail_if (not (declared == init_len)) init_request
  fail_if (not (packet_type == init_type)) init_request
  let client_ip = from_bits (from_le_bytes (take 4 (drop ip_offset packet)))
  let name_bytes = drop name_offset packet
  terminator ← ok_or (terminator_of (pairs name_bytes)) init_request
  fail_if (any_nonzero (drop ((terminator + 1) * 2) name_bytes)) init_request
  friendly_name ← ok_or (from_utf16 (take terminator (pairs name_bytes))) init_request
  ok (record {
    initiator_guid = take 16 (drop 8 packet);
    client_ip = client_ip;
    friendly_name = friendly_name;
  })

-- The result `()` is `tt`.
unfoldable pub validate_legacy_app_init_ack : List ℕ → List ℕ → Result FramingError (Unit {0})
validate_legacy_app_init_ack packet expected_responder_guid = do
  fail_if (not (length expected_responder_guid == 16))
      (guid_length (length expected_responder_guid))
  fail_if (not (length packet == 68)) init_ack
  let declared = from_le_bytes (take 4 packet)
  let packet_type = from_le_bytes (take 4 (drop 4 packet))
  fail_if (not (declared == 68) || not (packet_type == 2)) init_ack
  fail_if (not (list_eq (take 16 (drop 12 packet)) expected_responder_guid)) init_ack
  ok tt
