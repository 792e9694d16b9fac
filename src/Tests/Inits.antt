-- ===== src/Tests/Inits.antt =====
-- crates/protocol-primitives/src/fuji_init.rs at a concrete name.
use ptpsim.Prelude.{ℕ, ◌≡◌, refl, inl, List, [], ◌∷◌, ◌++◌, ok, length, arith}
use ptpsim.Wire.Bytes.{from_le_bytes}
use ptpsim.Wire.Utf16.{Text, encode_utf16}
use ptpsim.Init.NameField.{zeros}
use ptpsim.Init.AppInit.{build_app_init, parse_app_init, validate_init_ack}
use ptpsim.Init.RoundTrip.{IsClientName, parse-build_app_init}
use ptpsim.Init.Legacy.{
  Ipv4Addr, build_legacy_app_init, parse_legacy_app_init, validate_legacy_app_init_ack,
}
use ptpsim.Init.LegacyRoundTrip.{IsAddress, parse-build_legacy_app_init}

abbrev phone : Text
phone = 112 ∷ 104 ∷ 111 ∷ 110 ∷ 101 ∷ []

phone-IsClientName : IsClientName phone
unfolding encode_utf16
phone-IsClientName = record {
  scalars = (
    inl (omega arith),
    (inl (omega arith), (inl (omega arith), (inl (omega arith), (inl (omega arith), tt)))),
  );
  no_nul = refl;
  short = omega arith;
}

abbrev guid : List ℕ
guid = 1 ∷ 2 ∷ 3 ∷ 4 ∷ 5 ∷ 6 ∷ 7 ∷ 8 ∷ 9 ∷ 10 ∷ 11 ∷ 12 ∷ 13 ∷ 14 ∷ 15 ∷ 16 ∷ []

parse-build_app_init_example :
    (packet : List ℕ) × (build_app_init guid phone ≡ ok packet)
    × (length packet ≡ 82)
    × (parse_app_init packet ≡ ok (record { initiator_guid = guid; friendly_name = phone }))
parse-build_app_init_example = parse-build_app_init guid phone refl phone-IsClientName

-- A bare header of type 2.
abbrev ack : List ℕ
ack = 8 ∷ 0 ∷ 0 ∷ 0 ∷ 2 ∷ 0 ∷ 0 ∷ 0 ∷ []

ack-validated : validate_init_ack ack ≡ ok tt
unfolding validate_init_ack from_le_bytes
ack-validated = refl

abbrev address : Ipv4Addr
address = record { a = 192; b = 168; c = 0; d = 2 }

address-IsAddress : IsAddress address
address-IsAddress = record { a = omega arith; b = omega arith; c = omega arith; d = omega arith }

parse-build_legacy_app_init_example :
    (packet : List ℕ) × (build_legacy_app_init guid address phone ≡ ok packet)
    × (length packet ≡ 82)
    × (parse_legacy_app_init packet
        ≡ ok (record { initiator_guid = guid; client_ip = address; friendly_name = phone }))
parse-build_legacy_app_init_example =
    parse-build_legacy_app_init guid address phone refl address-IsAddress phone-IsClientName

-- The header and the GUID are checked, the forty bytes behind them are not.
legacy_ack-validated :
    validate_legacy_app_init_ack
      ((68 ∷ 0 ∷ 0 ∷ 0 ∷ 2 ∷ 0 ∷ 0 ∷ 0 ∷ 1 ∷ 0 ∷ 0 ∷ 0 ∷ []) ++ (guid ++ (255 ∷ zeros 39)))
      guid
    ≡ ok tt
unfolding validate_legacy_app_init_ack from_le_bytes
legacy_ack-validated = refl
