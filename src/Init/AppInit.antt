-- ===== src/Init/AppInit.antt =====
-- crates/protocol-primitives/src/fuji_init.rs: the 82-byte `InitCommandRequest` and its acknowledgement.
use ptpsim.Prelude.{
  ℕ, ◌+◌, ◌%◌, ◌^◌, List, [], ◌∷◌, Result, ok, length, take, drop, ltb, ◌==◌, not, list_eq,
}
use ptpsim.Prelude.Try.{◌>>=◌, ◌>>◌, fail_if, ok_or}
use ptpsim.Wire.Bytes.{from_le_bytes}
use ptpsim.Wire.Utf16.{Text, from_utf16}
use ptpsim.Wire.Writer
use ptpsim.Frame.Error.{FramingError, guid_length, init_request, init_ack}
use ptpsim.Init.NameField.{fixed_name_field, pairs, text_end}

abbrev pub init_command_request : ℕ
init_command_request = 1

abbrev pub init_command_ack : ℕ
init_command_ack = 2

abbrev pub app_init_bytes : ℕ
app_init_bytes = 82

pub record AppInit : Type 0 where
  pub initiator_guid : List ℕ
  pub friendly_name : Text

-- The packet of a GUID and a name field.
unfoldable pub app_init_packet : List ℕ → List ℕ → List ℕ
unfolding Writer.u32 Writer.bytes Writer.new
app_init_packet guid field =
    let payload = (Writer.bytes field (Writer.u32 0 (Writer.bytes guid Writer.new))).buf in
    (Writer.bytes payload
      (Writer.u32 init_command_request (Writer.u32 ((length payload + 8) % 2 ^ 32) Writer.new))).buf

unfoldable pub build_app_init : List ℕ → Text → Result FramingError (List ℕ)
build_app_init guid friendly_name = do
  fail_if (not (length guid == 16)) (guid_length (length guid))
  field ← fixed_name_field friendly_name
  ok (app_init_packet guid field)

unfoldable pub parse_app_init : List ℕ → Result FramingError AppInit
parse_app_init packet = do
  fail_if (not (length packet == app_init_bytes)) init_request
  let declared = from_le_bytes (take 4 packet)
  let typ = from_le_bytes (take 4 (drop 4 packet))
  fail_if (not (declared == length packet)) init_request
  fail_if (not (typ == init_command_request)) init_request
  fail_if (not (list_eq (take 4 (drop 24 packet)) (0 ∷ 0 ∷ 0 ∷ 0 ∷ []))) init_request
  let units = pairs (drop 28 packet)
  friendly_name ← ok_or (from_utf16 (take (text_end units) units)) init_request
  ok (record { initiator_guid = take 16 (drop 8 packet); friendly_name = friendly_name })

-- The result `()` is `tt`.
unfoldable pub validate_init_ack : List ℕ → Result FramingError (Unit {0})
validate_init_ack packet = do
  fail_if (ltb (length packet) 8) init_ack
  let declared = from_le_bytes (take 4 packet)
  let typ = from_le_bytes (take 4 (drop 4 packet))
  fail_if (not (declared == length packet)) init_ack
  fail_if (not (typ == init_command_ack)) init_ack
  ok tt
