-- ===== src/Packet/Layout.antt =====
-- The bytes of each packet's body; the encoders append them and the decoders read them back.
use ptpsim.Prelude.{ℕ, sym, ap, List, [], ◌++◌, ok, All_of, append-nil}
use ptpsim.Wire.Bytes.{to_le_bytes}
use ptpsim.Wire.Writer.{emit}
use ptpsim.Wire.Codes.Read.{
  Codes, Ends, Ends-of_Codes, Ends-pure, Ends-bind, Ends-bind_nil, Ends-apply, Codes-bind,
  Codes-apply, u16-Codes, u32-Codes, u64-Codes, take_bytes-Codes, rest-Ends, finish-Ends,
}
use ptpsim.Wire.Codes.Sequences.{string_bytes, ptp_string-Codes}
use ptpsim.Wire.Codes.Write.{
  Emits, Emits-then, bytes-Emits, u16-Emits, u32-Emits, u64-Emits, each-Emits, ptp_string-Emits,
}
use ptpsim.Packet.Types.{PtpIpPacket, packet_type, IsWire, IsGuid}
use ptpsim.Packet.Params.{param_bytes, remaining_params-Ends}
use ptpsim.Packet.Decode.{
  guid, decode_init_command_request, decode_init_command_ack, decode_init_event_request,
  decode_init_fail, decode_operation_request, decode_operation_response, decode_event_packet,
  decode_start_data, decode_data_block, decode_body,
}
use ptpsim.Packet.Encode.{encode_params, encode_body}

abbrev pub body_bytes : PtpIpPacket → List ℕ
body_bytes (PtpIpPacket.init_command_request p) =
    p.initiator_guid ++ (string_bytes p.friendly_name ++ to_le_bytes 4 p.protocol_version)
body_bytes (PtpIpPacket.init_command_ack p) =
    to_le_bytes 4 p.connection_number
    ++ (p.responder_guid ++ (string_bytes p.friendly_name ++ to_le_bytes 4 p.protocol_version))
body_bytes (PtpIpPacket.init_event_request p) = to_le_bytes 4 p.connection_number
body_bytes PtpIpPacket.init_event_ack = []
body_bytes (PtpIpPacket.init_fail p) = to_le_bytes 4 p.reason
body_bytes (PtpIpPacket.operation_request p) =
    to_le_bytes 4 p.data_phase_info
    ++ (to_le_bytes 2 p.code ++ (to_le_bytes 4 p.transaction_id ++ param_bytes p.params))
body_bytes (PtpIpPacket.operation_response p) =
    to_le_bytes 2 p.code ++ (to_le_bytes 4 p.transaction_id ++ param_bytes p.params)
body_bytes (PtpIpPacket.event p) =
    to_le_bytes 2 p.code ++ (to_le_bytes 4 p.transaction_id ++ param_bytes p.params)
body_bytes (PtpIpPacket.start_data p) =
    to_le_bytes 4 p.transaction_id ++ to_le_bytes 8 p.total_length
body_bytes (PtpIpPacket.data_block p) = to_le_bytes 4 p.transaction_id ++ p.payload
body_bytes (PtpIpPacket.end_data p) = to_le_bytes 4 p.transaction_id ++ p.payload
body_bytes PtpIpPacket.probe_request = []
body_bytes PtpIpPacket.probe_response = []

encode_params-Emits : (ps : List ℕ) → Emits (encode_params ps) (param_bytes ps)
unfolding encode_params
encode_params-Emits ps =
    each-Emits (λ _. Unit {0}) _ (to_le_bytes 4) (λ p _. u32-Emits p) ps (All_of _ (λ _. tt) ps)

nothing-Emits : Emits (emit (λ w. w)) []
unfolding emit
nothing-Emits = record { at = λ w. ap (λ t. ok (record { buf = t })) (sym (append-nil w.buf)) }

pub encode_body-Emits : (p : PtpIpPacket) → IsWire p → Emits (encode_body p) (body_bytes p)
unfolding encode_body
encode_body-Emits (PtpIpPacket.init_command_request p) h =
    Emits-then (bytes-Emits _) (Emits-then (ptp_string-Emits _ h.1) (u32-Emits _))
encode_body-Emits (PtpIpPacket.init_command_ack p) h =
    Emits-then (u32-Emits _)
      (Emits-then (bytes-Emits _) (Emits-then (ptp_string-Emits _ h.2) (u32-Emits _)))
encode_body-Emits (PtpIpPacket.init_event_request p) h = u32-Emits _
encode_body-Emits PtpIpPacket.init_event_ack h = nothing-Emits
encode_body-Emits (PtpIpPacket.init_fail p) h = u32-Emits _
encode_body-Emits (PtpIpPacket.operation_request p) h =
    Emits-then (u32-Emits _)
      (Emits-then (u16-Emits _) (Emits-then (u32-Emits _) (encode_params-Emits _)))
encode_body-Emits (PtpIpPacket.operation_response p) h =
    Emits-then (u16-Emits _) (Emits-then (u32-Emits _) (encode_params-Emits _))
encode_body-Emits (PtpIpPacket.event p) h =
    Emits-then (u16-Emits _) (Emits-then (u32-Emits _) (encode_params-Emits _))
encode_body-Emits (PtpIpPacket.start_data p) h = Emits-then (u32-Emits _) (u64-Emits _)
encode_body-Emits (PtpIpPacket.data_block p) h = Emits-then (u32-Emits _) (bytes-Emits _)
encode_body-Emits (PtpIpPacket.end_data p) h = Emits-then (u32-Emits _) (bytes-Emits _)
encode_body-Emits PtpIpPacket.probe_request h = nothing-Emits
encode_body-Emits PtpIpPacket.probe_response h = nothing-Emits

guid-Codes : (g : List ℕ) → IsGuid g → Codes guid g g
unfolding guid
guid-Codes g h = take_bytes-Codes 16 g h.sixteen

pub decode_body-Ends :
    (p : PtpIpPacket) → IsWire p → Ends (decode_body (packet_type p)) (body_bytes p) p
unfolding decode_body packet_type decode_init_command_request decode_init_command_ack
    decode_init_event_request decode_init_fail decode_operation_request decode_operation_response
    decode_event_packet decode_start_data decode_data_block
decode_body-Ends (PtpIpPacket.init_command_request p) h = Ends-apply _ (
    Ends-of_Codes (
      Codes-bind _ (guid-Codes _ h.0)
        (Codes-bind _ (ptp_string-Codes _ h.1) (Codes-apply _ (u32-Codes _ h.2)))))
decode_body-Ends (PtpIpPacket.init_command_ack p) h = Ends-apply _ (
    Ends-of_Codes (
      Codes-bind _ (u32-Codes _ h.0) (
        Codes-bind _ (guid-Codes _ h.1)
          (Codes-bind _ (ptp_string-Codes _ h.2) (Codes-apply _ (u32-Codes _ h.3))))))
decode_body-Ends (PtpIpPacket.init_event_request p) h =
    Ends-apply _
      (Ends-bind_nil _ (Ends-of_Codes (u32-Codes _ h)) (Ends-bind_nil _ finish-Ends (Ends-pure _)))
decode_body-Ends PtpIpPacket.init_event_ack h = Ends-bind_nil _ finish-Ends (Ends-pure _)
decode_body-Ends (PtpIpPacket.init_fail p) h =
    Ends-apply _ (Ends-of_Codes (Codes-apply _ (u32-Codes _ h)))
decode_body-Ends (PtpIpPacket.operation_request p) h = Ends-apply _ (
    Ends-bind _ (u32-Codes _ h.0) (
      Ends-bind _ (u16-Codes _ h.1)
        (Ends-bind _ (u32-Codes _ h.2) (Ends-apply _ (remaining_params-Ends _ h.3)))))
decode_body-Ends (PtpIpPacket.operation_response p) h = Ends-apply _ (
    Ends-bind _ (u16-Codes _ h.0)
      (Ends-bind _ (u32-Codes _ h.1) (Ends-apply _ (remaining_params-Ends _ h.2))))
decode_body-Ends (PtpIpPacket.event p) h = Ends-apply _ (
    Ends-bind _ (u16-Codes _ h.0)
      (Ends-bind _ (u32-Codes _ h.1) (Ends-apply _ (remaining_params-Ends _ h.2))))
decode_body-Ends (PtpIpPacket.start_data p) h =
    Ends-apply _ (Ends-of_Codes (Codes-bind _ (u32-Codes _ h.0) (Codes-apply _ (u64-Codes _ h.1))))
decode_body-Ends (PtpIpPacket.data_block p) h =
    Ends-apply _ (Ends-bind _ (u32-Codes _ h.0) (Ends-apply _ (rest-Ends _)))
decode_body-Ends (PtpIpPacket.end_data p) h =
    Ends-apply _ (Ends-bind _ (u32-Codes _ h.0) (Ends-apply _ (rest-Ends _)))
decode_body-Ends PtpIpPacket.probe_request h = Ends-bind_nil _ finish-Ends (Ends-pure _)
decode_body-Ends PtpIpPacket.probe_response h = Ends-bind_nil _ finish-Ends (Ends-pure _)
