-- ===== src/Packet/Encode.antt =====
-- crates/ptp-core/src/container.rs and framing.rs: `encode_body` of each packet.
use ptpsim.Prelude.{ℕ, List}
use ptpsim.Wire.Writer
use ptpsim.Wire.Writer.{Encoder, emit, each, ◌>>◌}
use ptpsim.Packet.Types.{
  PtpIpPacket, InitCommandRequest, InitCommandAck, OperationRequest, OperationResponse, EventPacket,
  StartData, DataBlock,
}

-- `for p in &self.params { w.u32(*p); }`
unfoldable pub encode_params : List ℕ → Encoder
encode_params = each (λ p. emit (Writer.u32 p))

unfoldable pub encode_init_command_request : InitCommandRequest → Encoder
encode_init_command_request p = do
  emit (Writer.bytes p.initiator_guid)
  Writer.ptp_string p.friendly_name
  emit (Writer.u32 p.protocol_version)

unfoldable pub encode_init_command_ack : InitCommandAck → Encoder
encode_init_command_ack p = do
  emit (Writer.u32 p.connection_number)
  emit (Writer.bytes p.responder_guid)
  Writer.ptp_string p.friendly_name
  emit (Writer.u32 p.protocol_version)

unfoldable pub encode_operation_request : OperationRequest → Encoder
unfolding encode_params
encode_operation_request p = do
  emit (Writer.u32 p.data_phase_info)
  emit (Writer.u16 p.code)
  emit (Writer.u32 p.transaction_id)
  encode_params p.params

unfoldable pub encode_operation_response : OperationResponse → Encoder
unfolding encode_params
encode_operation_response p = do
  emit (Writer.u16 p.code)
  emit (Writer.u32 p.transaction_id)
  encode_params p.params

unfoldable pub encode_event_packet : EventPacket → Encoder
unfolding encode_params
encode_event_packet p = do
  emit (Writer.u16 p.code)
  emit (Writer.u32 p.transaction_id)
  encode_params p.params

unfoldable pub encode_start_data : StartData → Encoder
encode_start_data p = do emit (Writer.u32 p.transaction_id); emit (Writer.u64 p.total_length)

unfoldable pub encode_data_block : DataBlock → Encoder
encode_data_block p = do emit (Writer.u32 p.transaction_id); emit (Writer.bytes p.payload)

-- `PtpIpPacket::encode_body`. The three structs with no field write nothing.
unfoldable pub encode_body : PtpIpPacket → Encoder
unfolding encode_init_command_request encode_init_command_ack encode_operation_request
    encode_operation_response encode_event_packet encode_start_data encode_data_block
encode_body (PtpIpPacket.init_command_request p) = encode_init_command_request p
encode_body (PtpIpPacket.init_command_ack p) = encode_init_command_ack p
encode_body (PtpIpPacket.init_event_request p) = emit (Writer.u32 p.connection_number)
encode_body PtpIpPacket.init_event_ack = emit (λ w. w)
encode_body (PtpIpPacket.init_fail p) = emit (Writer.u32 p.reason)
encode_body (PtpIpPacket.operation_request p) = encode_operation_request p
encode_body (PtpIpPacket.operation_response p) = encode_operation_response p
encode_body (PtpIpPacket.event p) = encode_event_packet p
encode_body (PtpIpPacket.start_data p) = encode_start_data p
encode_body (PtpIpPacket.data_block p) = encode_data_block p
encode_body (PtpIpPacket.end_data p) = encode_data_block p
encode_body PtpIpPacket.probe_request = emit (λ w. w)
encode_body PtpIpPacket.probe_response = emit (λ w. w)
