-- ===== src/Packet/Decode.antt =====
-- crates/ptp-core/src/container.rs: `decode_body` of each packet, and the `match` over the packet
-- type of `PtpIpPacket::decode` in framing.rs.
use ptpsim.Prelude.{ℕ, List}
use ptpsim.Wire.Error.{unknown_packet_type}
use ptpsim.Wire.Reader.{
  Decoder, pure, fail, ◌>>=◌, ◌>>◌, finish, take_bytes, u16, u32, u64, rest, ptp_string,
}
use ptpsim.Packet.Types.{
  PtpIpPacket, PacketType, InitCommandRequest, InitCommandAck, InitEventRequest, InitFail,
  OperationRequest, OperationResponse, EventPacket, StartData, DataBlock, tag,
}
use ptpsim.Packet.Params.{remaining_params}

-- `guid`: sixteen bytes.
unfoldable pub guid : Decoder (List ℕ)
guid = take_bytes 16

unfoldable pub decode_init_command_request : Decoder InitCommandRequest
unfolding guid
decode_init_command_request = do
  initiator_guid ← guid
  friendly_name ← ptp_string
  protocol_version ← u32
  pure (record {
    initiator_guid = initiator_guid;
    friendly_name = friendly_name;
    protocol_version = protocol_version;
  })

unfoldable pub decode_init_command_ack : Decoder InitCommandAck
unfolding guid
decode_init_command_ack = do
  connection_number ← u32
  responder_guid ← guid
  friendly_name ← ptp_string
  protocol_version ← u32
  pure (record {
    connection_number = connection_number;
    responder_guid = responder_guid;
    friendly_name = friendly_name;
    protocol_version = protocol_version;
  })

unfoldable pub decode_init_event_request : Decoder InitEventRequest
decode_init_event_request = do
  connection_number ← u32
  finish
  pure (record { connection_number = connection_number })

unfoldable pub decode_init_fail : Decoder InitFail
decode_init_fail = do reason ← u32; pure (record { reason = reason })

unfoldable pub decode_operation_request : Decoder OperationRequest
decode_operation_request = do
  data_phase_info ← u32
  code ← u16
  transaction_id ← u32
  params ← remaining_params
  pure (record {
    data_phase_info = data_phase_info;
    code = code;
    transaction_id = transaction_id;
    params = params;
  })

unfoldable pub decode_operation_response : Decoder OperationResponse
decode_operation_response = do
  code ← u16
  transaction_id ← u32
  params ← remaining_params
  pure (record { code = code; transaction_id = transaction_id; params = params })

unfoldable pub decode_event_packet : Decoder EventPacket
decode_event_packet = do
  code ← u16
  transaction_id ← u32
  params ← remaining_params
  pure (record { code = code; transaction_id = transaction_id; params = params })

unfoldable pub decode_start_data : Decoder StartData
decode_start_data = do
  transaction_id ← u32
  total_length ← u64
  pure (record { transaction_id = transaction_id; total_length = total_length })

unfoldable pub decode_data_block : Decoder DataBlock
decode_data_block = do
  transaction_id ← u32
  payload ← rest
  pure (record { transaction_id = transaction_id; payload = payload })

-- The `match ptype` of `PtpIpPacket::decode`. The three structs with no field call `finish` alone.
unfoldable pub decode_body : PacketType → Decoder PtpIpPacket
decode_body PacketType.init_command_request = do
  p ← decode_init_command_request
  pure (PtpIpPacket.init_command_request p)
decode_body PacketType.init_command_ack = do
  p ← decode_init_command_ack
  pure (PtpIpPacket.init_command_ack p)
decode_body PacketType.init_event_request = do
  p ← decode_init_event_request
  pure (PtpIpPacket.init_event_request p)
decode_body PacketType.init_event_ack = do finish; pure PtpIpPacket.init_event_ack
decode_body PacketType.init_fail = do p ← decode_init_fail; pure (PtpIpPacket.init_fail p)
decode_body PacketType.operation_request = do
  p ← decode_operation_request
  pure (PtpIpPacket.operation_request p)
decode_body PacketType.operation_response = do
  p ← decode_operation_response
  pure (PtpIpPacket.operation_response p)
decode_body PacketType.event = do p ← decode_event_packet; pure (PtpIpPacket.event p)
decode_body PacketType.start_data = do p ← decode_start_data; pure (PtpIpPacket.start_data p)
decode_body PacketType.data_block = do p ← decode_data_block; pure (PtpIpPacket.data_block p)
decode_body PacketType.end_data = do p ← decode_data_block; pure (PtpIpPacket.end_data p)
decode_body PacketType.probe_request = do finish; pure PtpIpPacket.probe_request
decode_body PacketType.probe_response = do finish; pure PtpIpPacket.probe_response
decode_body PacketType.cancel = fail (unknown_packet_type (tag PacketType.cancel))
