-- ===== src/Packet/Types.antt =====
-- crates/ptp-core/src/container.rs, framing.rs and codes.rs: the packets and their type tags.
use ptpsim.Prelude.{ℕ, ◌≡◌, List, All, length, Option, none, some, ◌==◌, if◌then◌else◌, arith}
use ptpsim.Wire.Bytes.{IsByte, IsU16, IsU32, IsU64}
use ptpsim.Wire.Utf16.{Text}
use ptpsim.Wire.Codes.Sequences.{IsPtpText}

pub record InitCommandRequest : Type 0 where
  pub initiator_guid : List ℕ
  pub friendly_name : Text
  pub protocol_version : ℕ

pub record InitCommandAck : Type 0 where
  pub connection_number : ℕ
  pub responder_guid : List ℕ
  pub friendly_name : Text
  pub protocol_version : ℕ

pub record InitEventRequest : Type 0 where
  pub connection_number : ℕ

pub record InitFail : Type 0 where
  pub reason : ℕ

pub record OperationRequest : Type 0 where
  pub data_phase_info : ℕ
  pub code : ℕ
  pub transaction_id : ℕ
  pub params : List ℕ

pub record OperationResponse : Type 0 where
  pub code : ℕ
  pub transaction_id : ℕ
  pub params : List ℕ

pub record EventPacket : Type 0 where
  pub code : ℕ
  pub transaction_id : ℕ
  pub params : List ℕ

pub record StartData : Type 0 where
  pub transaction_id : ℕ
  pub total_length : ℕ

pub record DataBlock : Type 0 where
  pub transaction_id : ℕ
  pub payload : List ℕ

-- `InitEventAck`, `ProbeRequest` and `ProbeResponse` are structs with no field.
pub data PtpIpPacket : Type 0 where
  init_command_request : InitCommandRequest → PtpIpPacket
  init_command_ack : InitCommandAck → PtpIpPacket
  init_event_request : InitEventRequest → PtpIpPacket
  init_event_ack : PtpIpPacket
  init_fail : InitFail → PtpIpPacket
  operation_request : OperationRequest → PtpIpPacket
  operation_response : OperationResponse → PtpIpPacket
  event : EventPacket → PtpIpPacket
  start_data : StartData → PtpIpPacket
  data_block : DataBlock → PtpIpPacket
  end_data : DataBlock → PtpIpPacket
  probe_request : PtpIpPacket
  probe_response : PtpIpPacket

pub data PacketType : Type 0 where
  init_command_request init_command_ack init_event_request init_event_ack init_fail : PacketType
  operation_request operation_response event start_data data_block cancel end_data : PacketType
  probe_request probe_response : PacketType

-- `#[repr(u32)]`: `self as u32`.
unfoldable pub tag : PacketType → ℕ
tag PacketType.init_command_request = 1
tag PacketType.init_command_ack = 2
tag PacketType.init_event_request = 3
tag PacketType.init_event_ack = 4
tag PacketType.init_fail = 5
tag PacketType.operation_request = 6
tag PacketType.operation_response = 7
tag PacketType.event = 8
tag PacketType.start_data = 9
tag PacketType.data_block = 10
tag PacketType.cancel = 11
tag PacketType.end_data = 12
tag PacketType.probe_request = 13
tag PacketType.probe_response = 14

unfoldable pub from_u32 : ℕ → Option PacketType
from_u32 v =
    if v == 1
    then some PacketType.init_command_request
    else if v == 2
    then some PacketType.init_command_ack
    else if v == 3
    then some PacketType.init_event_request
    else if v == 4
    then some PacketType.init_event_ack
    else if v == 5
    then some PacketType.init_fail
    else if v == 6
    then some PacketType.operation_request
    else if v == 7
    then some PacketType.operation_response
    else if v == 8
    then some PacketType.event
    else if v == 9
    then some PacketType.start_data
    else if v == 10
    then some PacketType.data_block
    else if v == 11
    then some PacketType.cancel
    else if v == 12
    then some PacketType.end_data
    else if v == 13
    then some PacketType.probe_request
    else if v == 14
    then some PacketType.probe_response
    else none

unfoldable pub packet_type : PtpIpPacket → PacketType
packet_type (PtpIpPacket.init_command_request p) = PacketType.init_command_request
packet_type (PtpIpPacket.init_command_ack p) = PacketType.init_command_ack
packet_type (PtpIpPacket.init_event_request p) = PacketType.init_event_request
packet_type PtpIpPacket.init_event_ack = PacketType.init_event_ack
packet_type (PtpIpPacket.init_fail p) = PacketType.init_fail
packet_type (PtpIpPacket.operation_request p) = PacketType.operation_request
packet_type (PtpIpPacket.operation_response p) = PacketType.operation_response
packet_type (PtpIpPacket.event p) = PacketType.event
packet_type (PtpIpPacket.start_data p) = PacketType.start_data
packet_type (PtpIpPacket.data_block p) = PacketType.data_block
packet_type (PtpIpPacket.end_data p) = PacketType.end_data
packet_type PtpIpPacket.probe_request = PacketType.probe_request
packet_type PtpIpPacket.probe_response = PacketType.probe_response

pub from_u32-tag : (t : PacketType) → from_u32 (tag t) ≡ some t
unfolding tag from_u32
from_u32-tag t = ground arith

-- What the Rust types of the fields say, and that a name fits a PTP string.
pub record IsGuid (g : List ℕ) : Type 0 where
  pub sixteen : length g ≡ 16
  pub bytes : All IsByte g

abbrev pub IsWire : PtpIpPacket → Type 0
IsWire (PtpIpPacket.init_command_request p) =
    IsGuid p.initiator_guid × IsPtpText p.friendly_name × IsU32 p.protocol_version
IsWire (PtpIpPacket.init_command_ack p) =
    IsU32 p.connection_number
    × IsGuid p.responder_guid
    × IsPtpText p.friendly_name
    × IsU32 p.protocol_version
IsWire (PtpIpPacket.init_event_request p) = IsU32 p.connection_number
IsWire PtpIpPacket.init_event_ack = Unit
IsWire (PtpIpPacket.init_fail p) = IsU32 p.reason
IsWire (PtpIpPacket.operation_request p) =
    IsU32 p.data_phase_info × IsU16 p.code × IsU32 p.transaction_id × All IsU32 p.params
IsWire (PtpIpPacket.operation_response p) =
    IsU16 p.code × IsU32 p.transaction_id × All IsU32 p.params
IsWire (PtpIpPacket.event p) = IsU16 p.code × IsU32 p.transaction_id × All IsU32 p.params
IsWire (PtpIpPacket.start_data p) = IsU32 p.transaction_id × IsU64 p.total_length
IsWire (PtpIpPacket.data_block p) = IsU32 p.transaction_id × All IsByte p.payload
IsWire (PtpIpPacket.end_data p) = IsU32 p.transaction_id × All IsByte p.payload
IsWire PtpIpPacket.probe_request = Unit
IsWire PtpIpPacket.probe_response = Unit
