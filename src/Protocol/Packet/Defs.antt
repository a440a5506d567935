-- ===== src/Protocol/Packet/Defs.antt =====
-- src/protocol/packet.cpp: constants, types and functions.
use Prim.Native.String.{String}
use driveflow_runtime.Prelude.{
  ℕ, zero, suc, ◌+◌, ◌-◌, ◌/◌, ◌%◌, ◌^◌, bit_and, bit_xor, Bool, true, false, not, Option, none,
  some, List, [], ◌∷◌, ◌++◌, ltb, ◌==◌, if◌then◌else◌, length, take, drop, replicate,
}
use driveflow_runtime.Prelude.Result.{Result, ok, throws, invalid_argument, length_error}
use driveflow_runtime.Protocol.Wire.{write_big_endian, read_big_endian}

abbrev pub packet_magic : ℕ
packet_magic = 0x4452464c

abbrev pub protocol_version : ℕ
protocol_version = 1

abbrev pub packet_header_size : ℕ
packet_header_size = 32

abbrev pub max_payload_size : ℕ
max_payload_size = 65475

abbrev pub crc_initial_state : ℕ
crc_initial_state = 0xffffffff

abbrev pub crc_polynomial : ℕ
crc_polynomial = 0xedb88320

-- An `enum class` over uint16_t: `other` is a value that no enumerator names.
pub data MessageType : Type 0 where
  imu gnss camera_meta : MessageType
  other : ℕ → MessageType

-- static_cast<std::uint16_t>(message_type)
abbrev pub to_raw : MessageType → ℕ
to_raw imu = 1
to_raw gnss = 2
to_raw camera_meta = 3
to_raw (other n) = n

-- static_cast<MessageType>(raw_type)
abbrev pub from_raw : ℕ → MessageType
from_raw n =
    if n == 1 then imu else if n == 2 then gnss else if n == 3 then camera_meta else other n

pub record PacketHeader : Type 0 where
  pub magic : ℕ
  pub version : ℕ
  pub message_type : MessageType
  pub sequence_number : ℕ
  pub source_timestamp_ns : ℕ
  pub payload_length : ℕ
  pub crc32 : ℕ

pub record Packet : Type 0 where
  pub header : PacketHeader
  pub payload : List ℕ

pub data DecodeError : Type 0 where
  no_error truncated_header invalid_magic unsupported_version unknown_message_type : DecodeError
  payload_too_large truncated_payload length_mismatch crc_mismatch : DecodeError

abbrev pub to_string : DecodeError → String
to_string no_error = "none"
to_string truncated_header = "truncated header"
to_string invalid_magic = "invalid magic"
to_string unsupported_version = "unsupported version"
to_string unknown_message_type = "unknown message type"
to_string payload_too_large = "payload too large"
to_string truncated_payload = "truncated payload"
to_string length_mismatch = "packet length mismatch"
to_string crc_mismatch = "CRC mismatch"

pub record DecodeResult : Type 0 where
  pub packet : Option Packet
  pub error : DecodeError

-- The `switch` of `is_known_message_type`.
unfoldable pub is_enumerator : MessageType → Bool
is_enumerator (other n) = false
is_enumerator imu = true
is_enumerator gnss = true
is_enumerator camera_meta = true

unfoldable pub is_known_message_type : ℕ → Bool
unfolding is_enumerator
is_known_message_type raw_type = is_enumerator (from_raw raw_type)

-- One round of the inner loop of `update_crc`: `0U - (state & 1U)` wraps to all ones or to none.
unfoldable pub crc_bit : ℕ → ℕ
crc_bit state =
    let mask = (2 ^ 32 - bit_and state 1) % 2 ^ 32 in
    bit_xor (state / 2) (bit_and crc_polynomial mask)

unfoldable pub crc_bits : ℕ → ℕ → ℕ
crc_bits zero state = state
crc_bits (suc left) state = crc_bits left (crc_bit state)

unfoldable pub update_crc : ℕ → List ℕ → ℕ
update_crc state [] = state
update_crc state (byte ∷ bytes) = update_crc (crc_bits 8 (bit_xor state byte)) bytes

unfoldable pub packet_crc : List ℕ → List ℕ → ℕ
packet_crc header_without_crc payload =
    let state = update_crc crc_initial_state header_without_crc in
    bit_xor (update_crc state payload) crc_initial_state

unfoldable pub crc32 : List ℕ → ℕ
crc32 bytes = bit_xor (update_crc crc_initial_state bytes) crc_initial_state

unfoldable pub failure : DecodeError → DecodeResult
failure error = record { packet = none; error = error }

-- std::copy of `input` to `output.begin() + offset`
abbrev pub copy_into : List ℕ → ℕ → List ℕ → List ℕ
copy_into output offset input = take offset output ++ (input ++ drop (offset + length input) output)

-- The writes of `encode_packet`, in its order, after the two guards.
unfoldable pub encode_fields : ℕ → ℕ → ℕ → List ℕ → List ℕ
encode_fields raw_type sequence_number source_timestamp_ns payload =
    let encoded = replicate (packet_header_size + length payload) 0 in
    let encoded = write_big_endian 4 encoded 0 packet_magic in
    let encoded = write_big_endian 2 encoded 4 protocol_version in
    let encoded = write_big_endian 2 encoded 6 raw_type in
    let encoded = write_big_endian 8 encoded 8 sequence_number in
    let encoded = write_big_endian 8 encoded 16 source_timestamp_ns in
    let encoded = write_big_endian 4 encoded 24 (length payload % 2 ^ 32) in
    let encoded = copy_into encoded packet_header_size payload in
    write_big_endian 4 encoded 28 (packet_crc (take 28 encoded) (drop packet_header_size encoded))

unfoldable pub encode_packet : MessageType → ℕ → ℕ → List ℕ → Result (List ℕ)
encode_packet message_type sequence_number source_timestamp_ns payload =
    let raw_type = to_raw message_type in
    if not (is_known_message_type raw_type)
    then throws (invalid_argument "unknown DriveFlow message type")
    else if ltb max_payload_size (length payload)
    then throws (length_error "DriveFlow payload exceeds the v1 limit")
    else ok (encode_fields raw_type sequence_number source_timestamp_ns payload)

-- The reads of `decode_packet`.
unfoldable pub read_header : List ℕ → PacketHeader
read_header bytes = record {
  magic = read_big_endian 4 bytes 0;
  version = read_big_endian 2 bytes 4;
  message_type = from_raw (read_big_endian 2 bytes 6);
  sequence_number = read_big_endian 8 bytes 8;
  source_timestamp_ns = read_big_endian 8 bytes 16;
  payload_length = read_big_endian 4 bytes 24;
  crc32 = read_big_endian 4 bytes 28;
}

-- The checks of `decode_packet` on the header read, in its order.
unfoldable pub check_packet : PacketHeader → List ℕ → DecodeResult
unfolding failure
check_packet header bytes =
    let expected_size = packet_header_size + header.payload_length in
    if not (header.magic == packet_magic)
    then failure invalid_magic
    else if not (header.version == protocol_version)
    then failure unsupported_version
    else if not (is_known_message_type (to_raw header.message_type))
    then failure unknown_message_type
    else if ltb max_payload_size header.payload_length
    then failure payload_too_large
    else if ltb (length bytes) expected_size
    then failure truncated_payload
    else if not (length bytes == expected_size)
    then failure length_mismatch
    else if not (packet_crc (take 28 bytes) (drop packet_header_size bytes) == header.crc32)
    then failure crc_mismatch
    else record {
      packet = some (record { header = header; payload = drop packet_header_size bytes });
      error = no_error;
    }

unfoldable pub decode_packet : List ℕ → DecodeResult
unfolding failure
decode_packet bytes =
    if ltb (length bytes) packet_header_size
    then failure truncated_header
    else check_packet (read_header bytes) bytes
