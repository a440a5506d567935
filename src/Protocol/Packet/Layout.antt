-- ===== src/Protocol/Packet/Layout.antt =====
-- docs/protocol.md: the bytes of a packet, field by field, and that `encode_packet` writes them.
use driveflow_runtime.Prelude.{
  ℕ, ◌^◌, ◌<◌, ◌≡◌, refl, List, [], ◌∷◌, ◌++◌, length, replicate_add, drop_add, drop-replicate,
}
use native.Mathlib.Nat.{mod-eq_of_lt}
use mathlib.Core.List.{append-nil}
use driveflow_runtime.Protocol.Wire.{be_bytes, write_big_endian}
use driveflow_runtime.Protocol.Packet.Defs.{
  PacketHeader, MessageType, to_raw, packet_crc, encode_fields, crc32, update_crc, crc_bits,
  crc_bit, packet_magic, protocol_version,
}

-- The table of docs/protocol.md.
abbrev pub header_bytes : PacketHeader → List ℕ
header_bytes h =
    be_bytes 4 h.magic
    ++ (be_bytes 2 h.version
        ++ (be_bytes 2 (to_raw h.message_type)
            ++ (be_bytes 8 h.sequence_number
                ++ (be_bytes 8 h.source_timestamp_ns ++ be_bytes 4 h.payload_length))))

abbrev pub layout : PacketHeader → List ℕ → List ℕ
layout h payload = header_bytes h ++ (be_bytes 4 h.crc32 ++ payload)

abbrev pub sealed_header : MessageType → ℕ → ℕ → List ℕ → PacketHeader
sealed_header t s ts payload = record h { crc32 = packet_crc (header_bytes h) payload }
  where
    h : PacketHeader
    h = record {
      magic = packet_magic;
      version = protocol_version;
      message_type = t;
      sequence_number = s;
      source_timestamp_ns = ts;
      payload_length = length payload;
      crc32 = 0;
    }

crc_check : crc32 (0x31 ∷ 0x32 ∷ 0x33 ∷ 0x34 ∷ 0x35 ∷ 0x36 ∷ 0x37 ∷ 0x38 ∷ 0x39 ∷ []) ≡ 0xcbf43926
unfolding crc32 update_crc crc_bits crc_bit
crc_check = refl

-- The encoder's writes produce the table.
pub encode_fields-layout :
    (t : MessageType) (s ts : ℕ) (payload : List ℕ)
    → length payload < 2 ^ 32
    → encode_fields (to_raw t) s ts payload ≡ layout (sealed_header t s ts payload) payload
unfolding encode_fields write_big_endian
encode_fields-layout t s ts payload h =
    rw (replicate_add {A = ℕ} 32 (length payload) 0, drop_add 32 (length payload))
      (rw (drop-replicate {A = ℕ} (length payload) 0, append-nil payload, mod-eq_of_lt h) refl)
