-- ===== src/Protocol/Packet/RoundTrip.antt =====
-- src/protocol/packet.cpp: what the decoder reads is what the encoder wrote, and the other way.
use mathlib.Core.List.{append_assoc}
use driveflow_runtime.Prelude.{
  ℕ, ◌+◌, ◌*◌, ◌^◌, ◌≤◌, ◌<◌, ◌≡◌, refl, ap, ◌∙◌, List, ◌++◌, arith, length, drop, take, All-append,
}
use driveflow_runtime.Protocol.Wire.{
  be_bytes, be_bytes-IsBytes, read-field, read-behind, read_big_endian, IsBytes, IsByte,
}
use driveflow_runtime.Protocol.Packet.Defs.{PacketHeader, to_raw, from_raw, read_header}
use driveflow_runtime.Protocol.Packet.Layout.{header_bytes, layout}

-- The fields fit their widths, and the type is an enumerator.
pub record IsHeader (h : PacketHeader) : Type 0 where
  pub magic : h.magic < 2 ^ 32
  pub version : h.version < 2 ^ 16
  pub known : from_raw (to_raw h.message_type) ≡ h.message_type
  pub raw : to_raw h.message_type < 2 ^ 16
  pub sequence_number : h.sequence_number < 2 ^ 64
  pub source_timestamp_ns : h.source_timestamp_ns < 2 ^ 64
  pub payload_length : h.payload_length < 2 ^ 32
  pub crc32 : h.crc32 < 2 ^ 32

layout-IsBytes :
    (h : PacketHeader) (payload : List ℕ) → IsBytes payload → IsBytes (layout h payload)
layout-IsBytes h payload b =
    All-append IsByte (header_bytes h) (be_bytes 4 h.crc32 ++ payload) (omega arith)
      (All-append IsByte (be_bytes 4 h.crc32) payload (be_bytes-IsBytes 4 h.crc32) b)

module _ (h : PacketHeader) (payload : List ℕ) (fits : IsHeader h) (b : IsBytes payload) where
  field :
      (k v pos : ℕ)
      → pos + k ≤ 32
      → v < 2 ^ (k * 8)
      → take k (drop pos (layout h payload)) ≡ be_bytes k v
      → read_big_endian k (layout h payload) pos ≡ v
  field k v pos room lt e =
      read-field (layout h payload) (layout-IsBytes h payload b) k v pos (omega arith) lt e

  pub read_header-layout : read_header (layout h payload) ≡ h
  unfolding read_header
  read_header-layout = λ i. record {
    magic = field 4 h.magic 0 (omega arith) fits.magic refl i;
    version = field 2 h.version 4 (omega arith) fits.version refl i;
    message_type =
        (ap from_raw (field 2 (to_raw h.message_type) 6 (omega arith) fits.raw refl) ∙ fits.known)
          i;
    sequence_number = field 8 h.sequence_number 8 (omega arith) fits.sequence_number refl i;
    source_timestamp_ns =
        field 8 h.source_timestamp_ns 16 (omega arith) fits.source_timestamp_ns refl i;
    payload_length = field 4 h.payload_length 24 (omega arith) fits.payload_length refl i;
    crc32 = field 4 h.crc32 28 (omega arith) fits.crc32 refl i;
  }

to_raw-from_raw : (n : ℕ) → to_raw (from_raw n) ≡ n
to_raw-from_raw n = ground arith

glue :
    (a b c d e f g rest : List ℕ)
    → (a ++ (b ++ (c ++ (d ++ (e ++ f))))) ++ (g ++ rest)
      ≡ a ++ (b ++ (c ++ (d ++ (e ++ (f ++ (g ++ rest))))))
glue a b c d e f g rest = simp append_assoc

module _ (bs : List ℕ) (b : IsBytes bs) (room : 32 ≤ length bs) where
  -- The bytes of the field at `pos`, before those of the fields behind it.
  behind :
      (pos k : ℕ) (rest : List ℕ)
      → pos + k ≤ 32
      → rest ≡ drop (pos + k) bs
      → be_bytes k (read_big_endian k bs pos) ++ rest ≡ drop pos bs
  behind pos k rest h e = read-behind bs b pos k rest (omega arith) e

  -- The header read and the bytes behind it make up the datagram.
  pub layout-read_header : layout (read_header bs) (drop 32 bs) ≡ bs
  unfolding read_header
  layout-read_header = rw (to_raw-from_raw (read_big_endian 2 bs 6)) (
      glue (be_bytes 4 (read_big_endian 4 bs 0)) (be_bytes 2 (read_big_endian 2 bs 4))
        (be_bytes 2 (read_big_endian 2 bs 6)) (be_bytes 8 (read_big_endian 8 bs 8))
        (be_bytes 8 (read_big_endian 8 bs 16)) (be_bytes 4 (read_big_endian 4 bs 24))
        (be_bytes 4 (read_big_endian 4 bs 28)) (drop 32 bs)
      ∙ fields)
    where
      fields :
          be_bytes 4 (read_big_endian 4 bs 0)
            ++ (be_bytes 2 (read_big_endian 2 bs 4)
                ++ (be_bytes 2 (read_big_endian 2 bs 6)
                    ++ (be_bytes 8 (read_big_endian 8 bs 8)
                        ++ (be_bytes 8 (read_big_endian 8 bs 16)
                            ++ (be_bytes 4 (read_big_endian 4 bs 24)
                                ++ (be_bytes 4 (read_big_endian 4 bs 28) ++ drop 32 bs))))))
          ≡ bs
      fields = behind 0 4 _ (omega arith) (
          behind 4 2 _ (omega arith) (
            behind 6 2 _ (omega arith) (
              behind 8 8 _ (omega arith) (
                behind 16 8 _ (omega arith)
                  (behind 24 4 _ (omega arith) (behind 28 4 _ (omega arith) refl))))))
