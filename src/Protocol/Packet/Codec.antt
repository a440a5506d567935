-- ===== src/Protocol/Packet/Codec.antt =====
-- src/protocol/packet.cpp: the encoder and the decoder against the table of docs/protocol.md and
-- against each other.
use driveflow_runtime.Prelude.{
  ℕ, ◌+◌, ◌^◌, ◌≤◌, ◌<◌, ◌≡◌, refl, sym, ap, subst, ◌∙◌, List, arith, length, drop, take, some,
  true, length-drop, All-drop,
}
use driveflow_runtime.Prelude.Result.{ok}
use driveflow_runtime.Protocol.Wire.{IsBytes, IsByte, read-lt, read_big_endian}
use driveflow_runtime.Protocol.Packet.Defs.{
  PacketHeader, Packet, DecodeResult, MessageType, imu, gnss, camera_meta, other, to_raw, from_raw,
  packet_crc, decode_packet, check_packet, read_header, encode_packet, packet_magic,
  protocol_version, is_known_message_type, no_error, max_payload_size, is_enumerator, failure,
}
use driveflow_runtime.Protocol.Packet.Crc.{packet_crc-lt}
use driveflow_runtime.Protocol.Packet.Layout.{
  header_bytes, layout, sealed_header, encode_fields-layout,
}
use driveflow_runtime.Protocol.Packet.RoundTrip.{IsHeader, read_header-layout, layout-read_header}

-- An enumerator is what its number is cast back to, and passes the decoder's test.
record IsEnumerator (t : MessageType) : Type 0 where
  known : is_known_message_type (to_raw t) ≡ true
  back : from_raw (to_raw t) ≡ t
  small : to_raw t < 2 ^ 16

enumerator : (t : MessageType) → is_enumerator t ≡ true → IsEnumerator t
unfolding is_enumerator is_known_message_type
enumerator imu e = record { known = refl; back = refl; small = omega arith }
enumerator gnss e = record { known = refl; back = refl; small = omega arith }
enumerator camera_meta e = record { known = refl; back = refl; small = omega arith }
enumerator (other n) e = absurd (cc)

pub header_bytes-IsBytes : (h : PacketHeader) → IsBytes (header_bytes h)
header_bytes-IsBytes h = omega arith

-- The conditions under which `check_packet` lets a datagram through.
record Accepts (h : PacketHeader) (bs : List ℕ) : Type 0 where
  magic : h.magic ≡ packet_magic
  version : h.version ≡ protocol_version
  known : is_known_message_type (to_raw h.message_type) ≡ true
  bounded : h.payload_length ≤ max_payload_size
  complete : length bs ≡ 32 + h.payload_length
  checksum : packet_crc (take 28 bs) (drop 32 bs) ≡ h.crc32

abbrev accepted : PacketHeader → List ℕ → DecodeResult
accepted h payload = record {
  packet = some (record { header = h; payload = payload });
  error = no_error;
}

check_packet-Accepts' :
    (h : PacketHeader) (bs : List ℕ) → Accepts h bs → check_packet h bs ≡ accepted h (drop 32 bs)
unfolding check_packet
check_packet-Accepts' h bs a =
    ground (arith, a.magic, a.version, a.known, a.bounded, a.complete, a.checksum)

check_packet-Accepts :
    (h : PacketHeader) (bs : List ℕ) (q : Packet)
    → (check_packet h bs).packet ≡ some q
    → Accepts h bs
      × (q ≡ record { header = h; payload = drop 32 bs })
      × (check_packet h bs ≡ accepted h (drop 32 bs))
unfolding check_packet
check_packet-Accepts h bs q e = ground arith

decode_packet-long :
    (bs : List ℕ) → 32 ≤ length bs → decode_packet bs ≡ check_packet (read_header bs) bs
unfolding decode_packet
decode_packet-long bs h = ground arith

ok-injective : {a b : List ℕ} → ok a ≡ ok b → a ≡ b
ok-injective e = cc

-- What a caller must pass for the encoder to accept it.
pub record IsPacket (t : MessageType) (s ts : ℕ) (payload : List ℕ) : Type 0 where
  pub enumerator_named : is_enumerator t ≡ true
  pub sequence : s < 2 ^ 64
  pub timestamp : ts < 2 ^ 64
  pub bytes : IsBytes payload
  pub fits : length payload ≤ max_payload_size

module _ (t : MessageType) (s ts : ℕ) (payload : List ℕ) (p : IsPacket t s ts payload) where
  sealed-IsHeader : IsHeader (sealed_header t s ts payload)
  sealed-IsHeader = record {
    magic = omega arith;
    version = omega arith;
    known = (enumerator t p.enumerator_named).back;
    raw = (enumerator t p.enumerator_named).small;
    sequence_number = p.sequence;
    source_timestamp_ns = p.timestamp;
    payload_length = omega (arith, p.fits);
    crc32 = packet_crc-lt _ payload (omega arith) p.bytes;
  }

  -- For a type that is an enumerator, 64-bit numbers and a payload of bytes within the limit, the
  -- encoder does not throw, and writes the documented layout with the checksum of its fields.
  pub encode_packet-layout :
      encode_packet t s ts payload ≡ ok (layout (sealed_header t s ts payload) payload)
  unfolding encode_packet
  encode_packet-layout =
      rw
        (
          (enumerator t p.enumerator_named).known,
          encode_fields-layout t s ts payload (omega (arith, p.fits)),
        )
        (ground (arith, p.fits))

  -- For a type that is an enumerator, 64-bit numbers and a payload of bytes within the limit: what
  -- the encoder returns is decoded to the packet with these fields, and without an error.
  pub decode-encode_packet :
      (bs : List ℕ)
      → encode_packet t s ts payload ≡ ok bs
      → decode_packet bs ≡ record {
        packet = some (record { header = sealed_header t s ts payload; payload = payload });
        error = no_error;
      }
  decode-encode_packet bs e = rw (← ok-injective (sym encode_packet-layout ∙ e)) decoded
    where
      sealed : PacketHeader
      sealed = sealed_header t s ts payload

      decoded : decode_packet (layout sealed payload) ≡ accepted sealed payload
      decoded =
          decode_packet-long (layout sealed payload) (omega arith)
          ∙ (rw (read_header-layout sealed payload sealed-IsHeader p.bytes) (
              check_packet-Accepts' sealed (layout sealed payload) (record {
                magic = refl;
                version = refl;
                known = (enumerator t p.enumerator_named).known;
                bounded = p.fits;
                complete = omega arith;
                checksum = refl;
              })))

module _ (bs : List ℕ) {q : Packet} (e : (decode_packet bs).packet ≡ some q) where
  long : 32 ≤ length bs
  unfolding decode_packet failure
  long = ground arith

  passed : (check_packet (read_header bs) bs).packet ≡ some q
  passed = ap (λ (r : DecodeResult). r.packet) (sym (decode_packet-long bs long)) ∙ e

-- The checksum of an accepted datagram is that of its bytes.
pub decode_packet-checksum :
    (bs : List ℕ) {q : Packet}
    → (decode_packet bs).packet ≡ some q
    → (32 ≤ length bs) × (packet_crc (take 28 bs) (drop 32 bs) ≡ read_big_endian 4 bs 28)
unfolding read_header
decode_packet-checksum bs {q} e =
    (long bs e, (check_packet-Accepts (read_header bs) bs q (passed bs e)).0.checksum)

-- The header that the encoder writes for the fields of `q`.
abbrev pub resealed : Packet → PacketHeader
resealed q =
    sealed_header q.header.message_type q.header.sequence_number q.header.source_timestamp_ns
      q.payload

abbrev pub IsSound : List ℕ → Packet → Type 0
IsSound bs q =
    (bs ≡ layout q.header q.payload)
    × (is_known_message_type (to_raw q.header.message_type) ≡ true)
    × (length q.payload ≤ max_payload_size)

Accepts-sealed :
    (bs : List ℕ)
    → IsBytes bs
    → 32 ≤ length bs
    → Accepts (read_header bs) bs
    → read_header bs ≡ resealed (record { header = read_header bs; payload = drop 32 bs })
Accepts-sealed bs b room a = λ i. record {
  magic = a.magic i;
  version = a.version i;
  message_type = h.message_type;
  sequence_number = h.sequence_number;
  source_timestamp_ns = h.source_timestamp_ns;
  payload_length = counted i;
  crc32 =
      (sym a.checksum ∙ ap (λ (t : List ℕ). packet_crc t (drop 32 bs)) (covered ∙ same_fields)) i;
}
  where
    h : PacketHeader
    h = read_header bs

    counted : h.payload_length ≡ length (drop 32 bs)
    counted = omega (arith, a.complete, length-drop 32 bs)

    -- The checksum covers the first fields.
    covered : take 28 bs ≡ header_bytes h
    covered = ap (take 28) (sym (layout-read_header bs b room))

    same_fields :
        header_bytes h ≡ header_bytes (resealed (record { header = h; payload = drop 32 bs }))
    same_fields = λ i.
        header_bytes
          (record h { magic = a.magic i; version = a.version i; payload_length = counted i })

-- The parts of a packet decoded from bytes fit their widths.
pub record IsRanged (q : Packet) : Type 0 where
  pub sequence : q.header.sequence_number < 2 ^ 64
  pub timestamp : q.header.source_timestamp_ns < 2 ^ 64
  pub bytes : IsBytes q.payload

module _ (bs : List ℕ) (b : IsBytes bs) {q : Packet} (e : (decode_packet bs).packet ≡ some q) where
  pub decode_packet-IsRanged : IsRanged q
  unfolding read_header
  decode_packet-IsRanged =
      let (a, same, result) = check_packet-Accepts (read_header bs) bs q (passed bs e) in
      subst IsRanged (sym same) (record {
        sequence = read-lt 8 bs 8 b (omega (arith, long bs e));
        timestamp = read-lt 8 bs 16 b (omega (arith, long bs e));
        bytes = All-drop IsByte 32 bs b;
      })

  -- A datagram of bytes that the decoder accepts is the table of the packet that it returns, whose header is
  -- of this version and of a known type, states the payload's length within the limit and holds its
  -- checksum; and the result reports no error.
  pub decode_packet-IsSound :
      IsSound bs q × (q.header ≡ resealed q) × ((decode_packet bs).error ≡ no_error)
  decode_packet-IsSound =
      let (a, same, result) = check_packet-Accepts (read_header bs) bs q (passed bs e) in
      (
        subst (IsSound bs) (sym same) (
          sym (layout-read_header bs b (long bs e)),
          a.known,
          omega (arith, a.bounded, a.complete, length-drop 32 bs),
        ),
        subst (λ r. r.header ≡ resealed r) (sym same) (Accepts-sealed bs b (long bs e) a),
        ap (λ (r : DecodeResult). r.error) (decode_packet-long bs (long bs e) ∙ result),
      )
