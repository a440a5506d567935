-- ===== src/Protocol/Packet/Corruption.antt =====
-- src/protocol/packet.cpp: a datagram with one byte changed is refused.
use driveflow_runtime.Prelude.{
  ℕ, ◌-◌, ◌≤◌, ◌<◌, ◌≡◌, ◌≢◌, sym, ap, ap₂, ◌∙◌, List, arith, length, get_or, set, drop, take, none,
  some, length-drop, length-take, length-set, All-drop, All-take, get_or-take, get_or-drop,
  take-set, drop-set, drop-set_before, set-past, get_or-set_self, inl, inr, Option-cases,
}
use native.Mathlib.Decide.{dec_lt}
use driveflow_runtime.Protocol.Wire.{
  IsBytes, IsByte, read_big_endian, read-slice, be_list, be_bytes, be_bytes-read, set-IsBytes,
}
use driveflow_runtime.Protocol.Packet.Defs.{Packet, decode_packet, packet_crc}
use driveflow_runtime.Protocol.Packet.Crc.{packet_crc-set_header, packet_crc-set_payload}
use driveflow_runtime.Protocol.Packet.Codec.{decode_packet-checksum}

-- The checksum field holds the checksum of the other bytes.
abbrev Checks : List ℕ → Type 0
Checks bs = packet_crc (take 28 bs) (drop 32 bs) ≡ read_big_endian 4 bs 28

module _ (bs : List ℕ) (b : IsBytes bs) (room : 32 ≤ length bs) (i x : ℕ) (hi : i < length bs)
    (hx : x < 256) (good : Checks bs) (bad : Checks (set bs i x)) where
  bad-IsBytes : IsBytes (set bs i x)
  bad-IsBytes = set-IsBytes bs i x b hx

  bad_room : 32 ≤ length (set bs i x)
  bad_room = rw (length-set bs i x) room

  same_field :
      take 4 (drop 28 (set bs i x)) ≡ take 4 (drop 28 bs)
      → read_big_endian 4 (set bs i x) 28 ≡ read_big_endian 4 bs 28
  same_field e =
      read-slice 4 (set bs i x) 28 bad-IsBytes (omega (arith, bad_room))
      ∙ (ap (be_list 0) e ∙ sym (read-slice 4 bs 28 b (omega arith)))

  in_header : i < 28 → x ≡ get_or bs i 0
  in_header lt =
      packet_crc-set_header (take 28 bs) (drop 32 bs) i x (All-take IsByte 28 bs b)
        (rw (← take-set 28 i bs x) (All-take IsByte 28 _ bad-IsBytes)) (All-drop IsByte 32 bs b) hx
        (omega (arith, length-take 28 bs)) unchanged
      ∙ get_or-take 28 i bs 0 lt
    where
      unchanged :
          packet_crc (set (take 28 bs) i x) (drop 32 bs) ≡ packet_crc (take 28 bs) (drop 32 bs)
      unchanged =
          ap₂ packet_crc (sym (take-set 28 i bs x)) (sym (drop-set_before 32 i bs x (omega arith)))
          ∙ (bad ∙ (same_field (ap (take 4) (drop-set_before 28 i bs x lt)) ∙ sym good))

  untouched_header : 28 ≤ i → take 28 (set bs i x) ≡ take 28 bs
  untouched_header ge =
      take-set 28 i bs x ∙ set-past (take 28 bs) i x (omega (arith, length-take 28 bs))

  in_field : 28 ≤ i → i < 32 → x ≡ get_or bs i 0
  in_field ge lt =
      sym (
        get_or-set_self (take 4 (drop 28 bs)) (i - 28) x 0
          (omega (arith, length-take 4 (drop 28 bs), length-drop 28 bs)))
      ∙ (ap (λ (t : List ℕ). get_or t (i - 28) 0) same_slice
          ∙ (get_or-take 4 (i - 28) (drop 28 bs) 0 (omega arith) ∙ get_or-drop 28 i bs 0 ge))
    where
      same_read : read_big_endian 4 (set bs i x) 28 ≡ read_big_endian 4 bs 28
      same_read =
          sym bad ∙ (ap₂ packet_crc (untouched_header ge) (drop-set_before 32 i bs x lt) ∙ good)

      same_slice : set (take 4 (drop 28 bs)) (i - 28) x ≡ take 4 (drop 28 bs)
      same_slice =
          sym (take-set 4 (i - 28) (drop 28 bs) x)
          ∙ (ap (take 4) (sym (drop-set 28 i bs x ge))
              ∙ (sym (be_bytes-read 4 (set bs i x) 28 bad-IsBytes (omega (arith, bad_room)))
                  ∙ (ap (be_bytes 4) same_read ∙ be_bytes-read 4 bs 28 b (omega arith))))

  in_payload : 32 ≤ i → x ≡ get_or bs i 0
  in_payload ge =
      packet_crc-set_payload (take 28 bs) (drop 32 bs) (i - 32) x (All-take IsByte 28 bs b)
        (All-drop IsByte 32 bs b) hx (omega (arith, length-drop 32 bs)) unchanged
      ∙ get_or-drop 32 i bs 0 ge
    where
      field_kept : take 4 (drop 28 (set bs i x)) ≡ take 4 (drop 28 bs)
      field_kept =
          ap (take 4) (drop-set 28 i bs x (omega arith))
          ∙ (take-set 4 (i - 28) (drop 28 bs) x
              ∙ set-past (take 4 (drop 28 bs)) (i - 28) x
                  (omega (arith, length-take 4 (drop 28 bs))))

      unchanged :
          packet_crc (take 28 bs) (set (drop 32 bs) (i - 32) x)
          ≡ packet_crc (take 28 bs) (drop 32 bs)
      unchanged =
          ap₂ packet_crc (sym (untouched_header (omega arith))) (sym (drop-set 32 i bs x ge))
          ∙ (bad ∙ (same_field field_kept ∙ sym good))

  Checks_both : x ≡ get_or bs i 0
  Checks_both = elim (dec_lt i 28) [
    | yes before ↦ in_header before
    | no after ↦ elim (dec_lt i 32) [
      | yes within ↦ in_field (omega arith) within
      | no behind ↦ in_payload (omega arith)
    ]
  ]

-- Replacing any one byte of a datagram of bytes that the decoder accepts, in its header, its checksum or its
-- payload, by another byte makes the decoder refuse it.
pub decode_packet-corrupted :
    (bs : List ℕ) {q : Packet} (i x : ℕ)
    → IsBytes bs
    → (decode_packet bs).packet ≡ some q
    → i < length bs
    → x < 256
    → x ≢ get_or bs i 0
    → (decode_packet (set bs i x)).packet ≡ none
decode_packet-corrupted bs i x b e hi hx differs =
    elim (Option-cases (decode_packet (set bs i x)).packet) [
      | inl refused ↦ refused
      | inr (r, e') ↦ absurd (
          differs (
            Checks_both bs b (decode_packet-checksum bs e).0 i x hi hx
              (decode_packet-checksum bs e).1 (decode_packet-checksum (set bs i x) e').1))
    ]
