-- ===== src/Protocol/Packet/Crc.antt =====
-- The checksum of src/protocol/packet.cpp: each round of its register can be undone, so that a
-- change of one byte always changes the checksum.
use driveflow_runtime.Prelude.{
  ℕ, zero, suc, ◌/◌, ◌%◌, ◌^◌, ◌<◌, ◌≡◌, refl, sym, ap, ◌∙◌, List, [], ◌∷◌, ◌⊎◌, inl, inr, bit_and,
  bit_xor, arith, length, get_or, set,
}
use driveflow_runtime.Prelude.Bits.{
  testbit, bit_and-pow, bit_xor-zero, bit_xor-lt, le-bit_xor, bit_xor_cancel, bit_xor_comm,
}
use driveflow_runtime.Protocol.Wire.{IsBytes}
use driveflow_runtime.Protocol.Packet.Defs.{
  crc_initial_state, crc_polynomial, crc_bit, crc_bits, update_crc, packet_crc,
}

even_or_odd : (n : ℕ) → (n % 2 ≡ 0) ⊎ (n % 2 ≡ 1)
even_or_odd n = omega arith

lowest : (s : ℕ) → bit_and s 1 ≡ s % 2
unfolding testbit
lowest s = bit_and-pow s 0 ∙ omega arith

crc_bit-even : (s : ℕ) → s % 2 ≡ 0 → crc_bit s ≡ s / 2
unfolding crc_bit
crc_bit-even s e = rw (lowest s, e) (bit_xor-zero (s / 2))

crc_bit-odd : (s : ℕ) → s % 2 ≡ 1 → crc_bit s ≡ bit_xor (s / 2) crc_polynomial
unfolding crc_bit
crc_bit-odd s e = rw (lowest s, e) refl

crc_bit-lt : (s : ℕ) → s < 2 ^ 32 → crc_bit s < 2 ^ 32
crc_bit-lt s h = elim (even_or_odd s) [
  | inl e ↦ rw (crc_bit-even s e) (omega arith)
  | inr e ↦ rw (crc_bit-odd s e) (bit_xor-lt 32 (s / 2) crc_polynomial (omega arith) (omega arith))
]

xor_cancel_right : (a b c : ℕ) → bit_xor a c ≡ bit_xor b c → a ≡ b
xor_cancel_right a b c e =
    sym (bit_xor_cancel c a) ∙ (ap (λ (t : ℕ). bit_xor t c) e ∙ bit_xor_cancel c b)

xor_cancel_left : (a b c : ℕ) → bit_xor c a ≡ bit_xor c b → a ≡ b
xor_cancel_left a b c e = xor_cancel_right a b c (bit_xor_comm a c ∙ (e ∙ bit_xor_comm c b))

-- The highest bit of the new state tells the bit that was shifted out.
crc_bit-parity : (s : ℕ) → s < 2 ^ 32 → s % 2 ≡ crc_bit s / 2 ^ 31
crc_bit-parity s h = elim (even_or_odd s) [
  | inl e ↦ rw (crc_bit-even s e) (omega arith)
  | inr e ↦ rw (crc_bit-odd s e) (
      omega (
        arith,
        le-bit_xor 31 (s / 2) crc_polynomial (omega arith) (omega arith),
        bit_xor-lt 32 (s / 2) crc_polynomial (omega arith) (omega arith),
      ))
]

crc_bit-injective : (s t : ℕ) → s < 2 ^ 32 → t < 2 ^ 32 → crc_bit s ≡ crc_bit t → s ≡ t
crc_bit-injective s t hs ht e = elim (even_or_odd s) [
  | inl even ↦ omega (arith, same, crc_bit-even s even, crc_bit-even t (sym same ∙ even))
  | inr odd ↦ omega (
    arith,
    same,
    xor_cancel_right (s / 2) (t / 2) crc_polynomial
        (sym (crc_bit-odd s odd) ∙ (e ∙ crc_bit-odd t (sym same ∙ odd))),
  )
]
  where
    same : s % 2 ≡ t % 2
    same = crc_bit-parity s hs ∙ (ap (λ (t : ℕ). t / 2 ^ 31) e ∙ sym (crc_bit-parity t ht))

crc_bits-lt : (n s : ℕ) → s < 2 ^ 32 → crc_bits n s < 2 ^ 32
unfolding crc_bits
crc_bits-lt zero s h = h
crc_bits-lt (suc n) s h = crc_bits-lt n (crc_bit s) (crc_bit-lt s h)

crc_bits-injective : (n s t : ℕ) → s < 2 ^ 32 → t < 2 ^ 32 → crc_bits n s ≡ crc_bits n t → s ≡ t
unfolding crc_bits
crc_bits-injective zero s t hs ht e = e
crc_bits-injective (suc n) s t hs ht e =
    crc_bit-injective s t hs ht
      (crc_bits-injective n (crc_bit s) (crc_bit t) (crc_bit-lt s hs) (crc_bit-lt t ht) e)

byte-lt : (b : ℕ) → b < 256 → b < 2 ^ 32
byte-lt b h = omega arith

masked-lt : (s b : ℕ) → s < 2 ^ 32 → b < 256 → bit_xor s b < 2 ^ 32
masked-lt s b hs hb = bit_xor-lt 32 s b hs (byte-lt b hb)

-- One round of the outer loop.
abbrev absorb : ℕ → ℕ → ℕ
absorb s b = crc_bits 8 (bit_xor s b)

absorb-lt : (s b : ℕ) → s < 2 ^ 32 → b < 256 → absorb s b < 2 ^ 32
absorb-lt s b hs hb = crc_bits-lt 8 (bit_xor s b) (masked-lt s b hs hb)

absorb-injective :
    (s t a b : ℕ)
    → s < 2 ^ 32
    → t < 2 ^ 32
    → a < 256
    → b < 256
    → absorb s a ≡ absorb t b
    → bit_xor s a ≡ bit_xor t b
absorb-injective s t a b hs ht ha hb =
    crc_bits-injective 8 (bit_xor s a) (bit_xor t b) (masked-lt s a hs ha) (masked-lt t b ht hb)

pub update_crc-lt : (s : ℕ) (bs : List ℕ) → s < 2 ^ 32 → IsBytes bs → update_crc s bs < 2 ^ 32
unfolding update_crc
update_crc-lt s [] hs b = hs
update_crc-lt s (x ∷ bs) hs b = update_crc-lt (absorb s x) bs (absorb-lt s x hs b.0) b.1

pub update_crc-injective :
    (s t : ℕ) (bs : List ℕ)
    → s < 2 ^ 32
    → t < 2 ^ 32
    → IsBytes bs
    → update_crc s bs ≡ update_crc t bs
    → s ≡ t
unfolding update_crc
update_crc-injective s t [] hs ht b e = e
update_crc-injective s t (x ∷ bs) hs ht b e = xor_cancel_right s t x (
    absorb-injective s t x x hs ht b.0 b.0 (
      update_crc-injective (absorb s x) (absorb t x) bs (absorb-lt s x hs b.0)
        (absorb-lt t x ht b.0) b.1 e))

-- A byte replaced by another changes the state that the bytes lead to.
pub update_crc-set :
    (s : ℕ) (bs : List ℕ) (i x : ℕ)
    → s < 2 ^ 32
    → IsBytes bs
    → x < 256
    → i < length bs
    → update_crc s (set bs i x) ≡ update_crc s bs
    → x ≡ get_or bs i 0
unfolding update_crc
update_crc-set s [] i x hs b hx hi e = absurd (omega arith)
update_crc-set s (y ∷ bs) zero x hs b hx hi e = xor_cancel_left x y s (
    absorb-injective s s x y hs hs hx b.0 (
      update_crc-injective (absorb s x) (absorb s y) bs (absorb-lt s x hs hx) (absorb-lt s y hs b.0)
        b.1 e))
update_crc-set s (y ∷ bs) (suc i) x hs b hx hi e =
    update_crc-set (absorb s y) bs i x (absorb-lt s y hs b.0) b.1 hx (omega arith) e

pub packet_crc-lt :
    (header payload : List ℕ)
    → IsBytes header
    → IsBytes payload
    → packet_crc header payload < 2 ^ 32
unfolding packet_crc
packet_crc-lt header payload h p =
    bit_xor-lt 32 _ crc_initial_state
      (update_crc-lt _ payload (update_crc-lt crc_initial_state header (omega arith) h) p)
      (omega arith)

-- The checksum tells two headers, or two payloads, that differ in one byte.
pub packet_crc-set_header :
    (header payload : List ℕ) (i x : ℕ)
    → IsBytes header
    → IsBytes (set header i x)
    → IsBytes payload
    → x < 256
    → i < length header
    → packet_crc (set header i x) payload ≡ packet_crc header payload
    → x ≡ get_or header i 0
unfolding packet_crc
packet_crc-set_header header payload i x h h' p hx hi e =
    update_crc-set crc_initial_state header i x (omega arith) h hx hi (
      update_crc-injective _ _ payload (update_crc-lt crc_initial_state _ (omega arith) h')
        (update_crc-lt crc_initial_state header (omega arith) h) p
        (xor_cancel_right _ _ crc_initial_state e))

pub packet_crc-set_payload :
    (header payload : List ℕ) (i x : ℕ)
    → IsBytes header
    → IsBytes payload
    → x < 256
    → i < length payload
    → packet_crc header (set payload i x) ≡ packet_crc header payload
    → x ≡ get_or payload i 0
unfolding packet_crc
packet_crc-set_payload header payload i x h p hx hi e =
    update_crc-set _ payload i x (update_crc-lt crc_initial_state header (omega arith) h) p hx hi
      (xor_cancel_right _ _ crc_initial_state e)
