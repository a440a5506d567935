-- ===== src/Protocol/Wire/Loops.antt =====
-- The two loops of src/protocol/wire.hpp, byte by byte.
use driveflow_runtime.Prelude.{
  ℕ, zero, suc, ◌+◌, ◌-◌, ◌*◌, ◌/◌, ◌%◌, ◌^◌, ◌≤◌, ◌<◌, bit_or, ◌≡◌, refl, ap, subst, ◌∙◌, List, [],
  ◌∷◌, ◌⊎◌, arith, length, get_or, set, length-set, get_or-set_self, get_or-set_ne,
}
use driveflow_runtime.Prelude.Bits.{bit_or_disjoint}
use native.Mathlib.Nat.{mod-eq_of_lt}
use native.Mathlib.Decide.{ℕ_discrete}
use driveflow_runtime.Protocol.Wire.Bytes.{
  IsBytes, be_number, byte_pow, byte_pow-le, IsBytes-get_or, be_number-of_digits,
}
use driveflow_runtime.Protocol.Wire.Defs.{write_loop, read_loop, write_big_endian, read_big_endian}

-- A read folds the bytes: nothing is cut off, since the value so far fits the bytes read.
read_loop-be_number :
    (width left done : ℕ) (input : List ℕ) (offset value : ℕ)
    → done + left ≡ width
    → IsBytes input
    → value < 2 ^ (done * 8)
    → read_loop width left input offset value
      ≡ be_number left (λ i. get_or input i 0) (offset + done) value
unfolding read_loop
read_loop-be_number width zero done input offset value e b h = refl
read_loop-be_number width (suc left) done input offset value e b h =
    rw (at_done, joined)
      (read_loop-be_number width left (suc done) input offset (value * 256 + byte) (omega arith) b
          (omega (arith, byte_pow done, IsBytes-get_or input (offset + done) b))
        ∙ ap (λ (p : ℕ). be_number left (λ i. get_or input i 0) p (value * 256 + byte))
            (omega arith))
  where
    byte : ℕ
    byte = get_or input (offset + done) 0

    at_done : width - suc left ≡ done
    at_done = omega arith

    room_at : 2 ^ (suc done * 8) ≤ 2 ^ ((done + suc left) * 8)
    room_at =
        subst (λ t. 2 ^ (suc done * 8) ≤ 2 ^ (t * 8)) (omega arith) (byte_pow-le (suc done) left)

    room : 2 ^ (suc done * 8) ≤ 2 ^ (width * 8)
    room = rw (← e) room_at

    joined : bit_or (value * 2 ^ 8) byte % 2 ^ (width * 8) ≡ value * 256 + byte
    joined =
        rw (bit_or_disjoint 8 value byte (IsBytes-get_or input (offset + done) b)) (
          mod-eq_of_lt (omega (arith, room, byte_pow done, IsBytes-get_or input (offset + done) b)))

pub read_big_endian-be_number :
    (width : ℕ) (input : List ℕ) (offset : ℕ)
    → IsBytes input
    → read_big_endian width input offset ≡ be_number width (λ i. get_or input i 0) offset 0
unfolding read_big_endian
read_big_endian-be_number width input offset b =
    read_loop-be_number width width 0 input offset 0 (omega arith) b (omega arith)
    ∙ ap (λ (p : ℕ). be_number width (λ i. get_or input i 0) p 0) (omega arith)

write_loop-before :
    (width left : ℕ) (output : List ℕ) (offset value i : ℕ)
    → left ≤ width
    → i < width - left
    → get_or (write_loop width left output offset value) (offset + i) 0
      ≡ get_or output (offset + i) 0
unfolding write_loop
write_loop-before width zero output offset value i p h = refl
write_loop-before width (suc left) output offset value i p h =
    write_loop-before width left _ offset value i (omega arith) (omega arith)
    ∙ get_or-set_ne output (offset + (width - suc left)) (offset + i) _ 0 (omega arith)

stored :
    (width left : ℕ) (output : List ℕ) (offset value i : ℕ)
    → suc left ≤ width
    → offset + width ≤ length output
    → i ≡ width - suc left
    → get_or
        (set output
          (offset + (width - suc left))
          (value / 2 ^ ((width - (width - suc left) - 1) * 8) % 256))
        (offset + i)
        0
      ≡ value / 2 ^ ((width - suc i) * 8) % 256
stored width left output offset value i p q e =
    rw (e, get_or-set_self output (offset + (width - suc left)) _ 0 (omega arith), same) refl
  where
    same : width - (width - suc left) - 1 ≡ width - suc (width - suc left)
    same = omega arith

-- A write stores each digit at its place, and changes no other byte.
write_loop-inside :
    (width left : ℕ) (output : List ℕ) (offset value i : ℕ)
    → left ≤ width
    → offset + width ≤ length output
    → width - left ≤ i
    → i < width
    → get_or (write_loop width left output offset value) (offset + i) 0
      ≡ value / 2 ^ ((width - suc i) * 8) % 256
unfolding write_loop
write_loop-inside width zero output offset value i p q lo hi = absurd (omega arith)
write_loop-inside width (suc left) output offset value i p q lo hi =
    elim (ℕ_discrete i (width - suc left)) [
      | yes e ↦
          write_loop-before width left _ offset value i (omega arith) (omega arith)
          ∙ stored width left output offset value i p q e
      | no ne ↦
          write_loop-inside width left _ offset value i (omega arith)
            (rw (length-set output (offset + (width - suc left)) _) q) (omega arith) hi
    ]

write_loop-outside :
    (width left : ℕ) (output : List ℕ) (offset value j : ℕ)
    → left ≤ width
    → (j < offset) ⊎ (offset + width ≤ j)
    → get_or (write_loop width left output offset value) j 0 ≡ get_or output j 0
unfolding write_loop
write_loop-outside width zero output offset value j p h = refl
write_loop-outside width (suc left) output offset value j p h =
    write_loop-outside width left _ offset value j (omega arith) h
    ∙ get_or-set_ne output (offset + (width - suc left)) j _ 0 (omega arith)

length-write_loop :
    (width left : ℕ) (output : List ℕ) (offset value : ℕ)
    → length (write_loop width left output offset value) ≡ length output
unfolding write_loop
length-write_loop width zero output offset value = refl
length-write_loop width (suc left) output offset value =
    length-write_loop width left _ offset value ∙ length-set output _ _

pub set-IsBytes : (bs : List ℕ) (i v : ℕ) → IsBytes bs → v < 256 → IsBytes (set bs i v)
set-IsBytes [] i v b h = tt
set-IsBytes (x ∷ bs) zero v b h = (h, b.1)
set-IsBytes (x ∷ bs) (suc i) v b h = (b.0, set-IsBytes bs i v b.1 h)

write_loop-IsBytes :
    (width left : ℕ) (output : List ℕ) (offset value : ℕ)
    → IsBytes output
    → IsBytes (write_loop width left output offset value)
unfolding write_loop
write_loop-IsBytes width zero output offset value b = b
write_loop-IsBytes width (suc left) output offset value b =
    write_loop-IsBytes width left _ offset value (set-IsBytes output _ _ b (omega arith))

-- At every width, in a span of bytes with room for it, what is written is read back, kept to the
-- width.
pub read-write :
    (width : ℕ) (output : List ℕ) (offset value : ℕ)
    → IsBytes output
    → offset + width ≤ length output
    → read_big_endian width (write_big_endian width output offset value) offset
      ≡ value % 2 ^ (width * 8)
unfolding write_big_endian
read-write width output offset value b room =
    read_big_endian-be_number width _ offset (write_loop-IsBytes width width output offset value b)
    ∙ be_number-of_digits width value _ offset 0 (λ i lt.
      write_loop-inside width width output offset value i (omega arith) room (omega arith) lt)
    ∙ omega arith

-- A write changes no byte outside its `width` bytes, nor the length of the span.
pub write_frame :
    (width : ℕ) (output : List ℕ) (offset value j : ℕ)
    → (j < offset) ⊎ (offset + width ≤ j)
    → (get_or (write_big_endian width output offset value) j 0 ≡ get_or output j 0)
      × (length (write_big_endian width output offset value) ≡ length output)
unfolding write_big_endian
write_frame width output offset value j h = (
  write_loop-outside width width output offset value j (omega arith) h,
  length-write_loop width width output offset value,
)
