-- ===== src/Protocol/Wire/Defs.antt =====
-- src/protocol/wire.hpp: `write_big_endian` and `read_big_endian` for an integer of `width` bytes.
use driveflow_runtime.Prelude.{
  ℕ, zero, suc, ◌+◌, ◌-◌, ◌*◌, ◌/◌, ◌%◌, ◌^◌, bit_or, List, get_or, set,
}

-- The rounds `index = width - left, ..., width - 1` of the loop in `write_big_endian`.
unfoldable pub write_loop : ℕ → ℕ → List ℕ → ℕ → ℕ → List ℕ
write_loop width zero output offset value = output
write_loop width (suc left) output offset value =
    let index = width - suc left in
    let shift = (width - index - 1) * 8 in
    write_loop width left (set output (offset + index) (value / 2 ^ shift % 256)) offset value

unfoldable pub write_big_endian : ℕ → List ℕ → ℕ → ℕ → List ℕ
unfolding write_loop
write_big_endian width output offset value = write_loop width width output offset value

-- The rounds of the loop in `read_big_endian`; the value is kept to `width` bytes.
unfoldable pub read_loop : ℕ → ℕ → List ℕ → ℕ → ℕ → ℕ
read_loop width zero input offset value = value
read_loop width (suc left) input offset value =
    let index = width - suc left in
    read_loop width left input offset
      (bit_or (value * 2 ^ 8) (get_or input (offset + index) 0) % 2 ^ (width * 8))

unfoldable pub read_big_endian : ℕ → List ℕ → ℕ → ℕ
unfolding read_loop
read_big_endian width input offset = read_loop width width input offset 0
