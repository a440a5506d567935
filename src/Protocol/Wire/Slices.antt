-- ===== src/Protocol/Wire/Slices.antt =====
-- A read of src/protocol/wire.hpp in terms of the bytes read.
use driveflow_runtime.Prelude.{
  ℕ, zero, suc, ◌+◌, ◌*◌, ◌≤◌, ◌<◌, ◌≡◌, refl, ap, subst, ◌∙◌, List, [], ◌∷◌, arith, length, get_or,
  take, drop, ◌^◌, ◌++◌, drop_add, take-append-drop, length-take, length-drop, All-take, All-drop,
}
use native.Mathlib.Nat.{mod-eq_of_lt}
use driveflow_runtime.Protocol.Wire.Bytes.{
  IsBytes, IsByte, be_bytes, be_number, be_list, be_bytes-be_list, be_list-be_bytes, be_list_split,
}
use driveflow_runtime.Protocol.Wire.Defs.{read_big_endian}
use driveflow_runtime.Protocol.Wire.Loops.{read_big_endian-be_number}

drop-get_or :
    (bs : List ℕ) (pos : ℕ) → pos < length bs → drop pos bs ≡ get_or bs pos 0 ∷ drop (suc pos) bs
drop-get_or [] pos h = absurd (omega arith)
drop-get_or (b ∷ bs) zero h = refl
drop-get_or (b ∷ bs) (suc pos) h = drop-get_or bs pos (omega arith)

pos_suc : (pos : ℕ) → pos + 1 ≡ suc pos
pos_suc pos = omega arith

be_number-slice :
    (k pos acc : ℕ) (bs : List ℕ)
    → pos + k ≤ length bs
    → be_number k (λ i. get_or bs i 0) pos acc ≡ be_list acc (take k (drop pos bs))
be_number-slice zero pos acc bs h = refl
be_number-slice (suc k) pos acc bs h = rw (drop-get_or bs pos (omega arith)) (
    be_number-slice k (pos + 1) (acc * 256 + get_or bs pos 0) bs (omega arith)
    ∙ ap (λ (p : ℕ). be_list (acc * 256 + get_or bs pos 0) (take k (drop p bs))) (pos_suc pos))

module _ (k : ℕ) (bs : List ℕ) (pos : ℕ) (bytes : IsBytes bs) (room : pos + k ≤ length bs) where
  -- A read gives the number that the slice spells.
  pub read-slice : read_big_endian k bs pos ≡ be_list 0 (take k (drop pos bs))
  read-slice = read_big_endian-be_number k bs pos bytes ∙ be_number-slice k pos 0 bs room

  -- The bytes of what was read are the slice.
  pub be_bytes-read : be_bytes k (read_big_endian k bs pos) ≡ take k (drop pos bs)
  be_bytes-read = rw read-slice (
      ap (λ (n : ℕ). be_bytes n (be_list 0 (take k (drop pos bs)))) width
      ∙ be_bytes-be_list (take k (drop pos bs)) 0
          (All-take IsByte k _ (All-drop IsByte pos bs bytes)))
    where
      width : k ≡ length (take k (drop pos bs))
      width = omega (arith, length-take k (drop pos bs), length-drop pos bs)

drop_zero : (m r : ℕ) → 0 * m + r ≡ r
drop_zero m r = omega arith

-- A read of `k` bytes is a number of `k` bytes.
pub read-lt :
    (k : ℕ) (bs : List ℕ) (pos : ℕ)
    → IsBytes bs
    → pos + k ≤ length bs
    → read_big_endian k bs pos < 2 ^ (k * 8)
read-lt k bs pos bytes room = rw (read-slice k bs pos bytes room) (ranged slice within width)
  where
    slice : List ℕ
    slice = take k (drop pos bs)

    within : IsBytes slice
    within = All-take IsByte k (drop pos bs) (All-drop IsByte pos bs bytes)

    width : length slice ≡ k
    width = omega (arith, length-take k (drop pos bs), length-drop pos bs)

    ranged : (xs : List ℕ) → IsBytes xs → length xs ≡ k → be_list 0 xs < 2 ^ (k * 8)
    ranged xs b same =
        let (r, e, lt) = be_list_split xs 0 b in
        subst (λ (n : ℕ). be_list 0 xs < 2 ^ (n * 8)) same
          (rw e (rw (drop_zero (2 ^ (length xs * 8)) r) lt))

module _ (bs : List ℕ) (bytes : IsBytes bs) where
  -- A read where the bytes of a number stand gives the number.
  pub read-field :
      (k v pos : ℕ)
      → pos + k ≤ length bs
      → v < 2 ^ (k * 8)
      → take k (drop pos bs) ≡ be_bytes k v
      → read_big_endian k bs pos ≡ v
  read-field k v pos room lt e =
      read-slice k bs pos bytes room
      ∙ (ap (be_list 0) e
          ∙ (be_list-be_bytes k v 0 ∙ (drop_zero (2 ^ (k * 8)) _ ∙ mod-eq_of_lt lt)))

  -- The bytes of the number read at `pos`, before those behind it.
  pub read-behind :
      (pos k : ℕ) (rest : List ℕ)
      → pos + k ≤ length bs
      → rest ≡ drop (pos + k) bs
      → be_bytes k (read_big_endian k bs pos) ++ rest ≡ drop pos bs
  read-behind pos k rest room e =
      rw (be_bytes-read k bs pos bytes room, e, drop_add pos k bs)
        (take-append-drop k (drop pos bs))
