-- ===== src/Protocol/Wire/Bytes.antt =====
-- Numbers as sequences of bytes, most significant first: the reference for src/protocol/wire.hpp.
use driveflow_runtime.Prelude.{
  ℕ, zero, suc, ◌+◌, ◌-◌, ◌*◌, ◌/◌, ◌%◌, ◌^◌, ◌≤◌, ◌<◌, ◌≡◌, refl, sym, ap, ap₂, ◌∙◌, List, [], ◌∷◌,
  arith, length, get_or, All,
}
use native.Mathlib.Numerals.{towards_suc}
use native.Mathlib.Nat.{one-le-pow, div-add-mod', mod-lt}

abbrev pub IsByte : ℕ → Type 0
IsByte b = b < 256

abbrev pub IsBytes : List ℕ → Type 0
IsBytes bs = All IsByte bs

-- The bytes of a number, most significant first.
abbrev pub be_bytes : ℕ → ℕ → List ℕ
be_bytes zero value = []
be_bytes (suc k) value = value / 2 ^ (k * 8) % 256 ∷ be_bytes k value

-- The number that the bytes `f pos, f (pos + 1), ...` spell behind the digits of `acc`.
abbrev pub be_number : ℕ → (ℕ → ℕ) → ℕ → ℕ → ℕ
be_number zero f pos acc = acc
be_number (suc left) f pos acc = be_number left f (pos + 1) (acc * 256 + f pos)

pub byte_pow : (k : ℕ) → 2 ^ (suc k * 8) ≡ 256 * 2 ^ (k * 8)
byte_pow k = rw (spread k) (simp towards_suc (omega arith))
  where
    spread : (k : ℕ) → suc k * 8 ≡ k * 8 + 8
    spread k = omega arith

pub byte_pow-pos : (k : ℕ) → 1 ≤ 2 ^ (k * 8)
byte_pow-pos k = one-le-pow (k * 8) 2 (omega arith)

pub byte_pow-le : (k l : ℕ) → 2 ^ (k * 8) ≤ 2 ^ ((l + k) * 8)
byte_pow-le k zero = rw (zero_add k) (omega arith)
  where
    zero_add : (k : ℕ) → 0 + k ≡ k
    zero_add k = omega arith
byte_pow-le k (suc l) = rw (suc_add k l) (omega (arith, byte_pow (l + k), byte_pow-le k l))
  where
    suc_add : (k l : ℕ) → suc l + k ≡ suc (l + k)
    suc_add k l = omega arith

pub IsBytes-get_or : (bs : List ℕ) (i : ℕ) → IsBytes bs → get_or bs i 0 < 256
IsBytes-get_or [] i h = omega arith
IsBytes-get_or (b ∷ bs) zero h = h.0
IsBytes-get_or (b ∷ bs) (suc i) h = IsBytes-get_or bs i h.1

pub be_bytes-IsBytes : (k v : ℕ) → IsBytes (be_bytes k v)
be_bytes-IsBytes zero v = tt
be_bytes-IsBytes (suc k) v = (omega arith, be_bytes-IsBytes k v)

pub length-be_bytes : (k v : ℕ) → length (be_bytes k v) ≡ k
length-be_bytes zero v = refl
length-be_bytes (suc k) v = ap suc (length-be_bytes k v)

mod_unique : (n q r : ℕ) → r < n → (q * n + r) % n ≡ r
mod_unique n q r h = grind arith

digit-lt : (m b r : ℕ) → b < 256 → r < m → b * m + r < 256 * m
digit-lt m b r hb hr = grind arith

digits_mod :
    (v m a b r : ℕ) → v ≡ a * (256 * m) + (b * m + r) → b < 256 → r < m → b * m + r ≡ v % (256 * m)
digits_mod v m a b r e hb hr =
    rw e (sym (mod_unique (256 * m) a (b * m + r) (digit-lt m b r hb hr)))

-- The highest of `k + 1` digits and the rest.
split_digit : (v m : ℕ) → 0 < m → v / m % 256 * m + v % m ≡ v % (256 * m)
split_digit v m h =
    digits_mod v m (v / m / 256) (v / m % 256) (v % m)
      (omega (arith, div-add-mod' v m, ap (λ (t : ℕ). t * m) (div-add-mod' (v / m) 256)))
      (omega arith) (mod-lt v h)

regroup : (acc d m r t : ℕ) → d * m + r ≡ t → (acc * 256 + d) * m + r ≡ acc * (256 * m) + t
regroup acc d m r t e = omega arith

-- Digits read behind `acc` are `acc` shifted past them.
pub be_number-of_digits :
    (k v : ℕ) (f : ℕ → ℕ) (pos acc : ℕ)
    → ((i : ℕ) → i < k → f (pos + i) ≡ v / 2 ^ ((k - suc i) * 8) % 256)
    → be_number k f pos acc ≡ acc * 2 ^ (k * 8) + v % 2 ^ (k * 8)
be_number-of_digits zero v f pos acc h = omega arith
be_number-of_digits (suc k) v f pos acc h =
    be_number-of_digits k v f (pos + 1) (acc * 256 + f pos) shifted
    ∙ rw (byte_pow k, first)
        (regroup acc (v / 2 ^ (k * 8) % 256) (2 ^ (k * 8)) _ _
          (split_digit v (2 ^ (k * 8)) (byte_pow-pos k)))
  where
    first : f pos ≡ v / 2 ^ (k * 8) % 256
    first =
        ap f (omega arith)
        ∙ (h 0 (omega arith) ∙ ap (λ (t : ℕ). v / 2 ^ (t * 8) % 256) (omega arith))

    shifted : (i : ℕ) → i < k → f (pos + 1 + i) ≡ v / 2 ^ ((k - suc i) * 8) % 256
    shifted i lt =
        ap f (omega arith)
        ∙ (h (suc i) (omega arith) ∙ ap (λ (t : ℕ). v / 2 ^ (t * 8) % 256) (omega arith))

-- The number that a list of bytes spells behind the digits of `acc`.
abbrev pub be_list : ℕ → List ℕ → ℕ
be_list acc [] = acc
be_list acc (b ∷ bs) = be_list (acc * 256 + b) bs

pub be_list_split :
    (bs : List ℕ) (acc : ℕ)
    → IsBytes bs
    → (r : ℕ) × (be_list acc bs ≡ acc * 2 ^ (length bs * 8) + r) × (r < 2 ^ (length bs * 8))
be_list_split [] acc h = (0, omega arith, omega arith)
be_list_split (b ∷ bs) acc h =
    let (r, e, lt) = be_list_split bs (acc * 256 + b) h.1 in
    (
      b * 2 ^ (length bs * 8) + r,
      rw (byte_pow (length bs), e) (omega arith),
      rw (byte_pow (length bs)) (digit-lt (2 ^ (length bs * 8)) b r h.0 lt),
    )

div_unique : (m q r : ℕ) → r < m → (q * m + r) / m ≡ q
div_unique m q r h = grind arith

digit_of : (acc b m r : ℕ) → b < 256 → r < m → ((acc * 256 + b) * m + r) / m % 256 ≡ b
digit_of acc b m r hb hr = rw (div_unique m (acc * 256 + b) r hr) (omega arith)

-- Bytes spelled out from the number that they make are the bytes.
pub be_bytes-be_list :
    (bs : List ℕ) (acc : ℕ) → IsBytes bs → be_bytes (length bs) (be_list acc bs) ≡ bs
be_bytes-be_list [] acc h = refl
be_bytes-be_list (b ∷ bs) acc h =
    ap₂ ◌∷◌
      (let (r, e, lt) = be_list_split bs (acc * 256 + b) h.1 in
        rw e (digit_of acc b (2 ^ (length bs * 8)) r h.0 lt))
      (be_bytes-be_list bs (acc * 256 + b) h.1)

-- The number that `k` bytes of `v` make is `v`, kept to them.
pub be_list-be_bytes :
    (k v acc : ℕ) → be_list acc (be_bytes k v) ≡ acc * 2 ^ (k * 8) + v % 2 ^ (k * 8)
be_list-be_bytes zero v acc = omega arith
be_list-be_bytes (suc k) v acc =
    be_list-be_bytes k v (acc * 256 + v / 2 ^ (k * 8) % 256)
    ∙ rw (byte_pow k) (
        regroup acc (v / 2 ^ (k * 8) % 256) (2 ^ (k * 8)) _ _
          (split_digit v (2 ^ (k * 8)) (byte_pow-pos k)))
