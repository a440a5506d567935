-- ===== src/Prelude/Bits.antt =====
-- The laws of `|`, `&`, `^` and of shifts at variables, digit by digit.
use Prim.Native.Nat.{
  ℕ, zero, suc, ◌+◌, ◌-◌, ◌*◌, ◌/◌, ◌%◌, ◌^◌, ◌≤◌, ◌<◌, min, max, bit_and, bit_or, bit_xor, digits,
  differ, bitwise, bit_and-bitwise, bit_or-bitwise, bit_xor-bitwise,
}
use mathlib.Core.Path.{◌≡◌, refl, ap, ◌∙◌}
use native.Mathlib.Nat.{pow-suc, one-le-pow, mul-one}
use native.Mathlib.Omega.{arith}
use driveflow_runtime.Prelude.Tests.{ltb, ◌==◌, if◌then◌else◌}

differ_small : (x y : ℕ) → x < 2 → y < 2 → differ x y ≡ (x + y) % 2
differ_small zero y p q = omega arith
differ_small (suc zero) zero p q = refl
differ_small (suc zero) (suc zero) p q = refl
differ_small (suc zero) (suc (suc y)) p q = absurd (omega arith)
differ_small (suc (suc x)) y p q = absurd (omega arith)

differ-bits : (a b : ℕ) → differ (a % 2) (b % 2) ≡ (a % 2 + b % 2) % 2
differ-bits a b = differ_small (a % 2) (b % 2) (omega arith) (omega arith)

-- The native operations stand for `digits`, a recursion with fuel: any fuel from `a` on will do.
module _ (base : ℕ → ℕ) (op : ℕ → ℕ → ℕ) where
  digits-fuel : (m n a b : ℕ) → a ≤ m → a ≤ n → digits base op m a b ≡ digits base op n a b
  digits-fuel zero zero a b p q = refl
  digits-fuel zero (suc n) zero b p q = refl
  digits-fuel zero (suc n) (suc a) b p q = absurd (omega arith)
  digits-fuel (suc m) zero zero b p q = refl
  digits-fuel (suc m) zero (suc a) b p q = absurd (omega arith)
  digits-fuel (suc m) (suc n) zero b p q = refl
  digits-fuel (suc m) (suc n) (suc a) b p q =
      rw (digits-fuel m n (suc a / 2) (b / 2) (omega arith) (omega arith))

  bitwise_step :
      (a b : ℕ)
      → bitwise base op (suc a) b ≡ bitwise base op (suc a / 2) (b / 2) * 2 + op (suc a % 2) (b % 2)
  bitwise_step a b =
      omega (arith, digits-fuel a (suc a / 2) (suc a / 2) (b / 2) (omega arith) (omega arith))

-- `f` works digit by digit, on each digit as `op`.
abbrev pub Digitwise : (ℕ → ℕ → ℕ) → (ℕ → ℕ → ℕ) → Type 0
Digitwise f op = (a b : ℕ) → f a b ≡ f (a / 2) (b / 2) * 2 + op (a % 2) (b % 2)

pub bit_or_step : Digitwise bit_or max
bit_or_step zero other = simp bit_or-bitwise (omega arith)
bit_or_step (suc n) other = simp bit_or-bitwise (bitwise_step (λ d. d) max n other)

pub bit_xor_step : (a b : ℕ) → bit_xor a b ≡ bit_xor (a / 2) (b / 2) * 2 + (a % 2 + b % 2) % 2
bit_xor_step zero b = simp bit_xor-bitwise (omega arith)
bit_xor_step (suc a) b =
    simp bit_xor-bitwise (omega (arith, bitwise_step (λ b. b) differ a b, differ-bits (suc a) b))

pub bit_and_step : Digitwise bit_and min
bit_and_step zero other = simp bit_and-bitwise (omega arith)
bit_and_step (suc n) other = simp bit_and-bitwise (bitwise_step (λ d. 0) min n other)

-- Induction on the binary digits of a number.
halving-fuel {ℓ} :
    (P : ℕ → Type ℓ) → P 0 → ((n : ℕ) → P (suc n / 2) → P (suc n)) → (fuel n : ℕ) → n ≤ fuel → P n
halving-fuel P base step fuel zero h = base
halving-fuel P base step zero (suc n) h = absurd (omega arith)
halving-fuel P base step (suc fuel) (suc n) h =
    step n (halving-fuel P base step fuel (suc n / 2) (omega arith))

pub halving_induction {ℓ} :
    (P : ℕ → Type ℓ) → P 0 → ((n : ℕ) → P (suc n / 2) → P (suc n)) → (n : ℕ) → P n
halving_induction P base step n = halving-fuel P base step n n (omega arith)

pub bit_or-zero : (a : ℕ) → bit_or a 0 ≡ a
bit_or-zero =
    halving_induction (λ a. bit_or a 0 ≡ a) refl (λ n ih. omega (arith, bit_or_step (suc n) 0, ih))

pub bit_and-zero : (a : ℕ) → bit_and a 0 ≡ 0
bit_and-zero =
    halving_induction (λ a. bit_and a 0 ≡ 0) refl
      (λ n ih. omega (arith, bit_and_step (suc n) 0, ih))

pub bit_xor-zero : (a : ℕ) → bit_xor a 0 ≡ a
bit_xor-zero =
    halving_induction (λ a. bit_xor a 0 ≡ a) refl
      (λ n ih. omega (arith, bit_xor_step (suc n) 0, ih))

pub zero-bit_xor : (b : ℕ) → bit_xor 0 b ≡ b
zero-bit_xor b = bit_xor-bitwise 0 b

pub bit_xor_comm : (a b : ℕ) → bit_xor a b ≡ bit_xor b a
bit_xor_comm =
    halving_induction (λ a. (b : ℕ) → bit_xor a b ≡ bit_xor b a)
      (λ b. omega (arith, zero-bit_xor b, bit_xor-zero b))
      (λ n ih b. omega (arith, bit_xor_step (suc n) b, bit_xor_step b (suc n), ih (b / 2)))

-- Masking by the same word twice gives the first word back.
pub bit_xor_cancel : (c a : ℕ) → bit_xor (bit_xor a c) c ≡ a
bit_xor_cancel c =
    halving_induction (λ c. (a : ℕ) → bit_xor (bit_xor a c) c ≡ a)
      (λ a. rw (bit_xor-zero, bit_xor-zero))
      (λ n ih a. omega (
        arith,
        bit_xor_step a (suc n),
        bit_xor_step (bit_xor a (suc n)) (suc n),
        ap (λ (t : ℕ). bit_xor t (suc n / 2))
            (halves (bit_xor a (suc n)) (bit_xor (a / 2) (suc n / 2)) ((a % 2 + suc n % 2) % 2)
              (bit_xor_step a (suc n)) (omega arith)),
        ih (a / 2),
      ))
      c
  where
    halves : (x y r : ℕ) → x ≡ y * 2 + r → r < 2 → x / 2 ≡ y
    halves x y r e h = omega arith

-- Digits above `k` stay zero.
pub bit_xor-lt : (k a b : ℕ) → a < 2 ^ k → b < 2 ^ k → bit_xor a b < 2 ^ k
bit_xor-lt zero a b ha hb = rw (zero_of_lt_one a ha, zero_of_lt_one b hb) (omega arith)
  where
    zero_of_lt_one : (x : ℕ) → x < 2 ^ 0 → x ≡ 0
    zero_of_lt_one x h = omega arith
bit_xor-lt (suc k) a b ha hb = omega (
  arith,
  bit_xor_step a b,
  pow-suc 2 k,
  bit_xor-lt k (a / 2) (b / 2) (omega (arith, pow-suc 2 k)) (omega (arith, pow-suc 2 k)),
)

-- A digit above those of the other word stays.
pub le-bit_xor : (k a b : ℕ) → a < 2 ^ k → 2 ^ k ≤ b → 2 ^ k ≤ bit_xor a b
le-bit_xor zero zero b ha hb = rw zero-bit_xor hb
le-bit_xor zero (suc a) b ha hb = absurd (omega arith)
le-bit_xor (suc k) a b ha hb = omega (
  arith,
  bit_xor_step a b,
  pow-suc 2 k,
  le-bit_xor k (a / 2) (b / 2) (omega (arith, pow-suc 2 k)) (omega (arith, pow-suc 2 k)),
)

mul-pow-suc : (q k : ℕ) → q * 2 ^ suc k ≡ 2 * (q * 2 ^ k)
mul-pow-suc q k = omega (arith, ap (λ (t : ℕ). q * t) (pow-suc 2 k))

-- `(q << k) | r` is a sum where `r` fits `k` bits.
pub bit_or_disjoint : (k q r : ℕ) → r < 2 ^ k → bit_or (q * 2 ^ k) r ≡ q * 2 ^ k + r
bit_or_disjoint zero q r h = ground (arith, bit_or-zero q)
bit_or_disjoint (suc k) q r h = ground (
  arith,
  bit_or_step (q * 2 ^ suc k) r,
  mul-pow-suc q k,
  pow-suc 2 k,
  bit_or_disjoint k q (r / 2) (omega (arith, pow-suc 2 k)),
)

-- Bit `k` of a word.
unfoldable pub testbit : ℕ → ℕ → ℕ
testbit x zero = x % 2
testbit x (suc k) = testbit (x / 2) k

pub testbit-lt : (x k : ℕ) → testbit x k < 2
unfolding testbit
testbit-lt x zero = omega arith
testbit-lt x (suc k) = testbit-lt (x / 2) k

pub testbit-zero : (k : ℕ) → testbit 0 k ≡ 0
unfolding testbit
testbit-zero zero = refl
testbit-zero (suc k) = testbit-zero k

half_pow : (k : ℕ) → 2 ^ suc k / 2 ≡ 2 ^ k
half_pow k = omega (arith, pow-suc 2 k)

-- `x | (1 << k)` sets bit `k` and leaves the others.
pub testbit-bit_or :
    (x k j : ℕ) → testbit (bit_or x (2 ^ k)) j ≡ (if j == k then 1 else testbit x j)
unfolding testbit
testbit-bit_or x zero zero = omega (arith, bit_or_step x 1)
testbit-bit_or x zero (suc j) = rw (or_one_half x) (ground arith)
  where
    or_one_half : (x : ℕ) → bit_or x (2 ^ 0) / 2 ≡ x / 2
    or_one_half x = omega (arith, bit_or_step x 1, bit_or-zero (x / 2))
testbit-bit_or x (suc k) zero = ground (arith, bit_or_step x (2 ^ suc k), pow-suc 2 k)
testbit-bit_or x (suc k) (suc j) = rw (or_half x k) (testbit-bit_or (x / 2) k j ∙ ground arith)
  where
    or_half : (x k : ℕ) → bit_or x (2 ^ suc k) / 2 ≡ bit_or (x / 2) (2 ^ k)
    or_half x k = rw (← half_pow k) (omega (arith, bit_or_step x (2 ^ suc k)))

-- `x & (1 << k)` is zero exactly when bit `k` is.
pub bit_and-pow : (x k : ℕ) → bit_and x (2 ^ k) ≡ testbit x k * 2 ^ k
unfolding testbit
bit_and-pow x zero = omega (arith, bit_and_step x 1, bit_and-zero (x / 2))
bit_and-pow x (suc k) = omega (
  arith,
  bit_and_step x (2 ^ suc k),
  pow-suc 2 k,
  half_pow k,
  ap (λ (t : ℕ). bit_and (x / 2) t) (half_pow k),
  bit_and-pow (x / 2) k,
  mul-pow-suc (testbit (x / 2) k) k,
)

-- `x << d` moves each bit up by `d`.
pub testbit-shl : (x d j : ℕ) → testbit (x * 2 ^ d) j ≡ (if ltb j d then 0 else testbit x (j - d))
unfolding testbit
testbit-shl x zero j = ground (arith, mul-one x)
testbit-shl x (suc d) zero = ground (arith, mul-pow-suc x d)
testbit-shl x (suc d) (suc j) = rw (shl_half x d) (testbit-shl x d j ∙ ground arith)
  where
    shl_half : (x d : ℕ) → x * 2 ^ suc d / 2 ≡ x * 2 ^ d
    shl_half x d = omega (arith, mul-pow-suc x d)

-- The remainder by an even number, without the lowest digit.
mod_double : (x m : ℕ) → 0 < m → (x % (m * 2) / 2 ≡ x / 2 % m) × (x % (m * 2) % 2 ≡ x % 2)
mod_double x m h = grind arith

-- A cast to `w` bits keeps the bits below `w`.
pub testbit-mod : (w x j : ℕ) → j < w → testbit (x % 2 ^ w) j ≡ testbit x j
unfolding testbit
testbit-mod zero x j h = absurd (omega arith)
testbit-mod (suc w) x zero h =
    rw (pow-suc 2 w) (mod_double x (2 ^ w) (one-le-pow w 2 (omega arith))).1
testbit-mod (suc w) x (suc j) h = rw (mod_half x w) (testbit-mod w (x / 2) j (omega arith))
  where
    mod_half : (x w : ℕ) → x % 2 ^ suc w / 2 ≡ x / 2 % 2 ^ w
    mod_half x w = rw (pow-suc 2 w) (mod_double x (2 ^ w) (one-le-pow w 2 (omega arith))).0
