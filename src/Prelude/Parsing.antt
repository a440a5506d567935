-- ===== src/Prelude/Parsing.antt =====
-- std::from_chars for the unsigned types.
use mathlib.Core.Option.{Option, none, some}
use mathlib.Core.Bool.{Bool, true, false, ◌&&◌, not}
use mathlib.Core.List.{List, [], ◌∷◌}
use mathlib.Core.Logic.{inl, inr}
use mathlib.Core.Path.{◌≡◌, refl, sym, ap, ◌∙◌}
use native.Mathlib.Nat.{pow-suc}
use native.Mathlib.Omega.{arith}
use Prim.Native.Nat.{ℕ, suc, ◌+◌, ◌-◌, ◌*◌, ◌^◌, ◌<◌}
use driveflow_runtime.Prelude.Tests.{Bool-cases, ltb, leb, if◌then◌else◌}
use driveflow_runtime.Prelude.Lists.{length}

abbrev is_digit : ℕ → Bool
is_digit c = leb 48 c && leb c 57

-- The value of the digits a text begins with, read on to `value`, and the text after them.
unfoldable digits : List ℕ → ℕ → ℕ × List ℕ
digits [] value = (value, [])
digits (c ∷ s) value = if is_digit c then digits s (value * 10 + (c - 48)) else (value, c ∷ s)

-- std::from_chars into an unsigned type of values below `limit`: the value and where it ends.
-- No sign is taken, and a value outside the type is an error.
unfoldable pub from_chars : ℕ → List ℕ → Option (ℕ × List ℕ)
unfolding digits
from_chars limit [] = none
from_chars limit (c ∷ s) =
    if not (is_digit c)
    then none
    else if ltb (digits (c ∷ s) 0).0 limit
    then some (digits (c ∷ s) 0)
    else none

-- `error == std::errc{} && end == text.data() + text.size()`
abbrev whole : Option (ℕ × List ℕ) → Option ℕ
whole none = none
whole (some (value, [])) = some value
whole (some (value, c ∷ s)) = none

unfoldable pub parse_unsigned : ℕ → List ℕ → Option ℕ
unfolding from_chars
parse_unsigned limit s = whole (from_chars limit s)

-- The value of a text as a number in base ten, by the weights of its places.
unfoldable pub decimal : List ℕ → ℕ
decimal [] = 0
decimal (c ∷ s) = (c - 48) * 10 ^ length s + decimal s

unfoldable pub all_digits : List ℕ → Bool
all_digits [] = true
all_digits (c ∷ s) = is_digit c && all_digits s

-- A text of digits, at least one.
abbrev pub is_number : List ℕ → Bool
is_number [] = false
is_number (c ∷ s) = all_digits (c ∷ s)

-- A digit more is a place more.
shift_digit : (v d k rest : ℕ) → (v * 10 + d) * 10 ^ k + rest ≡ v * 10 ^ suc k + (d * 10 ^ k + rest)
shift_digit v d k rest = rw (pow-suc 10 k) (omega arith)

digits-decimal :
    (s : List ℕ) (v : ℕ)
    → whole (some (digits s v))
      ≡ (if all_digits s then some (v * 10 ^ length s + decimal s) else none)
unfolding digits decimal all_digits
digits-decimal [] v = ap some (omega arith)
digits-decimal (c ∷ s) v = elim (Bool-cases (is_digit c)) [
  | inl read ↦
      rw (read, digits-decimal s (v * 10 + (c - 48)))
        (ap (λ n. if all_digits s then some n else none)
          (shift_digit v (c - 48) (length s) (decimal s)))
  | inr other ↦ rw other refl
]

digits_lem :
    (s : List ℕ) → whole (some (digits s 0)) ≡ (if all_digits s then some (decimal s) else none)
digits_lem s = digits-decimal s 0 ∙ ap (λ n. if all_digits s then some n else none) (omega arith)

limited :
    (limit v : ℕ) (b : Bool) (d : ℕ × List ℕ)
    → whole (some d) ≡ (if b then some v else none)
    → whole (if ltb d.0 limit then some d else none) ≡ (if b && ltb v limit then some v else none)
limited limit v b (n, []) e = ground (arith, e)
limited limit v b (n, c ∷ s) e = ground (arith, e)

-- What a parsed number is: a text of digits alone whose value, by the weights of its places, is
-- within the limit.
pub parse_unsigned-decimal :
    (limit : ℕ) (s : List ℕ)
    → parse_unsigned limit s
      ≡ (if is_number s && ltb (decimal s) limit then some (decimal s) else none)
unfolding parse_unsigned from_chars all_digits
parse_unsigned-decimal limit [] = refl
parse_unsigned-decimal limit (c ∷ s) = elim (Bool-cases (is_digit c)) [
  | inl digit ↦
      let d = digits (c ∷ s) 0 in
      ap (λ b. whole (if not b then none else if ltb d.0 limit then some d else none)) digit
      ∙ limited limit (decimal (c ∷ s)) (all_digits (c ∷ s)) d (digits_lem (c ∷ s))
  | inr other ↦ rw other refl
]

pub parse_unsigned-lt :
    (limit : ℕ) (s : List ℕ) (n : ℕ) → parse_unsigned limit s ≡ some n → n < limit
parse_unsigned-lt limit s n e = ground (arith, sym (parse_unsigned-decimal limit s) ∙ e)
