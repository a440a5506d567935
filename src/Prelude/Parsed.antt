-- ===== src/Prelude/Parsed.antt =====
-- What the option parsers share: texts, and a parse that stops at its first error.
use Prim.Native.Char.{code}
use Prim.Native.String.{String}
use mathlib.Core.Option.{Option, none, some}
use mathlib.Core.Bool.{Bool, true, false}
use mathlib.Core.List.{List, [], ◌∷◌}
use mathlib.Core.Path.{◌≡◌, refl}
use Prim.Native.Nat.{ℕ}
use driveflow_runtime.Prelude.Tests.{if◌then◌else◌}

-- The bytes of a text, std::string or std::string_view.
unfoldable pub text : String → List ℕ
text String.[] = []
text (String.◌∷◌ c s) = code c ∷ text s

-- A parse that gives a value or is refused with a message.
pub data Parsed (A : Type 0) : Type 0 where
  parsed : A → Parsed A
  refused : List ℕ → Parsed A

infixl 5 ◌>>=◌ ◌>>◌
abbrev pub ◌>>=◌ : {A B : Type 0} → Parsed A → (A → Parsed B) → Parsed B
parsed a >>= f = f a
refused e >>= f = refused e

abbrev pub ◌>>◌ : {A B : Type 0} → Parsed A → Parsed B → Parsed B
m >> k = m >>= λ _. k

-- `if (bad) return failure(message)`
abbrev pub refuse_if : Bool → String → Parsed (Unit {0})
refuse_if bad message = if bad then refused (text message) else parsed tt

-- `if (!number.has_value()) return failure(message)`
abbrev pub required : {A : Type 0} → Option A → String → Parsed A
required none message = refused (text message)
required (some a) message = parsed a

-- What holds of the value of a parse, if it has one.
abbrev pub Gives : {A : Type 0} → (Holds : A → Type 0) → Parsed A → Type 0
Gives Holds (Parsed.parsed a) = Holds a
Gives Holds (Parsed.refused e) = Unit

pub Gives-bind :
    {A B : Type 0} (Holds : A → Type 0) (Then : B → Type 0) (m : Parsed A) (f : A → Parsed B)
    → Gives Holds m
    → ((a : A) → Holds a → Gives Then (f a))
    → Gives Then (m >>= f)
Gives-bind Holds Then (Parsed.parsed a) f g h = h a g
Gives-bind Holds Then (Parsed.refused e) f g h = tt

pub Gives-refuse_if :
    {A : Type 0} (Then : A → Type 0) (bad : Bool) (message : String) (m : Parsed A)
    → (bad ≡ false → Gives Then m)
    → Gives Then (refuse_if bad message >> m)
Gives-refuse_if Then true message m h = tt
Gives-refuse_if Then false message m h = h refl

pub Gives-required :
    {A : Type 0} (Holds : A → Type 0) (o : Option A) (message : String)
    → ((a : A) → o ≡ some a → Holds a)
    → Gives Holds (required o message)
Gives-required Holds none message h = tt
Gives-required Holds (some a) message h = h a refl
