-- ===== src/Base/Except.antt =====
-- Code that throws: the library's exceptions as values, and `std::stoi`.
use Prim.Native.Nat.{ℕ, zero, suc, ◌+◌, ◌-◌, ◌*◌, ◌^◌}
use mathlib.Core.Path.{◌≡◌, refl}
use mathlib.Core.Logic.{◌⊎◌, inl, inr}
use mathlib.Core.Bool.{Bool, false, ◌&&◌, ◌||◌}
use mathlib.Core.List.{[], ◌∷◌}
use micro_business_server.Base.Int.{ℤ, pos, negsuc}
use micro_business_server.Base.Tests.{ltb, leb, ◌==◌, if◌then◌else◌}
use micro_business_server.Base.Text.{Bytes}

-- `out_of_fuel` is none of the library's: a loop of the model ends with it where its fuel has run out
-- before the loop's own end.
pub data Exception : Type 0 where
  invalid_argument : Exception
  out_of_range : Exception
  length_error : Exception
  runtime_error : Bytes → Exception
  out_of_fuel : Exception

pub data Result {ℓ} (A : Type ℓ) : Type ℓ where
  ok : A → Result A
  throw : Exception → Result A

infixl 5 ◌>>=◌
abbrev pub ◌>>=◌ {ℓ κ} : {A : Type ℓ} {B : Type κ} → Result A → (A → Result B) → Result B
ok a >>= f = f a
throw e >>= f = throw e

-- Behind a step that succeeds the first part has a value, and the rest succeeds on it.
pub first_value {ℓ κ} :
    {A : Type ℓ} {B : Type κ} {b : B} (rest : A → Result B) (part : Result A)
    → part >>= rest ≡ ok b
    → (v : A) × (rest v ≡ ok b) × (part ≡ ok v)
first_value rest (throw e) h = cc
first_value rest (ok v) h = (v, h, refl)

-- To split on a result and keep the equation.
pub Result-cases {ℓ} :
    {A : Type ℓ} (r : Result A) → ((x : Exception) × (r ≡ throw x)) ⊎ ((a : A) × (r ≡ ok a))
Result-cases (throw x) = inl (x, refl)
Result-cases (ok a) = inr (a, refl)

-- `isspace` in the C locale.
abbrev pub is_blank : ℕ → Bool
is_blank c = c == 32 || leb 9 c && leb c 13

abbrev pub is_digit : ℕ → Bool
is_digit c = leb b'0' c && leb c b'9'

-- The digits at the front, on top of the digits read before.
abbrev pub digits_value : ℕ → Bytes → ℕ
digits_value acc [] = acc
digits_value acc (c ∷ s) = if is_digit c then digits_value (acc * 10 + (c - 48)) s else acc

abbrev pub starts_digit : Bytes → Bool
starts_digit [] = false
starts_digit (c ∷ s) = is_digit c

abbrev positive : Bytes → Result ℤ
positive s =
    if starts_digit s
    then (if ltb (digits_value 0 s) (2 ^ 31)
        then ok (pos (digits_value 0 s))
        else throw out_of_range)
    else throw invalid_argument

abbrev minus : ℕ → ℤ
minus zero = pos 0
minus (suc n) = negsuc n

abbrev negative : Bytes → Result ℤ
negative s =
    if starts_digit s
    then (if leb (digits_value 0 s) (2 ^ 31)
        then ok (minus (digits_value 0 s))
        else throw out_of_range)
    else throw invalid_argument

-- `std::stoi`: blanks, a sign, digits; what follows the digits is not read.
unfoldable pub stoi : Bytes → Result ℤ
stoi [] = throw invalid_argument
stoi (c ∷ s) =
    let rest = stoi s in
    if is_blank c
    then rest
    else if c == b'-'
    then negative s
    else if c == b'+'
    then positive s
    else positive (c ∷ s)
