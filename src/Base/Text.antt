-- ===== src/Base/Text.antt =====
-- `std::string` as a list of bytes, with the searches that the source makes. `npos` is `none`.
use Prim.Native.Char.{code}
use Prim.Native.String.{String}
use Prim.Native.Nat.{ℕ, zero, suc}
use mathlib.Core.Path.{◌≡◌}
use mathlib.Core.Logic.{◌↔◌}
use mathlib.Core.Bool.{Bool, true, false, ◌&&◌}
use mathlib.Core.Option.{Option, none, some}
use mathlib.Core.Option
use mathlib.Core.List.{List, [], ◌∷◌}
use native.Mathlib.Omega.{arith}
use micro_business_server.Base.Tests.{ltb, ◌==◌, if◌then◌else◌}
use micro_business_server.Base.Lists.{take, drop}

abbrev pub Bytes : Type 0
Bytes = List ℕ

-- The bytes of a literal of ASCII text.
abbrev pub codes : String → Bytes
codes String.[] = []
codes (String.◌∷◌ c s) = code c ∷ codes s

-- `operator==`.
abbrev pub text_eq : Bytes → Bytes → Bool
text_eq [] [] = true
text_eq [] (y ∷ b) = false
text_eq (x ∷ a) [] = false
text_eq (x ∷ a) (y ∷ b) = (x == y) && text_eq a b

-- `operator<`, byte by byte.
abbrev pub text_lt : Bytes → Bytes → Bool
text_lt [] [] = false
text_lt [] (y ∷ b) = true
text_lt (x ∷ a) [] = false
text_lt (x ∷ a) (y ∷ b) = if x == y then text_lt a b else ltb x y

pub text_eq_iff : (a b : Bytes) → (text_eq a b ≡ true) ↔ (a ≡ b)
text_eq_iff [] [] = ground arith
text_eq_iff [] (y ∷ b) = ground arith
text_eq_iff (x ∷ a) [] = ground arith
text_eq_iff (x ∷ a) (y ∷ b) = ground (arith, text_eq_iff a b)

-- `find_first_of` for the bytes that pass a test, from the front.
unfoldable pub find_first : (ℕ → Bool) → Bytes → Option ℕ
find_first p [] = none
find_first p (c ∷ s) = if p c then some 0 else Option.map suc (find_first p s)

-- `starts_with`, for a search of a text in a text.
unfoldable pub starts_with : Bytes → Bytes → Bool
starts_with [] s = true
starts_with (x ∷ w) [] = false
starts_with (x ∷ w) (c ∷ s) = (x == c) && starts_with w s

-- `find` of a non-empty text.
unfoldable pub find_text : Bytes → Bytes → Option ℕ
find_text w [] = none
find_text w (c ∷ s) = if starts_with w (c ∷ s) then some 0 else Option.map suc (find_text w s)

-- Whether the byte at a position, if there is one, passes the test.
abbrev pub at : (ℕ → Bool) → Bytes → ℕ → Bool
at p [] i = false
at p (c ∷ s) zero = p c
at p (c ∷ s) (suc i) = at p s i

-- `find_last_of` from a position on, towards the front.
unfoldable pub find_last : (ℕ → Bool) → Bytes → ℕ → Option ℕ
find_last p s zero = if at p s 0 then some 0 else none
find_last p s (suc i) = if at p s (suc i) then some (suc i) else find_last p s i

-- `substr`; every call has a position inside the text.
abbrev pub substr : Bytes → ℕ → ℕ → Bytes
substr s i n = take n (drop i s)
