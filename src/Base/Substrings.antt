-- ===== src/Base/Substrings.antt =====
-- Searching a text in a text.
use micro_business_server.Base.Tests.{◌==◌}
use micro_business_server.Base.Text.{Bytes, find_text, starts_with}
use micro_business_server.Base.Lists.{All, length}
use Prim.Native.Nat.{ℕ, suc, ◌+◌, ◌≤◌}
use mathlib.Core.Path.{◌≡◌, refl, ap}
use mathlib.Core.Logic.{◌⊎◌, inl, inr}
use mathlib.Core.Bool.{true, false, ◌&&◌}
use mathlib.Core.Option.{none, some}
use mathlib.Core.List.{[], ◌∷◌, ◌++◌}
use native.Mathlib.Omega.{arith}

pub starts_with-append : (w t : Bytes) → starts_with w (w ++ t) ≡ true
unfolding starts_with
starts_with-append [] t = refl
starts_with-append (x ∷ w) t = ground (arith, starts_with-append w t)

-- A text that fits into the front part is looked for there only.
starts_with_front : (w s t : Bytes) → length w ≤ length s → starts_with w (s ++ t) ≡ starts_with w s
unfolding starts_with
starts_with_front [] s t h = refl
starts_with_front (x ∷ w) [] t h = absurd (omega arith)
starts_with_front (x ∷ w) (c ∷ s) t h =
    ap (λ b. (x == c) && b) (starts_with_front w s t (omega arith))

starts_with_fits : (w s : Bytes) → starts_with w s ≡ true → length w ≤ length s
unfolding starts_with
starts_with_fits [] s h = omega arith
starts_with_fits (x ∷ w) [] h = cc
starts_with_fits (x ∷ w) (c ∷ s) h = omega (arith, starts_with_fits w s (ground arith))

-- The first text, or a later one.
find_text-cons :
    (w : Bytes) (c : ℕ) (s : Bytes) (i : ℕ)
    → find_text w (c ∷ s) ≡ some i
    → ((starts_with w (c ∷ s) ≡ true) × (i ≡ 0))
      ⊎ ((j : ℕ) × (starts_with w (c ∷ s) ≡ false) × (find_text w s ≡ some j) × (i ≡ suc j))
unfolding find_text
find_text-cons w c s i h = ground arith

find_text_fits : (w s : Bytes) (i : ℕ) → find_text w s ≡ some i → length w + i ≤ length s
unfolding find_text
find_text_fits w [] i h = cc
find_text_fits w (c ∷ s) i h = elim (find_text-cons w c s i h) [
  | inl (hit, z) ↦ omega (arith, starts_with_fits w (c ∷ s) hit)
  | inr (j, miss, later, z) ↦ omega (arith, find_text_fits w s j later)
]

-- What is behind a text does not change where a text in it is found.
pub find_text-append :
    (w s t : Bytes) (i : ℕ) → find_text w s ≡ some i → find_text w (s ++ t) ≡ some i
unfolding find_text
find_text-append w [] t i h = cc
find_text-append w (c ∷ s) t i h = elim (find_text-cons w c s i h) [
  | inl (hit, z) ↦ rw (starts_with_front w (c ∷ s) t (starts_with_fits w (c ∷ s) hit), hit, z)
  | inr (j, miss, later, z) ↦
      let fits : length w ≤ length (c ∷ s) = omega (arith, find_text_fits w s j later) in
      rw (starts_with_front w (c ∷ s) t fits, miss, find_text-append w s t j later, z)
]

-- A text without a certain byte is found before that byte or behind it.
starts_with_line :
    (w s t : Bytes) (b : ℕ)
    → All (λ x. (x == b) ≡ false) w
    → starts_with w (s ++ b ∷ t) ≡ starts_with w s
unfolding starts_with
starts_with_line [] s t b h = refl
starts_with_line (x ∷ w) [] t b h = rw h.0
starts_with_line (x ∷ w) (c ∷ s) t b h = ap (λ z. (x == c) && z) (starts_with_line w s t b h.1)

no_front : (x : ℕ) (w : Bytes) → starts_with (x ∷ w) [] ≡ false
unfolding starts_with
no_front x w = refl

-- A text is found behind the first `b` that stands before it, if it is not found earlier.
pub find_text_behind :
    (w s t : Bytes) (b x : ℕ)
    → All (λ y. (y == b) ≡ false) (x ∷ w)
    → find_text (x ∷ w) s ≡ none
    → find_text (x ∷ w) (s ++ b ∷ (x ∷ w ++ t)) ≡ some (length s + 1)
unfolding find_text
find_text_behind w [] t b x h n = ground (
  arith,
  starts_with_line (x ∷ w) [] (x ∷ w ++ t) b h,
  no_front x w,
  starts_with-append (x ∷ w) t,
)
find_text_behind w (c ∷ s) t b x h n =
    ground (arith, starts_with_line (x ∷ w) (c ∷ s) (x ∷ w ++ t) b h, find_text_behind w s t b x h)
