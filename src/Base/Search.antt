-- ===== src/Base/Search.antt =====
-- What the searches in a text find.
use micro_business_server.Base.Tests.{Bool-cases}
use micro_business_server.Base.Text.{Bytes, find_first, find_last, at}
use micro_business_server.Base.Lists.{All, length}
use Prim.Native.Nat.{ℕ, zero, suc, ◌≤◌, ◌<◌}
use mathlib.Core.Path.{◌≡◌, refl, ap}
use mathlib.Core.Logic.{◌⊎◌, inl, inr}
use mathlib.Core.Bool.{Bool, true, false}
use mathlib.Core.Option.{none, some}
use mathlib.Core.List.{[], ◌∷◌, ◌++◌}
use native.Mathlib.Omega.{arith}

le-suc-cases : (k i : ℕ) → k ≤ suc i → (k ≡ suc i) ⊎ (k ≤ i)
le-suc-cases k i h = omega arith

-- No byte up to a position passes the test.
pub find_last-none :
    (p : ℕ → Bool) (s : Bytes) (i : ℕ) → find_last p s i ≡ none → (k : ℕ) → k ≤ i → at p s k ≡ false
unfolding find_last
find_last-none p s zero h k le = rw (let e : k ≡ 0 = omega arith in e) (ground arith)
find_last-none p s (suc i) h k le = elim (le-suc-cases k i le) [
  | inl e ↦ rw e (ground arith)
  | inr lt ↦ ground (arith, find_last-none p s i (ground arith) k lt)
]

pub find_last-some :
    (p : ℕ → Bool) (s : Bytes) (i j : ℕ)
    → find_last p s i ≡ some j
    → (j ≤ i) × (at p s j ≡ true) × ((k : ℕ) → j < k → k ≤ i → at p s k ≡ false)
unfolding find_last
find_last-some p s zero j h = elim (Bool-cases (at p s 0)) [
  | inl e ↦ let z : j ≡ 0 = ground arith in (omega arith, rw z e, λ k a b. absurd (omega arith))
  | inr e ↦ ground arith
]
find_last-some p s (suc i) j h = elim (Bool-cases (at p s (suc i))) [
  | inl e ↦ let z : j ≡ suc i = ground arith in (omega arith, rw z e, λ k a b. absurd (omega arith))
  | inr e ↦
      let (le, hit, later) = find_last-some p s i j (rw e at h) in
      (
        omega arith,
        hit,
        λ k a b. elim (le-suc-cases k i b) [ inl z ↦ rw z e | inr lt ↦ later k a lt ],
      )
]

-- The first byte that passes stands behind a part where none does.
pub find_first-append :
    (p : ℕ → Bool) (a : Bytes) (c : ℕ) (b : Bytes)
    → All (λ x. p x ≡ false) a
    → p c ≡ true
    → find_first p (a ++ c ∷ b) ≡ some (length a)
unfolding find_first
find_first-append p [] c b h e = rw e
find_first-append p (x ∷ a) c b h e = rw (h.0, find_first-append p a c b h.1 e)

-- The parts of a text at the first byte that passes.
pub record Splits (p : ℕ → Bool) (s : Bytes) (i : ℕ) : Type 0 where
  pub front : Bytes
  pub hit : ℕ
  pub rest : Bytes
  pub is_split : s ≡ front ++ hit ∷ rest
  pub size : length front ≡ i
  pub hits : p hit ≡ true
  pub misses : All (λ x. p x ≡ false) front

find_first-cons :
    (p : ℕ → Bool) (c : ℕ) (s : Bytes) (i : ℕ)
    → p c ≡ false
    → find_first p (c ∷ s) ≡ some i
    → (j : ℕ) × (find_first p s ≡ some j) × (i ≡ suc j)
unfolding find_first
find_first-cons p c s i e h = ground arith

pub find_first-Splits : (p : ℕ → Bool) (s : Bytes) (i : ℕ) → find_first p s ≡ some i → Splits p s i
find_first-Splits p [] i h = unfold find_first in cc
find_first-Splits p (c ∷ s) i h = elim (Bool-cases (p c)) [
  | inl e ↦ record {
    front = [];
    hit = c;
    rest = s;
    is_split = refl;
    size = unfold find_first in ground arith;
    hits = e;
    misses = tt;
  }
  | inr e ↦
      let (j, found, is) = find_first-cons p c s i e h in
      let r : Splits p s j = find_first-Splits p s j found in
      record {
        front = c ∷ r.front;
        hit = r.hit;
        rest = r.rest;
        is_split = ap (◌∷◌ c) r.is_split;
        size = omega (arith, r.size);
        hits = r.hits;
        misses = (e, r.misses);
      }
]

pub find_first-misses :
    (p : ℕ → Bool) (s : Bytes) → find_first p s ≡ none → All (λ x. p x ≡ false) s
unfolding find_first
find_first-misses p [] h = tt
find_first-misses p (c ∷ s) h = elim (Bool-cases (p c)) [
  | inl e ↦ ground arith
  | inr e ↦ (e, find_first-misses p s (ground arith))
]

-- What is behind a text does not change where the first byte that passes is.
pub find_first-extend :
    (p : ℕ → Bool) (s t : Bytes) (i : ℕ)
    → find_first p s ≡ some i
    → (find_first p (s ++ t) ≡ some i) × (i < length s)
unfolding find_first
find_first-extend p [] t i h = cc
find_first-extend p (c ∷ s) t i h = elim (Bool-cases (p c)) [
  | inl e ↦ let z : i ≡ 0 = ground arith in (rw (e, z), omega arith)
  | inr e ↦
      let (j, found, is) = find_first-cons p c s i e h in
      let (later, lt) = find_first-extend p s t j found in (rw (e, later, is), omega arith)
]
