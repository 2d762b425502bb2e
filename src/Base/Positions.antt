-- ===== src/Base/Positions.antt =====
-- Bytes at a position, and the parts of a text before and behind it.
use micro_business_server.Base.Tests.{◌==◌}
use micro_business_server.Base.Text.{Bytes, find_first, find_last, at}
use micro_business_server.Base.Lists.{All, length, take, drop}
use micro_business_server.Base.Search.{Splits, find_first-Splits}
use Prim.Native.Nat.{ℕ, zero, suc, ◌+◌, ◌≤◌, ◌<◌}
use mathlib.Core.Path.{◌≡◌, refl, ap, ◌∙◌}
use mathlib.Core.Logic.{◌⊎◌, inl, inr}
use mathlib.Core.Bool.{Bool, true, false}
use mathlib.Core.Option.{some}
use mathlib.Core.List.{List, [], ◌∷◌, ◌++◌}
use native.Mathlib.Omega.{arith}

pub at-append : (p : ℕ → Bool) (a b : Bytes) (i : ℕ) → at p (a ++ b) (length a + i) ≡ at p b i
at-append p [] b i = let e : 0 + i ≡ i = omega arith in rw e
at-append p (x ∷ a) b i =
    let e : suc (length a) + i ≡ suc (length a + i) = omega arith in rw e (at-append p a b i)

pub at-All : (p : ℕ → Bool) (s : Bytes) (i : ℕ) → All (λ x. p x ≡ false) s → at p s i ≡ false
at-All p [] i h = refl
at-All p (x ∷ s) zero h = h.0
at-All p (x ∷ s) (suc i) h = at-All p s i h.1

pub at-drop : (p : ℕ → Bool) (n : ℕ) (s : Bytes) (i : ℕ) → at p (drop n s) i ≡ at p s (n + i)
at-drop p zero s i = let e : 0 + i ≡ i = omega arith in rw e
at-drop p (suc n) [] i = refl
at-drop p (suc n) (x ∷ s) i =
    let e : suc n + i ≡ suc (n + i) = omega arith in rw e (at-drop p n s i)

pub at-lt-length : (p : ℕ → Bool) (s : Bytes) (i : ℕ) → at p s i ≡ true → i < length s
at-lt-length p [] i h = cc
at-lt-length p (x ∷ s) zero h = omega arith
at-lt-length p (x ∷ s) (suc i) h = omega (arith, at-lt-length p s i h)

-- A text falls apart at a byte of it.
pub at-split :
    (c : ℕ) (s : Bytes) (i : ℕ) → at (λ x. x == c) s i ≡ true → s ≡ take i s ++ c ∷ drop (i + 1) s
at-split c [] i h = cc
at-split c (x ∷ s) zero h = let e : x ≡ c = ground arith in rw e
at-split c (x ∷ s) (suc i) h =
    let e : suc i + 1 ≡ suc (i + 1) = omega arith in rw e (ap (◌∷◌ x) (at-split c s i h))

pub drop_nil {ℓ} : {A : Type ℓ} (n : ℕ) → drop {A = A} n [] ≡ []
drop_nil zero = refl
drop_nil (suc n) = refl

pub drop-drop {ℓ} : {A : Type ℓ} (m n : ℕ) (s : List A) → drop m (drop n s) ≡ drop (n + m) s
drop-drop m zero s = let e : 0 + m ≡ m = omega arith in rw e
drop-drop m (suc n) [] = let e : suc n + m ≡ suc (n + m) = omega arith in rw e (drop_nil m)
drop-drop m (suc n) (x ∷ s) =
    let e : suc n + m ≡ suc (n + m) = omega arith in rw e (drop-drop m n s)

pub take-front {ℓ} : {A : Type ℓ} (a b : List A) (n : ℕ) → n ≡ length a → take n (a ++ b) ≡ a
take-front [] b n e = rw e
take-front (x ∷ a) b n e = rw e (ap (◌∷◌ x) (take-front a b (length a) refl))

pub drop-front {ℓ} : {A : Type ℓ} (a b : List A) (n : ℕ) → n ≡ length a → drop n (a ++ b) ≡ b
drop-front [] b n e = rw e
drop-front (x ∷ a) b n e = rw e (drop-front a b (length a) refl)

pub drop_past {ℓ} :
    {A : Type ℓ} (a : List A) (c : A) (b : List A) (n : ℕ)
    → n ≡ length a + 1
    → drop n (a ++ c ∷ b) ≡ b
drop_past [] c b n e = rw e
drop_past (x ∷ a) c b n e =
    let z : n ≡ suc (length a + 1) = omega arith in rw z (drop_past a c b (length a + 1) refl)

pub find_first-at : (p : ℕ → Bool) (s : Bytes) (i : ℕ) → find_first p s ≡ some i → at p s i ≡ true
find_first-at p s i h =
    let r : Splits p s i = find_first-Splits p s i h in
    let z : i ≡ length r.front + 0 = omega (arith, r.size) in
    rw (r.is_split, z) (at-append p r.front (r.hit ∷ r.rest) 0 ∙ r.hits)

pub at_here : (p : ℕ → Bool) (a : Bytes) (c : ℕ) (b : Bytes) → at p (a ++ c ∷ b) (length a) ≡ p c
at_here p [] c b = refl
at_here p (x ∷ a) c b = at_here p a c b

at_beyond :
    (p : ℕ → Bool) (a : Bytes) (c : ℕ) (b : Bytes) (i : ℕ)
    → All (λ x. p x ≡ false) b
    → length a < i
    → at p (a ++ c ∷ b) i ≡ false
at_beyond p [] c b zero k lt = absurd (omega arith)
at_beyond p [] c b (suc i) k lt = at-All p b i k
at_beyond p (x ∷ a) c b zero k lt = absurd (omega arith)
at_beyond p (x ∷ a) c b (suc i) k lt = at_beyond p a c b i k (omega arith)

le-cases : (n i : ℕ) → n ≤ suc i → (n ≡ suc i) ⊎ (n ≤ i)
le-cases n i h = omega arith

-- The last byte that passes stands before a part where none does.
pub find_last-append :
    (p : ℕ → Bool) (a : Bytes) (c : ℕ) (b : Bytes) (i : ℕ)
    → p c ≡ true
    → All (λ x. p x ≡ false) b
    → length a ≤ i
    → find_last p (a ++ c ∷ b) i ≡ some (length a)
unfolding find_last
find_last-append p [] c b zero h k le = rw h
find_last-append p (x ∷ a) c b zero h k le = absurd (omega arith)
find_last-append p a c b (suc i) h k le = elim (le-cases (length a) i le) [
  | inl e ↦ rw (← e, at_here p a c b, h)
  | inr lt ↦ rw (at_beyond p a c b (suc i) k (omega arith)) (find_last-append p a c b i h k lt)
]

pub drop_plus {ℓ} :
    {A : Type ℓ} (a b : List A) (n k : ℕ) → n ≡ length a + k → drop n (a ++ b) ≡ drop k b
drop_plus [] b n k e = let z : n ≡ k = omega arith in rw z
drop_plus (x ∷ a) b n k e =
    let z : n ≡ suc (length a + k) = omega arith in rw z (drop_plus a b (length a + k) k refl)

pub take_past {ℓ} :
    {A : Type ℓ} (a : List A) (c : A) (b : List A) → take (length a + 1) (a ++ c ∷ b) ≡ a ++ c ∷ []
take_past [] c b = refl
take_past (x ∷ a) c b =
    let z : suc (length a) + 1 ≡ suc (length a + 1) = omega arith in
    rw z (ap (◌∷◌ x) (take_past a c b))

pub take_whole {ℓ} : {A : Type ℓ} (n : ℕ) (s : List A) → length s ≤ n → take n s ≡ s
take_whole zero [] h = refl
take_whole (suc n) [] h = refl
take_whole zero (x ∷ s) h = absurd (omega arith)
take_whole (suc n) (x ∷ s) h = ap (◌∷◌ x) (take_whole n s (omega arith))
