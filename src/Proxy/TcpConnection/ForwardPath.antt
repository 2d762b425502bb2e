-- ===== src/Proxy/TcpConnection/ForwardPath.antt =====
-- `find_forward_path`: the location that a request's path falls under.
use micro_business_server.Base.{
  ℕ, zero, suc, ◌+◌, ◌-◌, ◌≤◌, ◌<◌, Bool, true, false, ◌||◌, List, Option, none, some, inl, inr,
  ◌⊎◌, ◌≢◌, ◌≡◌, refl, arith, ◌==◌, Bool-cases, Option-cases, length, take,
}
use micro_business_server.Base.Int.{ℤ}
use micro_business_server.Base.Map.{Map}
use micro_business_server.Base.Search.{find_last-none, find_last-some}
use micro_business_server.Base.Text.{Bytes, find_last, at}
use micro_business_server.Proxy.TcpConnection.{
  is_slash, contains, next_pos, forward_loop, find_forward_path,
}

-- A front part of a path ends at the path's end, with a slash, or before one.
abbrev pub is_boundary : Bytes → ℕ → Bool
is_boundary path n = n == length path || at is_slash path (n - 1) || at is_slash path n

-- The lengths of the parts that can name a location. The part `/` alone is none.
abbrev pub IsCandidate : Bytes → ℕ → Type 0
IsCandidate path n = (2 ≤ n) × (n ≤ length path) × (is_boundary path n ≡ true)

module _ (table : Map Bytes (List ℤ)) (path : Bytes) where
  -- `code` is the longest candidate that the table has.
  pub record IsLongest (code : Bytes) : Type 0 where
    pub size : ℕ
    pub candidate : IsCandidate path size
    pub is_front : code ≡ take size path
    pub known : contains code table ≡ true
    pub longest : (m : ℕ) → size < m → IsCandidate path m → contains (take m path) table ≡ false

  abbrev pub Finds : Option Bytes → Type 0
  Finds none = (m : ℕ) → IsCandidate path m → contains (take m path) table ≡ false
  Finds (some code) = IsLongest code

-- What a round of the loop skips is no candidate.
record Skips (path : Bytes) (pos next : ℕ) : Type 0 where
  falls : next < pos
  at_boundary : 0 < next → is_boundary path (next + 1) ≡ true
  between : (m : ℕ) → next + 1 < m → m < pos + 1 → is_boundary path m ≡ false

not_boundary :
    (path : Bytes) (m : ℕ)
    → m ≢ length path
    → at is_slash path (m - 1) ≡ false
    → at is_slash path m ≡ false
    → is_boundary path m ≡ false
not_boundary path m n a b = ground arith

boundary_after :
    (path : Bytes) (j : ℕ) → at is_slash path j ≡ true → is_boundary path (j + 1) ≡ true
boundary_after path j h = let z : j + 1 - 1 ≡ j = omega arith in rw (z, h) (ground arith)

at-ne : (path : Bytes) (i j : ℕ) → at is_slash path i ≡ true → at is_slash path j ≡ false → i ≢ j
at-ne path i j h k e = let h' : at is_slash path j ≡ true = rw e at h in cc

module _ (path : Bytes) (pos : ℕ) where
  next_pos-at_slash : at is_slash path (suc pos) ≡ true → next_pos path (suc pos) ≡ pos
  unfolding next_pos
  next_pos-at_slash h = rw h

  module _ (other : at is_slash path (suc pos) ≡ false) where
    next_pos-none : find_last is_slash path (suc pos) ≡ none → next_pos path (suc pos) ≡ 0
    unfolding next_pos
    next_pos-none h = rw (other, h)

    next_pos-some :
        (j : ℕ) → find_last is_slash path (suc pos) ≡ some j → next_pos path (suc pos) ≡ j
    unfolding next_pos
    next_pos-some j h = rw (other, h)

next_pos-Skips :
    (path : Bytes) (pos : ℕ)
    → suc pos < length path
    → Skips path (suc pos) (next_pos path (suc pos))
next_pos-Skips path pos h = elim (Bool-cases (at is_slash path (suc pos))) [
  | inl slash ↦ rw (next_pos-at_slash path pos slash) (record {
    falls = omega arith;
    at_boundary = λ _. let e : pos + 1 ≡ suc pos = omega arith in rw (e, slash) (ground arith);
    between = λ m a b. absurd (omega arith);
  })
  | inr other ↦ elim (Option-cases (find_last is_slash path (suc pos))) [
    | inl e ↦
        let miss = find_last-none is_slash path (suc pos) e in
        rw (next_pos-none path pos other e) (record {
          falls = omega arith;
          at_boundary = λ z. absurd (omega arith);
          between = λ m a b.
              not_boundary path m (omega arith) (miss (m - 1) (omega arith)) (miss m (omega arith));
        })
    | inr (j, e) ↦
        let (le, hit, miss) = find_last-some is_slash path (suc pos) j e in
        rw (next_pos-some path pos other j e) (record {
          falls = omega (arith, at-ne path j (suc pos) hit other);
          at_boundary = λ _. boundary_after path j hit;
          between = λ m a b.
              not_boundary path m (omega arith) (miss (m - 1) (omega arith) (omega arith))
                (miss m (omega arith) (omega arith));
        })
  ]
]

order : (m n : ℕ) → (m < n) ⊎ ((m ≡ n) ⊎ (n < m))
order m n = omega arith

module _ (table : Map Bytes (List ℤ)) (path : Bytes) where
  -- The loop from a boundary on, when no longer candidate is in the table.
  forward_loop-Finds :
      (fuel pos : ℕ)
      → pos ≤ fuel
      → (0 < pos → pos < length path)
      → (0 < pos → is_boundary path (pos + 1) ≡ true)
      → ((m : ℕ) → pos + 1 < m → IsCandidate path m → contains (take m path) table ≡ false)
      → Finds table path (forward_loop fuel table path pos)
  unfolding forward_loop
  forward_loop-Finds zero pos le inside front none_longer = λ m c. none_longer m (omega arith) c
  forward_loop-Finds (suc fuel) zero le inside front none_longer =
      λ m c. none_longer m (omega arith) c
  forward_loop-Finds (suc fuel) (suc pos) le inside front none_longer =
      elim (Bool-cases (contains (take (suc pos + 1) path) table)) [
        | inl hit ↦ rw hit (record {
          size = suc pos + 1;
          candidate = (omega arith, omega (arith, inside (omega arith)), front (omega arith));
          is_front = refl;
          known = hit;
          longest = none_longer;
        })
        | inr miss ↦
            let s = next_pos-Skips path pos (inside (omega arith)) in
            rw miss (
              forward_loop-Finds fuel (next_pos path (suc pos)) (omega arith)
                (λ z. omega (arith, inside (omega arith))) s.at_boundary
                (λ m a c. shorter m s a c miss))
      ]
    where
      shorter :
          (m : ℕ)
          → Skips path (suc pos) (next_pos path (suc pos))
          → next_pos path (suc pos) + 1 < m
          → IsCandidate path m
          → contains (take (suc pos + 1) path) table ≡ false
          → contains (take m path) table ≡ false
      shorter m s a c miss = elim (order m (suc pos + 1)) [
        | inl lt ↦ let no_front = s.between m a lt in let is_front = c.2 in cc
        | inr (inl e) ↦ rw e miss
        | inr (inr gt) ↦ none_longer m gt c
      ]

-- The business code is the longest front part of the path that is a location, among those of two
-- bytes or more that are cut before or behind a slash or at the path's end; none is found only if
-- none of these is a location.
pub find_forward_path-Finds :
    (table : Map Bytes (List ℤ)) (path : Bytes) → Finds table path (find_forward_path table path)
unfolding find_forward_path
find_forward_path-Finds table path =
    forward_loop-Finds table path (length path) (length path - 1) (omega arith) (λ z. omega arith)
      (λ z. ground arith) (λ m a c. absurd (omega arith))
