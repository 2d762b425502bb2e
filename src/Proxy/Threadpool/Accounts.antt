-- ===== src/Proxy/Threadpool/Accounts.antt =====
-- What the workers have in hand, and the invariant of the pool.
use micro_business_server.Base.{
  ℕ, zero, suc, ◌+◌, ◌≤◌, ◌<◌, Bool, true, false, List, [], ◌∷◌, ◌++◌, some, ◌≢◌, ◌⊎◌, inl, inr,
  ◌≡◌, refl, ap, arith, ◌==◌, if◌then◌else◌, Bool-cases,
}
use micro_business_server.Proxy.Threadpool.Inside.{out, in_push, in_pop, place}
use micro_business_server.Proxy.Threadpool.{
  Worker, at_test, getting, finished, absent, handed, Main, serving, draining, stopped, joining,
  Threadpool, put_worker, IsGetting, IsOver,
}

module _ {ℓ} {A : Type ℓ} where
  -- How many elements pass a test.
  unfoldable pub tally : (A → Bool) → List A → ℕ
  tally p [] = 0
  tally p (x ∷ xs) = (if p x then 1 else 0) + tally p xs

  pub tally-append : (p : A → Bool) (xs ys : List A) → tally p (xs ++ ys) ≡ tally p xs + tally p ys
  unfolding tally
  tally-append p [] ys = omega arith
  tally-append p (x ∷ xs) ys = omega (arith, tally-append p xs ys)

  pub tally_one : (p : A → Bool) (x : A) → tally p (x ∷ []) ≡ (if p x then 1 else 0)
  unfolding tally
  tally_one p x = omega arith

  -- The task in a worker's hand, if it passes the test.
  abbrev pub hand : (A → Bool) → Worker A → ℕ
  hand p (handed (some e)) = if p e then 1 else 0
  hand p _ = 0

  unfoldable pub hands : (A → Bool) → (ℕ → Worker A) → ℕ → ℕ
  hands p f zero = 0
  hands p f (suc n) = hand p (f n) + hands p f n

  pub put_worker_cases :
      (i j : ℕ) (w : Worker A) (f : ℕ → Worker A)
      → ((i ≡ j) × (put_worker i w f j ≡ w)) ⊎ ((i ≢ j) × (put_worker i w f j ≡ f j))
  unfolding put_worker
  put_worker_cases i j w f = elim (Bool-cases (i == j)) [
    | inl e ↦ inl (grind arith, rw (put_worker, e))
    | inr e ↦ inr (grind arith, rw (put_worker, e))
  ]

  hands-put_above :
      (p : A → Bool) (i : ℕ) (w : Worker A) (f : ℕ → Worker A) (n : ℕ)
      → n ≤ i
      → hands p (put_worker i w f) n ≡ hands p f n
  unfolding hands
  hands-put_above p i w f zero h = refl
  hands-put_above p i w f (suc n) h = elim (put_worker_cases i n w f) [
    | inl (same, is) ↦ absurd (omega arith)
    | inr (other, is) ↦ rw (is, hands-put_above p i w f n (omega arith))
  ]

  pub hands-put :
      (p : A → Bool) (i : ℕ) (w : Worker A) (f : ℕ → Worker A) (n : ℕ)
      → i < n
      → hands p (put_worker i w f) n + hand p (f i) ≡ hands p f n + hand p w
  unfolding hands
  hands-put p i w f zero h = absurd (omega arith)
  hands-put p i w f (suc n) h = elim (put_worker_cases i n w f) [
    | inl (same, is) ↦
        let here : hand p (f i) ≡ hand p (f n) = ap (λ k. hand p (f k)) same in
        let rest = hands-put_above p i w f n (omega arith) in rw is (omega (arith, here, rest))
    | inr (other, is) ↦ rw is (omega (arith, hands-put p i w f n (omega arith)))
  ]

  pub hands-none :
      (p : A → Bool) (f : ℕ → Worker A) (n : ℕ)
      → ((k : ℕ) → k < n → hand p (f k) ≡ 0)
      → hands p f n ≡ 0
  unfolding hands
  hands-none p f zero h = refl
  hands-none p f (suc n) h =
      omega (arith, h n (omega arith), hands-none p f n (λ k lt. h k (omega arith)))

  abbrev pub IsAbsent : Worker A → Type 0
  IsAbsent absent = Unit
  IsAbsent _ = ⊥

  -- How a worker stands that is inside `pop`, is over, or is not there.
  pub getting-free :
      (w : Worker A) → IsGetting w → ¬ IsOver w × ¬ IsAbsent w × ((p : A → Bool) → hand p w ≡ 0)
  getting-free getting h = ((λ x. x), (λ x. x), λ p. refl)
  getting-free at_test h = absurd h
  getting-free finished h = absurd h
  getting-free absent h = absurd h
  getting-free (handed o) h = absurd h

  pub over-empty : (p : A → Bool) (w : Worker A) → IsOver w → hand p w ≡ 0
  over-empty p finished h = refl
  over-empty p absent h = refl
  over-empty p at_test h = absurd h
  over-empty p getting h = absurd h
  over-empty p (handed o) h = absurd h

-- The main thread is in the event loop.
abbrev pub serves : Main → Bool
serves serving = true
serves _ = false

-- It has found the queue empty.
abbrev pub found_empty : Main → Bool
found_empty serving = false
found_empty draining = false
found_empty _ = true

-- How many of the workers it has joined.
abbrev pub joined_count : ℕ → Main → ℕ
joined_count n (joining k) = k
joined_count n stopped = n
joined_count n _ = 0

pub record PoolInv {ℓ} {A : Type ℓ} (s : Threadpool A) : Type ℓ where
  pub late : serves s.main ≡ false → place (s.taskque.threads s.thread_num) ≡ out
  pub pushers : (i : ℕ) → place (s.taskque.threads i) ≡ in_push → i ≡ s.thread_num
  pub poppers : (i : ℕ) → place (s.taskque.threads i) ≡ in_pop → IsGetting (s.workers i)
  pub members : (i : ℕ) → s.thread_num ≤ i → IsAbsent (s.workers i)
  pub emptied : found_empty s.main ≡ true → s.taskque.que ≡ []
  pub joined : (k : ℕ) → k < joined_count s.thread_num s.main → IsOver (s.workers k)
  pub accounts :
      (p : A → Bool)
      → tally p s.processed + hands p s.workers s.thread_num ≡ tally p s.taskque.taken
