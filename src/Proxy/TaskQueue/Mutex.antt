-- ===== src/Proxy/TaskQueue/Mutex.antt =====
-- Who has the mutex, and what threads that are woken or move keep.
use micro_business_server.Base.{
  ℕ, Bool, true, false, List, [], Option, none, some, ◌≢◌, ◌⊎◌, inl, inr, ◌≡◌, refl, sym, ap, ◌∙◌,
  arith, ◌==◌, Bool-cases,
}
use micro_business_server.Proxy.TaskQueue.{
  Thread, pushing, push_deciding, popping, pop_deciding, pop_passed, put, wake, NotifyOne, nobody,
  one, notify_all,
}

module _ {ℓ} {A : Type ℓ} where
  -- The thread has the mutex.
  abbrev pub holds : Thread A → Bool
  holds (pushing e) = true
  holds (push_deciding e) = true
  holds popping = true
  holds pop_deciding = true
  holds pop_passed = true
  holds _ = false

  abbrev pub passed : Thread A → Bool
  passed pop_passed = true
  passed _ = false

  -- Who has the mutex is who is said to have it.
  abbrev pub Exclusive : Option ℕ → (ℕ → Thread A) → Type 0
  Exclusive holder threads = (i : ℕ) → holds (threads i) ≡ true → holder ≡ some i

  -- What a thread behind the loop of `pop` relies on: a task is there, or the queue is shut.
  abbrev pub CanRead : Bool → List A → (ℕ → Thread A) → Type ℓ
  CanRead flag que threads = (i : ℕ) → passed (threads i) ≡ true → (flag ≡ false) ⊎ (que ≢ [])

  pub wake-holds : (t : Thread A) → holds (wake t) ≡ holds t
  unfolding wake
  wake-holds t = ground arith

  pub wake-passed : (t : Thread A) → passed (wake t) ≡ passed t
  unfolding wake
  wake-passed t = ground arith

  pub put_cases :
      (i j : ℕ) (v : Thread A) (f : ℕ → Thread A)
      → ((i ≡ j) × (put i v f j ≡ v)) ⊎ ((i ≢ j) × (put i v f j ≡ f j))
  unfolding put
  put_cases i j v f = elim (Bool-cases (i == j)) [
    | inl e ↦ inl (grind arith, rw (put, e))
    | inr e ↦ inr (grind arith, rw (put, e))
  ]

  -- `g` is `f` but for threads that have been woken.
  abbrev pub IsWoken : (ℕ → Thread A) → (ℕ → Thread A) → Type ℓ
  IsWoken f g = (j : ℕ) → (g j ≡ f j) ⊎ (g j ≡ wake (f j))

  pub put-IsWoken : (i : ℕ) (f : ℕ → Thread A) → IsWoken f (put i (wake (f i)) f)
  put-IsWoken i f j = elim (put_cases i j (wake (f i)) f) [
    | inl (same, is) ↦ inr (is ∙ ap (λ k. wake (f k)) same)
    | inr (other, is) ↦ inl is
  ]

  pub NotifyOne-IsWoken :
      (sleeps : Thread A → Bool) (f g : ℕ → Thread A) → NotifyOne sleeps f g → IsWoken f g
  NotifyOne-IsWoken sleeps f g (nobody none_sleeps same) j = inl (ap (λ h. h j) same)
  NotifyOne-IsWoken sleeps f g (one i sleeps_here is) j = elim (put-IsWoken i f j) [
    | inl e ↦ inl (ap (λ h. h j) is ∙ e)
    | inr e ↦ inr (ap (λ h. h j) is ∙ e)
  ]

  pub notify_all-IsWoken : (f : ℕ → Thread A) → IsWoken f (notify_all f)
  unfolding notify_all
  notify_all-IsWoken f j = ground arith

  module _ (f g : ℕ → Thread A) (woken : IsWoken f g) where
    pub Exclusive-woken : (h : Option ℕ) → Exclusive h f → Exclusive h g
    Exclusive-woken h ex j e = elim (woken j) [
      | inl is ↦ ex j (rw is at e)
      | inr is ↦ ex j (sym (wake-holds (f j)) ∙ (rw is at e))
    ]

    pub CanRead-woken : (flag : Bool) (que : List A) → CanRead flag que f → CanRead flag que g
    CanRead-woken flag que can j e = elim (woken j) [
      | inl is ↦ can j (rw is at e)
      | inr is ↦ can j (sym (wake-passed (f j)) ∙ (rw is at e))
    ]

  module _ (i : ℕ) (v : Thread A) (f : ℕ → Thread A) where
    pub Exclusive-put :
        (h k : Option ℕ)
        → Exclusive h f
        → (holds v ≡ true → k ≡ some i)
        → ((j : ℕ) → i ≢ j → h ≡ some j → k ≡ some j)
        → Exclusive k (put i v f)
    Exclusive-put h k ex mine others j e = elim (put_cases i j v f) [
      | inl (same, is) ↦ mine (rw is at e) ∙ ap some same
      | inr (other, is) ↦ others j other (ex j (rw is at e))
    ]

    -- The thread takes the mutex that nobody has.
    pub Exclusive-lock : (h : Option ℕ) → Exclusive h f → h ≡ none → Exclusive (some i) (put i v f)
    Exclusive-lock h ex free = Exclusive-put h (some i) ex (λ _. refl) (λ j ne e. cc)

    -- It keeps the mutex.
    pub Exclusive-keep :
        (h : Option ℕ) → Exclusive h f → holds (f i) ≡ true → Exclusive h (put i v f)
    Exclusive-keep h ex mine = Exclusive-put h h ex (λ _. ex i mine) (λ j ne e. e)

    -- It gives the mutex back.
    pub Exclusive-unlock :
        (h : Option ℕ)
        → Exclusive h f
        → holds (f i) ≡ true
        → holds v ≡ false
        → Exclusive none (put i v f)
    Exclusive-unlock h ex mine free =
        Exclusive-put h none ex (λ e. cc)
          (λ j ne e. let is : h ≡ some i = ex i mine in let same : i ≡ j = cc in absurd (ne same))

    pub CanRead-put :
        (flag : Bool) (que : List A)
        → CanRead flag que f
        → (passed v ≡ true → (flag ≡ false) ⊎ (que ≢ []))
        → CanRead flag que (put i v f)
    CanRead-put flag que can mine j e = elim (put_cases i j v f) [
      | inl (same, is) ↦ mine (rw is at e)
      | inr (other, is) ↦ can j (rw is at e)
    ]

  -- Nobody is behind the loop of `pop` while the mutex is free.
  pub passed-holds : (t : Thread A) → passed t ≡ true → holds t ≡ true
  passed-holds t h = ground arith

  pub CanRead-free :
      (flag : Bool) (que : List A) (f : ℕ → Thread A) → Exclusive none f → CanRead flag que f
  CanRead-free flag que f ex j e = let is : none ≡ some j = ex j (passed-holds (f j) e) in cc
