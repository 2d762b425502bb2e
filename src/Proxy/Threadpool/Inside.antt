-- ===== src/Proxy/Threadpool/Inside.antt =====
-- Which thread can be inside `push`, and which inside `pop`.
use micro_business_server.Base.{ℕ, Bool, ◌⊎◌, inl, inr, ◌≡◌, refl, ap, ◌∙◌, arith}
use micro_business_server.Proxy.TaskQueue.Mutex.{
  IsWoken, NotifyOne-IsWoken, notify_all-IsWoken, put-IsWoken, put_cases,
}
use micro_business_server.Proxy.TaskQueue.{
  Thread, outside, pushing, push_deciding, push_sleeping, push_woken, popping, pop_deciding,
  pop_sleeping, pop_woken, pop_passed, State, put, sleeps_in_pop, sleeps_in_push, wake, NotifyOne,
  notify_all, Step, push_lock, push_full, push_wait, push_again, push_store, pop_lock, pop_empty,
  pop_wait, pop_again, pop_pass, pop_take, pop_null, wakeup_flag, wakeup_notify, spurious,
}

pub data Place : Type 0 where
  out in_push in_pop : Place

module _ {ℓ} {A : Type ℓ} where
  abbrev pub place : Thread A → Place
  place outside = out
  place (pushing e) = in_push
  place (push_deciding e) = in_push
  place (push_sleeping e) = in_push
  place (push_woken e) = in_push
  place popping = in_pop
  place pop_deciding = in_pop
  place pop_sleeping = in_pop
  place pop_woken = in_pop
  place pop_passed = in_pop

  wake-place : (t : Thread A) → place (wake t) ≡ place t
  unfolding wake
  wake-place t = ground arith

  -- What the step makes of a thread's place: it enters by `push_lock` or `pop_lock`.
  abbrev pub Enters : {s t : State A} → Step s t → ℕ → Place → Type 0
  Enters (push_lock i e at_i free is) j p = (i ≡ j) × (p ≡ in_push)
  Enters (pop_lock i at_i free is) j p = (i ≡ j) × (p ≡ in_pop)
  Enters _ j p = ⊥

  woken_place : (f g : ℕ → Thread A) → IsWoken f g → (j : ℕ) → place (g j) ≡ place (f j)
  woken_place f g w j = elim (w j) [
    | inl is ↦ ap place is
    | inr is ↦ ap place is ∙ wake-place (f j)
  ]

  -- A thread moves to a place; the others stay.
  put-place :
      (i : ℕ) (v : Thread A) (f : ℕ → Thread A) (j : ℕ)
      → ((i ≡ j) × (place (put i v f j) ≡ place v)) ⊎ (place (put i v f j) ≡ place (f j))
  put-place i v f j = elim (put_cases i j v f) [
    | inl (same, is) ↦ inl (same, ap place is)
    | inr (other, is) ↦ inr (ap place is)
  ]

  -- It stays in its place.
  stay_place :
      (i : ℕ) (v : Thread A) (f : ℕ → Thread A) (j : ℕ)
      → place v ≡ place (f i)
      → place (put i v f j) ≡ place (f j)
  stay_place i v f j h = elim (put-place i v f j) [
    | inl (same, is) ↦ is ∙ h ∙ ap (λ k. place (f k)) same
    | inr is ↦ is
  ]

  -- It goes out, and a notification follows.
  out_place :
      (i : ℕ) (f g : ℕ → Thread A) (sleeps : Thread A → Bool) (j : ℕ)
      → NotifyOne sleeps (put i outside f) g
      → (place (g j) ≡ place (f j)) ⊎ (place (g j) ≡ out)
  out_place i f g sleeps j w =
      let woken = woken_place (put i outside f) g (NotifyOne-IsWoken sleeps _ g w) j in
      elim (put-place i outside f j) [
        | inl (same, is) ↦ inr (woken ∙ is)
        | inr is ↦ inl (woken ∙ is)
      ]

  -- After a step each thread is where it was, or out, or has entered.
  pub Step-place :
      (s t : State A) (step : Step s t) (j : ℕ)
      → (place (t.threads j) ≡ place (s.threads j))
        ⊎ ((place (t.threads j) ≡ out) ⊎ Enters step j (place (t.threads j)))
  Step-place s t (push_lock i e at_i free is) j = elim (put-place i (pushing e) s.threads j) [
    | inl (same, p) ↦ inr (inr (same, rw is p))
    | inr p ↦ inl (rw is p)
  ]
  Step-place s t (push_full i e at_i is_full is) j =
      inl (rw is (stay_place i (push_deciding e) s.threads j (rw at_i refl)))
  Step-place s t (push_wait i e at_i is) j =
      inl (rw is (stay_place i (push_sleeping e) s.threads j (rw at_i refl)))
  Step-place s t (push_again i e at_i free is) j =
      inl (rw is (stay_place i (pushing e) s.threads j (rw at_i refl)))
  Step-place s t (push_store i e threads at_i room w is) j =
      elim (out_place i s.threads threads sleeps_in_pop j w) [
        | inl p ↦ inl (rw is p)
        | inr p ↦ inr (inl (rw is p))
      ]
  Step-place s t (pop_lock i at_i free is) j = elim (put-place i popping s.threads j) [
    | inl (same, p) ↦ inr (inr (same, rw is p))
    | inr p ↦ inl (rw is p)
  ]
  Step-place s t (pop_empty i at_i is_empty is) j =
      inl (rw is (stay_place i pop_deciding s.threads j (rw at_i refl)))
  Step-place s t (pop_wait i at_i is) j =
      inl (rw is (stay_place i pop_sleeping s.threads j (rw at_i refl)))
  Step-place s t (pop_again i at_i free is) j =
      inl (rw is (stay_place i popping s.threads j (rw at_i refl)))
  Step-place s t (pop_pass i at_i ready is) j =
      inl (rw is (stay_place i pop_passed s.threads j (rw at_i refl)))
  Step-place s t (pop_take i e rest threads at_i up front w is) j =
      elim (out_place i s.threads threads sleeps_in_push j w) [
        | inl p ↦ inl (rw is p)
        | inr p ↦ inr (inl (rw is p))
      ]
  Step-place s t (pop_null i at_i down is) j = elim (put-place i outside s.threads j) [
    | inl (same, p) ↦ inr (inl (rw is p))
    | inr p ↦ inl (rw is p)
  ]
  Step-place s t (wakeup_flag is) j = inl (rw is refl)
  Step-place s t (wakeup_notify down is) j =
      inl (rw is (woken_place s.threads (notify_all s.threads) (notify_all-IsWoken s.threads) j))
  Step-place s t (spurious i is) j =
      inl (rw is (woken_place s.threads _ (put-IsWoken i s.threads) j))

  -- The thread that gets the result of `pop` is out.
  abbrev pub Returns : {s t : State A} → Step s t → ℕ → Type 0
  Returns (pop_take i e rest threads at_i up front w is) j = i ≡ j
  Returns (pop_null i at_i down is) j = i ≡ j
  Returns _ j = ⊥

  put_here : (i j : ℕ) (v : Thread A) (f : ℕ → Thread A) → i ≡ j → put i v f j ≡ v
  put_here i j v f same = elim (put_cases i j v f) [
    | inl (_, is) ↦ is
    | inr (other, _) ↦ absurd (other same)
  ]

  pub Returns-out :
      (s t : State A) (step : Step s t) (j : ℕ)
      → Returns step j
      → (place (s.threads j) ≡ in_pop) × (place (t.threads j) ≡ out)
  Returns-out s t (pop_take i e rest threads at_i up front w is) j same =
      let woken =
        woken_place (put i outside s.threads) threads (NotifyOne-IsWoken sleeps_in_push _ threads w)
          j in
      (rw (← same) (rw at_i refl), rw is (woken ∙ ap place (put_here i j outside s.threads same)))
  Returns-out s t (pop_null i at_i down is) j same =
      (rw (← same) (rw at_i refl), rw is (ap place (put_here i j outside s.threads same)))
  Returns-out s t _ j same = absurd same
