-- ===== src/Proxy/TaskQueue/LostWakeup.antt =====
-- `wakeup` does not take the mutex: a thread of `pop` that has read `_flag` and does not yet wait
-- misses it.
use micro_business_server.Base.{ℕ, Bool, true, false, none, inl, inr, ◌≡◌, refl, sym, ap, ◌∙◌}
use micro_business_server.Proxy.TaskQueue.{
  Thread, outside, pushing, push_deciding, push_sleeping, popping, pop_deciding, pop_sleeping,
  pop_passed, State, put, sleeps_in_pop, sleeps_in_push, wake, NotifyOne, nobody, one, notify_all,
  Step, Steps, start, then_step, push_lock, push_full, push_wait, push_again, push_store, pop_lock,
  pop_empty, pop_wait, pop_again, pop_pass, pop_take, pop_null, wakeup_flag, wakeup_notify,
  spurious,
}
use micro_business_server.Proxy.TaskQueue.Mutex.{put_cases}

module _ {ℓ} {A : Type ℓ} where
  -- The steps that can wake a thread in `pop`: a task is stored, another `wakeup`, no reason.
  abbrev pub notifies : {s t : State A} → Step s t → Bool
  notifies (push_store i e threads at_i room w is) = true
  notifies (wakeup_notify shut is) = true
  notifies (spurious i is) = true
  notifies _ = false

  -- Runs without such steps.
  pub data Quietly (s : State A) : State A → Type ℓ where
    no_step : Quietly s s
    quiet_step :
        {t u : State A} → Quietly s t → (step : Step t u) → notifies step ≡ false → Quietly s u

  module _ (s : State A) (i : ℕ) (asleep : s.threads i ≡ pop_sleeping) where
    put-asleep :
        (j : ℕ) (v : Thread A)
        → sleeps_in_pop (s.threads j) ≡ false
        → put j v s.threads i ≡ pop_sleeping
    put-asleep j v awake = elim (put_cases j i v s.threads) [
      | inl (same, is) ↦
          let here : s.threads j ≡ pop_sleeping = rw same asleep in
          let no : true ≡ false = sym (ap sleeps_in_pop here) ∙ awake in absurd cc
      | inr (other, is) ↦ is ∙ asleep
    ]

  NotifyOne-asleep :
      (f g : ℕ → Thread A) (i : ℕ)
      → f i ≡ pop_sleeping
      → NotifyOne sleeps_in_push f g
      → g i ≡ pop_sleeping
  NotifyOne-asleep f g i asleep (nobody awake same) = ap (λ h. h i) same ∙ asleep
  NotifyOne-asleep f g i asleep (one j sleeps_here is) = elim (put_cases j i (wake (f j)) f) [
    | inl (same, _) ↦
        let no : false ≡ true = sym (ap sleeps_in_push (ap f same ∙ asleep)) ∙ sleeps_here in
        absurd cc
    | inr (other, kept) ↦ ap (λ h. h i) is ∙ kept ∙ asleep
  ]

  pub Step-asleep :
      (s t : State A) (i : ℕ) (step : Step s t)
      → notifies step ≡ false
      → s.threads i ≡ pop_sleeping
      → t.threads i ≡ pop_sleeping
  Step-asleep s t i (push_lock j e at_j free is) q h =
      rw is (put-asleep s i h j (pushing e) (rw at_j refl))
  Step-asleep s t i (push_full j e at_j is_full is) q h =
      rw is (put-asleep s i h j (push_deciding e) (rw at_j refl))
  Step-asleep s t i (push_wait j e at_j is) q h =
      rw is (put-asleep s i h j (push_sleeping e) (rw at_j refl))
  Step-asleep s t i (push_again j e at_j free is) q h =
      rw is (put-asleep s i h j (pushing e) (rw at_j refl))
  Step-asleep s t i (push_store j e threads at_j room w is) q h = absurd cc
  Step-asleep s t i (pop_lock j at_j free is) q h =
      rw is (put-asleep s i h j popping (rw at_j refl))
  Step-asleep s t i (pop_empty j at_j is_empty is) q h =
      rw is (put-asleep s i h j pop_deciding (rw at_j refl))
  Step-asleep s t i (pop_wait j at_j is) q h =
      rw is (put-asleep s i h j pop_sleeping (rw at_j refl))
  Step-asleep s t i (pop_again j at_j free is) q h =
      rw is (put-asleep s i h j popping (rw at_j refl))
  Step-asleep s t i (pop_pass j at_j ready is) q h =
      rw is (put-asleep s i h j pop_passed (rw at_j refl))
  Step-asleep s t i (pop_take j e rest threads at_j up front w is) q h =
      rw is (NotifyOne-asleep _ threads i (put-asleep s i h j outside (rw at_j refl)) w)
  Step-asleep s t i (pop_null j at_j shut is) q h =
      rw is (put-asleep s i h j outside (rw at_j refl))
  Step-asleep s t i (wakeup_flag is) q h = rw is h
  Step-asleep s t i (wakeup_notify shut is) q h = absurd cc
  Step-asleep s t i (spurious j is) q h = absurd cc

  Quietly-asleep :
      (s t : State A) (i : ℕ)
      → Quietly s t
      → s.threads i ≡ pop_sleeping
      → t.threads i ≡ pop_sleeping
  Quietly-asleep s u i no_step h = h
  Quietly-asleep s u i (quiet_step {t} run step q) h =
      Step-asleep t u i step q (Quietly-asleep s t i run h)

  -- `s` and then a whole call of `wakeup`.
  abbrev pub after_wakeup : State A → State A
  after_wakeup s = record s {
    queue = record s.queue { flag = false };
    threads = notify_all s.threads;
  }

  wakeup_Steps : (s : State A) → Steps s (after_wakeup s)
  wakeup_Steps s = then_step (then_step start (wakeup_flag refl)) (wakeup_notify refl refl)

  pub notify_all-deciding :
      (f : ℕ → Thread A) (i : ℕ) → f i ≡ pop_deciding → notify_all f i ≡ pop_deciding
  unfolding notify_all
  notify_all-deciding f i h = rw (notify_all, h)

  -- A thread that has found the queue open and empty, and does not yet wait, misses a whole call of
  -- `wakeup`: it goes to sleep behind it with the queue shut, and sleeps on in every run in which
  -- no task is stored, `wakeup` is not called again and no thread wakes for no reason.
  pub pop-misses_wakeup :
      (s : State A) (i : ℕ)
      → s.threads i ≡ pop_deciding
      → (t : State A) × Steps (after_wakeup s) t
        × (t.flag ≡ false)
        × (t.threads i ≡ pop_sleeping)
        × ((u : State A) → Quietly t u → u.threads i ≡ pop_sleeping)
  pop-misses_wakeup s i h =
      let t : State A = record (after_wakeup s) {
        threads = put i pop_sleeping (notify_all s.threads);
        holder = none;
      } in
      let asleep = put-self i pop_sleeping (notify_all s.threads) in
      (
        t,
        then_step start (pop_wait i (notify_all-deciding s.threads i h) refl),
        refl,
        asleep,
        λ u run. Quietly-asleep t u i run asleep,
      )
    where
      put-self : (i : ℕ) (v : Thread A) (f : ℕ → Thread A) → put i v f i ≡ v
      put-self i v f = elim (put_cases i i v f) [
        | inl (same, is) ↦ is
        | inr (other, is) ↦ absurd (other refl)
      ]
