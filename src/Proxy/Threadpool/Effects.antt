-- ===== src/Proxy/Threadpool/Effects.antt =====
-- What a step of the queue changes in the pool.
use micro_business_server.Base.{
  ℕ, true, false, [], none, some, ◌≢◌, ◌⊎◌, inl, inr, ◌≡◌, refl, sym, ◌∙◌, arith,
}
use micro_business_server.Proxy.TaskQueue.{
  State, Step, push_lock, push_full, push_wait, push_again, push_store, pop_lock, pop_empty,
  pop_wait, pop_again, pop_pass, pop_take, pop_null, wakeup_flag, wakeup_notify, spurious,
}
use micro_business_server.Proxy.Threadpool.Accounts.{
  put_worker_cases, serves, found_empty, joined_count,
}
use micro_business_server.Proxy.Threadpool.Inside.{
  Place, out, in_push, in_pop, place, Enters, Returns,
}
use micro_business_server.Proxy.Threadpool.{
  Worker, handed, Main, serving, Threadpool, IsGetting, IsAllowed, workers_after, main_after,
}

pub place-cases : (p : Place) → (p ≡ out) ⊎ ((p ≡ in_push) ⊎ (p ≡ in_pop))
place-cases out = inl refl
place-cases in_push = inr (inl refl)
place-cases in_pop = inr (inr refl)

pub found_empty-late : (m : Main) → found_empty m ≡ true → serves m ≡ false
found_empty-late m h = ground arith

module _ {ℓ} {A : Type ℓ} where
  -- Who enters is the main thread, to push, or a worker in `getRequest`.
  pub Enters-allowed :
      (s : Threadpool A) (q : State A) (step : Step s.taskque q) (j : ℕ) (p : Place)
      → IsAllowed s step
      → Enters step j p
      → ((p ≡ in_push) × (j ≡ s.thread_num) × (s.main ≡ serving))
        ⊎ ((p ≡ in_pop) × IsGetting (s.workers j))
  Enters-allowed s q (push_lock i e at_i free is) j p allowed (same, push) =
      inl (push, sym same ∙ allowed.0, allowed.1)
  Enters-allowed s q (pop_lock i at_i free is) j p allowed (same, pop) =
      inr (pop, rw (← same) allowed)
  Enters-allowed s q _ j p allowed enters = absurd enters

  -- The tests of the main thread's state come out as before.
  pub main_after_tests :
      (s : Threadpool A) (q : State A) (step : Step s.taskque q)
      → IsAllowed s step
      → (serves (main_after step s.main) ≡ serves s.main)
        × (found_empty (main_after step s.main) ≡ found_empty s.main)
        × (joined_count s.thread_num (main_after step s.main) ≡ joined_count s.thread_num s.main)
  main_after_tests s q (wakeup_flag is) allowed = rw allowed (refl, refl, refl)
  main_after_tests s q (wakeup_notify down is) allowed = rw allowed (refl, refl, refl)
  main_after_tests s q (push_lock i e at_i free is) allowed = (refl, refl, refl)
  main_after_tests s q _ allowed = (refl, refl, refl)

  -- Only the worker that gets a result changes.
  pub workers_after_cases :
      (q r : State A) (step : Step q r) (f : ℕ → Worker A) (j : ℕ)
      → Returns step j ⊎ (workers_after step f j ≡ f j)
  workers_after_cases q r (pop_take i e rest threads at_i up front w is) f j =
      elim (put_worker_cases i j (handed (some e)) f) [
        | inl (same, _) ↦ inl same
        | inr (other, kept) ↦ inr kept
      ]
  workers_after_cases q r (pop_null i at_i down is) f j =
      elim (put_worker_cases i j (handed none) f) [
        | inl (same, _) ↦ inl same
        | inr (other, kept) ↦ inr kept
      ]
  workers_after_cases q r (push_lock i e at_i free is) f j = inr refl
  workers_after_cases q r _ f j = inr refl

  -- What a step makes of the queue: a thread in `push` adds, one in `pop` takes from the front.
  pub que_after :
      (q r : State A) (step : Step q r)
      → (r.que ≡ q.que) ⊎ (((i : ℕ) × (place (q.threads i) ≡ in_push)) ⊎ (q.que ≢ []))
  que_after q r (push_store i e threads at_i room w is) = inr (inl (i, rw at_i refl))
  que_after q r (pop_take i e rest threads at_i up front w is) = inr (inr (λ nil. cc))
  que_after q r (push_lock i e at_i free is) = inl (rw is refl)
  que_after q r (push_full i e at_i is_full is) = inl (rw is refl)
  que_after q r (push_wait i e at_i is) = inl (rw is refl)
  que_after q r (push_again i e at_i free is) = inl (rw is refl)
  que_after q r (pop_lock i at_i free is) = inl (rw is refl)
  que_after q r (pop_empty i at_i is_empty is) = inl (rw is refl)
  que_after q r (pop_wait i at_i is) = inl (rw is refl)
  que_after q r (pop_again i at_i free is) = inl (rw is refl)
  que_after q r (pop_pass i at_i ready is) = inl (rw is refl)
  que_after q r (pop_null i at_i down is) = inl (rw is refl)
  que_after q r (wakeup_flag is) = inl (rw is refl)
  que_after q r (wakeup_notify down is) = inl (rw is refl)
  que_after q r (spurious i is) = inl (rw is refl)
