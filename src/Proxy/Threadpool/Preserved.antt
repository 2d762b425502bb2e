-- ===== src/Proxy/Threadpool/Preserved.antt =====
-- Every step of the pool keeps its accounts.
use micro_business_server.Base.{
  ℕ, suc, ◌+◌, ◌<◌, Bool, true, List, [], ◌∷◌, ◌++◌, ◌⊎◌, inl, inr, ◌≡◌, refl, arith, append-nil,
}
use micro_business_server.Proxy.TaskQueue.{empty, is_nil}
use micro_business_server.Proxy.Threadpool.Accounts.{
  tally, tally-append, tally_one, hand, hands-put, put_worker_cases, IsAbsent, PoolInv,
}
use micro_business_server.Proxy.Threadpool.Moves.{queue_moves-PoolInv, below_or_not}
use micro_business_server.Proxy.Threadpool.{
  Worker, at_test, getting, finished, absent, handed, Threadpool, put_worker, IsGetting, IsOver,
  PoolStep, PoolSteps, queue_moves, enter, leave, process_task, no_task, begin_stop, drained, join,
  all_joined, rest, next,
}

last_or_before : (j k : ℕ) → j < suc k → (j < k) ⊎ (j ≡ k)
last_or_before j k h = omega arith

module _ {ℓ} {A : Type ℓ} where
  -- A worker that is at work outside `pop`.
  abbrev IsOutside : Worker A → Type 0
  IsOutside at_test = Unit
  IsOutside (handed o) = Unit
  IsOutside _ = ⊥

  IsOutside-free : (w : Worker A) → IsOutside w → ¬ IsGetting w × ¬ IsOver w × ¬ IsAbsent w
  IsOutside-free at_test h = ((λ x. x), (λ x. x), (λ x. x))
  IsOutside-free (handed o) h = ((λ x. x), (λ x. x), (λ x. x))
  IsOutside-free getting h = absurd h
  IsOutside-free finished h = absurd h
  IsOutside-free absent h = absurd h

  -- Such a worker goes on, with a task it had run or not.
  worker_moves-PoolInv :
      (s : Threadpool A) (i : ℕ) (w : Worker A) (ran : List A)
      → PoolInv s
      → IsOutside (s.workers i)
      → ((p : A → Bool) → hand p (s.workers i) ≡ tally p ran + hand p w)
      → PoolInv (record s { workers = put_worker i w s.workers; processed = s.processed ++ ran })
  worker_moves-PoolInv s i w ran h outside_pop balance =
      let (no_get, not_over, present) = IsOutside-free (s.workers i) outside_pop in
      record {
        late = h.late;
        pushers = h.pushers;
        poppers = λ j pop. elim (put_worker_cases i j w s.workers) [
          | inl (same, is) ↦ absurd (no_get (rw same (h.poppers j pop)))
          | inr (other, is) ↦ rw is (h.poppers j pop)
        ];
        members = λ j le. elim (put_worker_cases i j w s.workers) [
          | inl (same, is) ↦ absurd (present (rw same (h.members j le)))
          | inr (other, is) ↦ rw is (h.members j le)
        ];
        emptied = h.emptied;
        joined = λ k lt. elim (put_worker_cases i k w s.workers) [
          | inl (same, is) ↦ absurd (not_over (rw same (h.joined k lt)))
          | inr (other, is) ↦ rw is (h.joined k lt)
        ];
        accounts = λ p. elim (below_or_not i s.thread_num) [
          | inl lt ↦ omega (
            arith,
            hands-put p i w s.workers s.thread_num lt,
            balance p,
            h.accounts p,
            tally-append p s.processed ran,
          )
          | inr le ↦ absurd (present (h.members i le))
        ];
      }

  -- The same with no task run.
  worker_goes-PoolInv :
      (s : Threadpool A) (i : ℕ) (w : Worker A)
      → PoolInv s
      → IsOutside (s.workers i)
      → ((p : A → Bool) → hand p (s.workers i) ≡ hand p w)
      → PoolInv (record s { workers = put_worker i w s.workers })
  unfolding tally
  worker_goes-PoolInv s i w h outside_pop balance =
      let g = worker_moves-PoolInv s i w [] h outside_pop (λ p. omega (arith, balance p)) in
      rw (append-nil s.processed) at g

  is_nil-eq : (xs : List A) → is_nil xs ≡ true → xs ≡ []
  is_nil-eq [] h = refl
  is_nil-eq (x ∷ xs) h = cc

  pub PoolStep-PoolInv : (s t : Threadpool A) → PoolStep s t → PoolInv s → PoolInv t
  unfolding tally empty
  PoolStep-PoolInv s t (queue_moves q step allowed is) h =
      rw is (queue_moves-PoolInv s h q step allowed)
  PoolStep-PoolInv s t (enter i at_i open_still is) h =
      rw is (worker_goes-PoolInv s i getting h (rw at_i tt) (λ p. rw at_i refl))
  PoolStep-PoolInv s t (leave i at_i shut is) h =
      rw is (worker_goes-PoolInv s i finished h (rw at_i tt) (λ p. rw at_i refl))
  PoolStep-PoolInv s t (process_task i e at_i is) h = rw is (
      worker_moves-PoolInv s i at_test (e ∷ []) h (rw at_i tt)
        (λ p. rw at_i (omega (arith, tally_one p e))))
  PoolStep-PoolInv s t (no_task i at_i is) h =
      rw is (worker_goes-PoolInv s i at_test h (rw at_i tt) (λ p. rw at_i refl))
  PoolStep-PoolInv s t (begin_stop at_main away is) h = rw is (record {
    late = λ gone. rw away refl;
    pushers = h.pushers;
    poppers = h.poppers;
    members = h.members;
    emptied = λ found. cc;
    joined = λ k lt. absurd (omega arith);
    accounts = h.accounts;
  })
  PoolStep-PoolInv s t (drained at_main nil is) h = rw is (record {
    late = λ gone. h.late (rw at_main refl);
    pushers = h.pushers;
    poppers = h.poppers;
    members = h.members;
    emptied = λ found. is_nil-eq s.taskque.que nil;
    joined = λ k lt. absurd (omega arith);
    accounts = h.accounts;
  })
  PoolStep-PoolInv s t (join k at_main lt over is) h = rw is (record {
    late = λ gone. h.late (rw at_main refl);
    pushers = h.pushers;
    poppers = h.poppers;
    members = h.members;
    emptied = λ found. h.emptied (rw at_main refl);
    joined = λ j lt. elim (last_or_before j k lt) [
      | inl before ↦ h.joined j (rw at_main before)
      | inr same ↦ rw same over
    ];
    accounts = h.accounts;
  })
  PoolStep-PoolInv s t (all_joined at_main is) h = rw is (record {
    late = λ gone. h.late (rw at_main refl);
    pushers = h.pushers;
    poppers = h.poppers;
    members = h.members;
    emptied = λ found. h.emptied (rw at_main refl);
    joined = λ k lt. h.joined k (rw at_main lt);
    accounts = h.accounts;
  })

  pub PoolSteps-PoolInv : (s t : Threadpool A) → PoolSteps s t → PoolInv s → PoolInv t
  PoolSteps-PoolInv s t rest h = h
  PoolSteps-PoolInv s u (next {t} run step) h =
      PoolStep-PoolInv t u step (PoolSteps-PoolInv s t run h)
