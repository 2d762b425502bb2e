-- ===== src/Proxy/Threadpool/Moves.antt =====
-- A step of the queue keeps the invariant of the pool.
use micro_business_server.Base.{
  ℕ, ◌+◌, ◌≤◌, ◌<◌, Bool, true, false, [], ◌∷◌, none, some, ◌≢◌, ◌⊎◌, inl, inr, ◌≡◌, refl, sym, ◌∙◌,
  arith,
}
use micro_business_server.Proxy.TaskQueue.{
  State, Step, push_lock, push_full, push_wait, push_again, push_store, pop_lock, pop_empty,
  pop_wait, pop_again, pop_pass, pop_take, pop_null, wakeup_flag, wakeup_notify, spurious,
}
use micro_business_server.Proxy.Threadpool.Accounts.{
  tally, tally-append, tally_one, hand, hands, hands-put, getting-free, serves, found_empty,
  PoolInv,
}
use micro_business_server.Proxy.Threadpool.Inside.{
  Place, out, in_push, in_pop, place, Step-place, Returns-out,
}
use micro_business_server.Proxy.Threadpool.{
  Worker, handed, serving, Threadpool, put_worker, IsGetting, IsAllowed, workers_after, main_after,
}
use micro_business_server.Proxy.Threadpool.Effects.{
  place-cases, found_empty-late, Enters-allowed, main_after_tests, workers_after_cases, que_after,
}

pub below_or_not : (i n : ℕ) → (i < n) ⊎ (n ≤ i)
below_or_not i n = omega arith

module _ {ℓ} {A : Type ℓ} where
  module _ (s : Threadpool A) (h : PoolInv s) where
    -- A worker in `getRequest` is one of the pool's, with nothing in hand.
    getting_lem :
        (i : ℕ)
        → IsGetting (s.workers i)
        → (i < s.thread_num) × ((p : A → Bool) → hand p (s.workers i) ≡ 0)
    getting_lem i g =
        let (_, present, free) = getting-free (s.workers i) g in
        elim (below_or_not i s.thread_num) [
          | inl lt ↦ (lt, free)
          | inr le ↦ absurd (present (h.members i le))
        ]

    -- A worker of the pool gets what `pop` returns.
    handed_hands :
        (i : ℕ) (w : Worker A) (p : A → Bool)
        → place (s.taskque.threads i) ≡ in_pop
        → hands p (put_worker i w s.workers) s.thread_num
          ≡ hands p s.workers s.thread_num + hand p w
    handed_hands i w p inside =
        let (lt, free) = getting_lem i (h.poppers i inside) in
        omega (arith, hands-put p i w s.workers s.thread_num lt, free p)

    accounts_after :
        (q : State A) (step : Step s.taskque q) (p : A → Bool)
        → tally p s.processed + hands p (workers_after step s.workers) s.thread_num
          ≡ tally p q.taken
    accounts_after q (pop_take i e rest threads at_i up front w is) p = rw is (
        omega (
          arith,
          handed_hands i (handed (some e)) p (rw at_i refl),
          h.accounts p,
          tally-append p s.taskque.taken (e ∷ []),
          tally_one p e,
        ))
    accounts_after q (pop_null i at_i down is) p =
        rw is (omega (arith, handed_hands i (handed none) p (rw at_i refl), h.accounts p))
    accounts_after q (push_lock i e at_i free is) p = rw is (h.accounts p)
    accounts_after q (push_full i e at_i is_full is) p = rw is (h.accounts p)
    accounts_after q (push_wait i e at_i is) p = rw is (h.accounts p)
    accounts_after q (push_again i e at_i free is) p = rw is (h.accounts p)
    accounts_after q (push_store i e threads at_i room w is) p = rw is (h.accounts p)
    accounts_after q (pop_lock i at_i free is) p = rw is (h.accounts p)
    accounts_after q (pop_empty i at_i is_empty is) p = rw is (h.accounts p)
    accounts_after q (pop_wait i at_i is) p = rw is (h.accounts p)
    accounts_after q (pop_again i at_i free is) p = rw is (h.accounts p)
    accounts_after q (pop_pass i at_i ready is) p = rw is (h.accounts p)
    accounts_after q (wakeup_flag is) p = rw is (h.accounts p)
    accounts_after q (wakeup_notify down is) p = rw is (h.accounts p)
    accounts_after q (spurious i is) p = rw is (h.accounts p)

    module _ (q : State A) (step : Step s.taskque q) (allowed : IsAllowed s step) where
      -- A thread that is now in `push` or `pop` was there before, or may enter.
      was_inside :
          (j : ℕ) (p : Place)
          → p ≢ out
          → place (q.threads j) ≡ p
          → (place (s.taskque.threads j) ≡ p)
            ⊎ (((p ≡ in_push) × (j ≡ s.thread_num) × (s.main ≡ serving))
                ⊎ ((p ≡ in_pop) × IsGetting (s.workers j)))
      was_inside j p inside is = elim (Step-place s.taskque q step j) [
        | inl same ↦ inl (sym same ∙ is)
        | inr (inl gone) ↦ absurd (inside (sym is ∙ gone))
        | inr (inr enters) ↦ inr (Enters-allowed s q step j p allowed (rw is at enters))
      ]

      -- A worker whose thread is not in `pop`, or who is over or absent, stays as it is.
      stays : (j : ℕ) → ¬ IsGetting (s.workers j) → workers_after step s.workers j ≡ s.workers j
      stays j idle = elim (workers_after_cases s.taskque q step s.workers j) [
        | inr same ↦ same
        | inl returns ↦ absurd (idle (h.poppers j (Returns-out s.taskque q step j returns).0))
      ]

      late_after : serves s.main ≡ false → place (q.threads s.thread_num) ≡ out
      late_after gone = elim (place-cases (place (q.threads s.thread_num))) [
        | inl e ↦ e
        | inr (inl push) ↦ elim (was_inside s.thread_num in_push (λ x. cc) push) [
          | inl was ↦ let away = h.late gone in absurd cc
          | inr (inl (_, _, serving_still)) ↦ absurd cc
          | inr (inr (no_pop, _)) ↦ absurd cc
        ]
        | inr (inr pop) ↦ elim (was_inside s.thread_num in_pop (λ x. cc) pop) [
          | inl was ↦ let away = h.late gone in absurd cc
          | inr (inl (no_push, _, _)) ↦ absurd cc
          | inr (inr (_, g)) ↦ absurd (omega (arith, (getting_lem s.thread_num g).0))
        ]
      ]

      pushers_after : (i : ℕ) → place (q.threads i) ≡ in_push → i ≡ s.thread_num
      pushers_after i push = elim (was_inside i in_push (λ x. cc) push) [
        | inl was ↦ h.pushers i was
        | inr (inl (_, is_main, _)) ↦ is_main
        | inr (inr (no_pop, _)) ↦ absurd cc
      ]

      poppers_after :
          (i : ℕ) → place (q.threads i) ≡ in_pop → IsGetting (workers_after step s.workers i)
      poppers_after i pop = elim (workers_after_cases s.taskque q step s.workers i) [
        | inl returns ↦ let away = (Returns-out s.taskque q step i returns).1 in absurd cc
        | inr same ↦ rw same (elim (was_inside i in_pop (λ x. cc) pop) [
          | inl was ↦ h.poppers i was
          | inr (inl (no_push, _, _)) ↦ absurd cc
          | inr (inr (_, g)) ↦ g
        ])
      ]

      emptied_after : found_empty s.main ≡ true → q.que ≡ []
      emptied_after found = elim (que_after s.taskque q step) [
        | inl same ↦ same ∙ h.emptied found
        | inr (inl (i, push)) ↦
            let is_main = h.pushers i push in
            let away = h.late (found_empty-late s.main found) in
            let there : place (s.taskque.threads s.thread_num) ≡ in_push = rw is_main at push in
            absurd cc
        | inr (inr full) ↦ absurd (full (h.emptied found))
      ]

      pub queue_moves-PoolInv : PoolInv (record s {
        taskque = q;
        workers = workers_after step s.workers;
        main = main_after step s.main;
      })
      queue_moves-PoolInv =
          let (serves_same, found_same, joined_same) = main_after_tests s q step allowed in
          record {
            late = λ gone. late_after (sym serves_same ∙ gone);
            pushers = pushers_after;
            poppers = poppers_after;
            members = λ i le.
                rw (stays i (λ g. absurd (omega (arith, (getting_lem i g).0)))) (h.members i le);
            emptied = λ found. emptied_after (sym found_same ∙ found);
            joined = λ k lt.
                let over = h.joined k (rw joined_same at lt) in
                rw (stays k (λ g. (getting-free (s.workers k) g).0 over)) over;
            accounts = λ p. accounts_after q step p;
          }
