-- ===== src/Proxy/Threadpool/Kept.antt =====
-- Every run of the pool keeps its accounts, and what holds when `stop` returns.
use micro_business_server.Base.{ℕ, ◌+◌, ◌<◌, Bool, false, [], ◌≡◌, refl, ap, ◌∙◌, arith, ltb}
use micro_business_server.Proxy.TaskQueue.Safety.{Steps-Inv}
use micro_business_server.Proxy.TaskQueue.{new_queue, Steps, start, then_step}
use micro_business_server.Proxy.Threadpool.Accounts.{
  tally, tally-append, hand, hands, hands-none, over-empty, PoolInv,
}
use micro_business_server.Proxy.Threadpool.{
  stopped, Threadpool, started, IsOver, PoolStep, PoolSteps, queue_moves, enter, leave,
  process_task, no_task, begin_stop, drained, join, all_joined, rest, next,
}
use micro_business_server.Proxy.Threadpool.Preserved.{PoolSteps-PoolInv}

module _ {ℓ} {A : Type ℓ} where
  -- The queue of a run of the pool is a run of the queue.
  PoolSteps-Steps : (s t : Threadpool A) → PoolSteps s t → Steps s.taskque t.taskque
  PoolSteps-Steps s t rest = start
  PoolSteps-Steps s u (next {t} run (queue_moves q step allowed is)) =
      rw is (then_step (PoolSteps-Steps s t run) step)
  PoolSteps-Steps s u (next {t} run (enter i at_i open_still is)) = rw is (PoolSteps-Steps s t run)
  PoolSteps-Steps s u (next {t} run (leave i at_i shut is)) = rw is (PoolSteps-Steps s t run)
  PoolSteps-Steps s u (next {t} run (process_task i e at_i is)) = rw is (PoolSteps-Steps s t run)
  PoolSteps-Steps s u (next {t} run (no_task i at_i is)) = rw is (PoolSteps-Steps s t run)
  PoolSteps-Steps s u (next {t} run (begin_stop at_main away is)) = rw is (PoolSteps-Steps s t run)
  PoolSteps-Steps s u (next {t} run (drained at_main nil is)) = rw is (PoolSteps-Steps s t run)
  PoolSteps-Steps s u (next {t} run (join k at_main lt over is)) = rw is (PoolSteps-Steps s t run)
  PoolSteps-Steps s u (next {t} run (all_joined at_main is)) = rw is (PoolSteps-Steps s t run)

  pub PoolStep-thread_num : (s t : Threadpool A) → PoolStep s t → t.thread_num ≡ s.thread_num
  PoolStep-thread_num s t (queue_moves q step allowed is) = rw is refl
  PoolStep-thread_num s t (enter i at_i open_still is) = rw is refl
  PoolStep-thread_num s t (leave i at_i shut is) = rw is refl
  PoolStep-thread_num s t (process_task i e at_i is) = rw is refl
  PoolStep-thread_num s t (no_task i at_i is) = rw is refl
  PoolStep-thread_num s t (begin_stop at_main away is) = rw is refl
  PoolStep-thread_num s t (drained at_main nil is) = rw is refl
  PoolStep-thread_num s t (join k at_main lt over is) = rw is refl
  PoolStep-thread_num s t (all_joined at_main is) = rw is refl

  pub PoolSteps-thread_num : (s t : Threadpool A) → PoolSteps s t → t.thread_num ≡ s.thread_num
  PoolSteps-thread_num s t rest = refl
  PoolSteps-thread_num s u (next {t} run step) =
      PoolStep-thread_num t u step ∙ PoolSteps-thread_num s t run

  module _ (thread_num que_size : ℕ) (created : ℕ → Bool) where
    abbrev at_start : Threadpool A
    at_start = started {A = A} thread_num que_size created

    started-hand : (p : A → Bool) (i : ℕ) → hand p (at_start.workers i) ≡ 0
    started-hand p i = ground arith

    pub started-PoolInv : PoolInv at_start
    unfolding tally new_queue
    started-PoolInv = record {
      late = λ gone. refl;
      pushers = λ i push. cc;
      poppers = λ i pop. absurd (cc);
      members = λ i le. let past : ltb i thread_num ≡ false = ground arith in rw past tt;
      emptied = λ found. cc;
      joined = λ k lt. absurd (omega arith);
      accounts =
          λ p. omega (arith, hands-none p at_start.workers thread_num (λ k lt. started-hand p k));
    }

    -- In every run of the pool, whatever the schedule and whichever workers could be made, each
    -- task that was stored is in the queue, in the hand of one worker, or was run, and it is so
    -- once: by any test of tasks the three together hold as many as were stored.
    pub PoolSteps-accounts :
        (s : Threadpool A)
        → PoolSteps at_start s
        → (p : A → Bool)
        → tally p s.processed + hands p s.workers thread_num + tally p s.taskque.que
          ≡ tally p s.taskque.stored
    PoolSteps-accounts s run p =
        let h = PoolSteps-PoolInv at_start s run started-PoolInv in
        let q = (Steps-Inv que_size s.taskque (PoolSteps-Steps at_start s run)).0 in
        let number = PoolSteps-thread_num at_start s run in
        let split : tally p s.taskque.stored ≡ tally p s.taskque.taken + tally p s.taskque.que =
          ap (tally p) q.in_order ∙ tally-append p s.taskque.taken s.taskque.que in
        let taken : tally p s.processed + hands p s.workers thread_num ≡ tally p s.taskque.taken =
          rw number at (h.accounts p) in
        omega (arith, split, taken)

    -- When `stop` has returned, every worker is over, the queue is empty, and every task that was
    -- ever stored has been run, once.
    pub PoolSteps-stopped :
        (s : Threadpool A)
        → PoolSteps at_start s
        → s.main ≡ stopped
        → ((k : ℕ) → k < thread_num → IsOver (s.workers k))
          × (s.taskque.que ≡ [])
          × ((p : A → Bool) → tally p s.processed ≡ tally p s.taskque.stored)
    unfolding tally
    PoolSteps-stopped s run at_main =
        let h = PoolSteps-PoolInv at_start s run started-PoolInv in
        let number = PoolSteps-thread_num at_start s run in
        let over : (k : ℕ) → k < thread_num → IsOver (s.workers k) =
          λ k lt. h.joined k (rw (at_main, number) lt) in
        let nil : s.taskque.que ≡ [] = h.emptied (rw at_main refl) in
        (
          over,
          nil,
          λ p.
              let none_in_hand =
                hands-none p s.workers thread_num
                  (λ k lt. over-empty p (s.workers k) (over k lt)) in
              let all = PoolSteps-accounts s run p in omega (arith, none_in_hand, rw nil at all),
        )
