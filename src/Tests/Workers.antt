-- ===== src/Tests/Workers.antt =====
-- The theorems on the thread pool at a pool of one worker, thread 0; the main thread is thread 1.
use micro_business_server.Proxy.Threadpool.Threads.{
  Thread, pthread_join, start_threads, join_threads, destroy_pool, destroy_pool-joins,
}
use micro_business_server.Base.{
  ℕ, ◌+◌, ◌<◌, arith, [], ◌≡◌, ◌≢◌, refl, true, false, Bool, ◌==◌, List, none, ◌++◌, some, ◌∷◌,
}
use micro_business_server.Proxy.TaskQueue.{
  put, nobody, full, empty, new_queue, pop_sleeping, push_lock, push_store, pop_lock, pop_empty,
  pop_pass, pop_take, wakeup_flag, wakeup_notify, notify_all,
}
use micro_business_server.Proxy.Threadpool.Accounts.{tally, hands}
use micro_business_server.Proxy.Threadpool.Kept.{PoolSteps-accounts, PoolSteps-stopped}
use micro_business_server.Proxy.Threadpool.Stop.{SteadySteps, stop-hangs}
use micro_business_server.Proxy.Threadpool.{
  Threadpool, stopped, put_worker, started, IsOver, PoolSteps, queue_moves, enter, leave,
  process_task, begin_stop, drained, join, all_joined, rest, next,
}

abbrev begin : Threadpool ℕ
begin = started 1 2 (λ _. true)

-- The event loop hands over the task 7, the worker runs it, and `stop` returns.
abbrev whole_run : (s : Threadpool ℕ) × PoolSteps begin s
unfolding put put_worker full empty new_queue notify_all
whole_run = (
  _,
  next
      (next
        (next
          (next
            (next
              (next
                (next
                  (next
                    (next
                      (next
                        (next
                          (next
                            (next
                              (next rest
                                (queue_moves _ (push_lock 1 7 refl refl refl) (refl, refl) refl))
                              (queue_moves _
                                (push_store 1 7 _ refl refl (nobody (λ j. ground arith) refl) refl)
                                tt refl))
                            (enter 0 refl refl refl))
                          (queue_moves _ (pop_lock 0 refl refl refl) tt refl))
                        (queue_moves _ (pop_pass 0 refl refl refl) tt refl))
                      (queue_moves _
                        (pop_take 0 7 [] _ refl refl refl (nobody (λ j. ground arith) refl) refl) tt
                        refl))
                    (process_task 0 7 refl refl))
                  (begin_stop refl refl refl))
                (drained refl refl refl))
              (queue_moves _ (wakeup_flag refl) refl refl))
            (queue_moves _ (wakeup_notify refl refl) refl refl))
          (leave 0 refl refl refl))
        (join 0 refl (omega arith) tt refl))
      (all_joined refl refl),
)

PoolSteps-accounts_example :
    tally (λ n. n == 7) whole_run.0.processed
      + hands (λ n. n == 7) whole_run.0.workers 1
      + tally (λ n. n == 7) whole_run.0.taskque.que
    ≡ tally (λ n. n == 7) whole_run.0.taskque.stored
PoolSteps-accounts_example =
    PoolSteps-accounts 1 2 (λ _. true) whole_run.0 whole_run.1 (λ n. n == 7)

PoolSteps-stopped_example :
    ((k : ℕ) → k < 1 → IsOver (whole_run.0.workers k))
    × (whole_run.0.taskque.que ≡ [])
    × ((p : ℕ → Bool) → tally p whole_run.0.processed ≡ tally p whole_run.0.taskque.stored)
unfolding put put_worker full empty new_queue notify_all
PoolSteps-stopped_example = PoolSteps-stopped 1 2 (λ _. true) whole_run.0 whole_run.1 refl

-- The worker finds the queue empty, and `stop` sets `_isExit`.
abbrev missed : (s : Threadpool ℕ) × PoolSteps begin s
unfolding put put_worker full empty new_queue notify_all
missed = (
  _,
  next
      (next
        (next
          (next (next rest (enter 0 refl refl refl))
            (queue_moves _ (pop_lock 0 refl refl refl) tt refl))
          (queue_moves _ (pop_empty 0 refl refl refl) tt refl))
        (begin_stop refl refl refl))
      (drained refl refl refl),
)

stop-hangs_example :
    (t : Threadpool ℕ) × PoolSteps missed.0 t
    × (t.taskque.threads 0 ≡ pop_sleeping)
    × ((u : Threadpool ℕ) → SteadySteps t u → u.main ≢ stopped)
unfolding put put_worker full empty new_queue notify_all
stop-hangs_example = stop-hangs 1 2 (λ _. true) missed.0 0 missed.1 refl (omega arith) refl

-- The second of three threads could not be made.
destroy_pool-joins_example :
    let started : List Thread = start_threads (some 7 ∷ none ∷ some 8 ∷ []) in
    let (joined, calls) = join_threads started in
    (calls ++ destroy_pool true joined ≡ pthread_join 7 ∷ pthread_join 8 ∷ [])
    × (destroy_pool false started ≡ pthread_join 7 ∷ pthread_join 8 ∷ [])
destroy_pool-joins_example = destroy_pool-joins (some 7 ∷ none ∷ some 8 ∷ [])
