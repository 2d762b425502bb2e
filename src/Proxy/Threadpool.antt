-- ===== src/Proxy/Threadpool.antt =====
-- proxy_server/threadpool/Threadpool.cc and Thread.cc: the workers and the end of the program, as
-- steps over the task queue. Thread `i` of the queue is worker `i`; the main thread, which runs the
-- event loop and `stop`, comes behind the workers.
pub mod Inside
pub mod Accounts
pub mod Effects
pub mod Moves
pub mod Preserved
pub mod Kept
pub mod Stop
pub mod Threads
use micro_business_server.Base.{
  ℕ, zero, suc, ◌+◌, ◌<◌, Bool, true, false, ◌&&◌, List, [], ◌∷◌, ◌++◌, Option, none, some, ◌≡◌,
  ltb, ◌==◌, if◌then◌else◌,
}
use micro_business_server.Proxy.TaskQueue.{
  Thread, outside, State, empty, initial, put, Step, push_lock, push_full, push_wait, push_again,
  push_store, pop_lock, pop_empty, pop_wait, pop_again, pop_pass, pop_take, pop_null, wakeup_flag,
  wakeup_notify, spurious,
}

-- A worker in `threadFunc`: before the test of the loop, in `getRequest`, with what `pop` returned,
-- behind the loop. `absent`: `pthread_create` failed, or there is no such worker.
pub data Worker {ℓ} (A : Type ℓ) : Type ℓ where
  at_test getting finished absent : Worker A
  handed : Option A → Worker A

-- The main thread: in the event loop, and in `stop` in the loop that waits, behind `_isExit = true`,
-- between the two parts of `wakeup`, at the join of a worker, behind it all.
pub data Main : Type 0 where
  serving draining waking notifying stopped : Main
  joining : ℕ → Main

pub record Threadpool {ℓ} (A : Type ℓ) : Type ℓ where
  pub thread_num : ℕ
  pub taskque : State A
  pub is_exit : Bool
  pub workers : ℕ → Worker A
  pub main : Main
  -- The tasks that were run, in order.
  pub processed : List A

module _ {ℓ} {A : Type ℓ} where
  unfoldable pub put_worker : ℕ → Worker A → (ℕ → Worker A) → ℕ → Worker A
  put_worker i w f j = if i == j then w else f j

  -- Behind `start`; `created` says whether `pthread_create` made a worker.
  abbrev pub started : ℕ → ℕ → (ℕ → Bool) → Threadpool A
  started thread_num que_size created = record {
    thread_num = thread_num;
    taskque = initial que_size;
    is_exit = false;
    workers = λ i. if ltb i thread_num && created i then at_test else absent;
    main = serving;
    processed = [];
  }

  abbrev pub IsGetting : Worker A → Type 0
  IsGetting getting = Unit
  IsGetting _ = ⊥

  -- Who may take a step of the queue: the event loop pushes, a worker that is in `getRequest` pops,
  -- and `stop` calls `wakeup`.
  abbrev pub IsAllowed : (s : Threadpool A) {q : State A} → Step s.taskque q → Type 0
  IsAllowed s (push_lock i e at_i free is) = (i ≡ s.thread_num) × (s.main ≡ serving)
  IsAllowed s (pop_lock i at_i free is) = IsGetting (s.workers i)
  IsAllowed s (wakeup_flag is) = s.main ≡ waking
  IsAllowed s (wakeup_notify down is) = s.main ≡ notifying
  IsAllowed s _ = Unit

  -- What `pop` returns.
  abbrev pub workers_after : {q r : State A} → Step q r → (ℕ → Worker A) → ℕ → Worker A
  workers_after (pop_take i e rest threads at_i up front w is) f = put_worker i (handed (some e)) f
  workers_after (pop_null i at_i down is) f = put_worker i (handed none) f
  workers_after _ f = f

  abbrev pub main_after : {q r : State A} → Step q r → Main → Main
  main_after (wakeup_flag is) m = notifying
  main_after (wakeup_notify down is) m = joining 0
  main_after _ m = m

  -- `join` returns: the worker's function has ended, or the thread was never made.
  abbrev pub IsOver : Worker A → Type 0
  IsOver finished = Unit
  IsOver absent = Unit
  IsOver _ = ⊥

  pub data PoolStep (s t : Threadpool A) : Type ℓ where
    queue_moves :
        (q : State A) (step : Step s.taskque q)
        → IsAllowed s step
        → t ≡ record s {
          taskque = q;
          workers = workers_after step s.workers;
          main = main_after step s.main;
        }
        → PoolStep s t
    -- threadFunc
    enter :
        (i : ℕ)
        → s.workers i ≡ at_test
        → s.is_exit ≡ false
        → t ≡ record s { workers = put_worker i getting s.workers }
        → PoolStep s t
    leave :
        (i : ℕ)
        → s.workers i ≡ at_test
        → s.is_exit ≡ true
        → t ≡ record s { workers = put_worker i finished s.workers }
        → PoolStep s t
    process_task :
        (i : ℕ) (e : A)
        → s.workers i ≡ handed (some e)
        → t
          ≡ record s { workers = put_worker i at_test s.workers; processed = s.processed ++ e ∷ [] }
        → PoolStep s t
    no_task :
        (i : ℕ)
        → s.workers i ≡ handed none
        → t ≡ record s { workers = put_worker i at_test s.workers }
        → PoolStep s t
    -- stop; while the queue is not empty it sleeps
    begin_stop :
        s.main ≡ serving
        → s.taskque.threads s.thread_num ≡ outside
        → t ≡ record s { main = draining }
        → PoolStep s t
    drained :
        s.main ≡ draining
        → empty s.taskque.queue ≡ true
        → t ≡ record s { main = waking; is_exit = true }
        → PoolStep s t
    join :
        (k : ℕ)
        → s.main ≡ joining k
        → k < s.thread_num
        → IsOver (s.workers k)
        → t ≡ record s { main = joining (suc k) }
        → PoolStep s t
    all_joined : s.main ≡ joining s.thread_num → t ≡ record s { main = stopped } → PoolStep s t

  pub data PoolSteps (s : Threadpool A) : Threadpool A → Type ℓ where
    rest : PoolSteps s s
    next : {t u : Threadpool A} → PoolSteps s t → PoolStep t u → PoolSteps s u
