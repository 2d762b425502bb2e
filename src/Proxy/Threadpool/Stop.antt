-- ===== src/Proxy/Threadpool/Stop.antt =====
-- `stop` and a worker that misses `wakeup`.
use micro_business_server.Base.{
  ℕ, suc, ◌≤◌, ◌<◌, Bool, false, none, ◌≢◌, ◌⊎◌, inl, inr, ◌≡◌, refl, sym, ◌∙◌, arith,
}
use micro_business_server.Proxy.TaskQueue.LostWakeup.{
  notifies, Step-asleep, after_wakeup, notify_all-deciding,
}
use micro_business_server.Proxy.TaskQueue.Mutex.{put_cases}
use micro_business_server.Proxy.TaskQueue.{
  Thread, State, Step, put, pop_deciding, pop_sleeping, push_lock, push_store, pop_wait,
  wakeup_flag, wakeup_notify, spurious,
}
use micro_business_server.Proxy.Threadpool.Accounts.{PoolInv, getting-free}
use micro_business_server.Proxy.Threadpool.Inside.{place, in_push}
use micro_business_server.Proxy.Threadpool.Kept.{
  started-PoolInv, PoolSteps-thread_num, PoolStep-thread_num,
}
use micro_business_server.Proxy.Threadpool.Preserved.{PoolSteps-PoolInv, PoolStep-PoolInv}
use micro_business_server.Proxy.Threadpool.{
  Main, waking, notifying, stopped, joining, Threadpool, started, IsOver, IsAllowed, main_after,
  PoolStep, PoolSteps, queue_moves, enter, leave, process_task, no_task, begin_stop, drained, join,
  all_joined, rest, next,
}

at_or_before : (j k : ℕ) → j ≤ k → (j ≡ k) ⊎ (j < k)
at_or_before j k h = omega arith

module _ {ℓ} {A : Type ℓ} where
  -- No thread wakes for no reason.
  abbrev pub IsCaused : {q r : State A} → Step q r → Type 0
  IsCaused (spurious i is) = ⊥
  IsCaused _ = Unit

  abbrev pub IsSteady : {s t : Threadpool A} → PoolStep s t → Type 0
  IsSteady (queue_moves q step allowed is) = IsCaused step
  IsSteady _ = Unit

  pub data SteadySteps (s : Threadpool A) : Threadpool A → Type ℓ where
    no_step : SteadySteps s s
    steady :
        {t u : Threadpool A}
        → SteadySteps s t
        → (step : PoolStep t u) → IsSteady step
        → SteadySteps s u

  -- `stop` waits for the worker `k`, or for one before it, and `k` sleeps in `pop`.
  record Hangs (k : ℕ) (s : Threadpool A) : Type ℓ where
    inv : PoolInv s
    member : k < s.thread_num
    sleeps : s.taskque.threads k ≡ pop_sleeping
    at : ℕ
    joins : s.main ≡ joining at
    before : at ≤ k

  nobody_pushes :
      (k : ℕ) (s : Threadpool A) → Hangs k s → (i : ℕ) → place (s.taskque.threads i) ≡ in_push → ⊥
  nobody_pushes k s h i push =
      let is_main = h.inv.pushers i push in
      let away = h.inv.late (rw (h.joins) refl) in
      let there : place (s.taskque.threads s.thread_num) ≡ in_push = rw is_main at push in cc

  -- No step of the queue can wake the worker, and the main thread stays where it is.
  Step-quiet :
      (k : ℕ) (s : Threadpool A) (q : State A) (step : Step s.taskque q)
      (allowed : IsAllowed s step)
      → Hangs k s
      → IsCaused step
      → (notifies step ≡ false) × (main_after step s.main ≡ s.main)
  Step-quiet k s q (push_store i e threads at_i room w is) allowed h quiet =
      absurd (nobody_pushes k s h i (rw at_i refl))
  Step-quiet k s q (wakeup_flag is) allowed h quiet =
      let no_way : waking ≡ joining h.at = sym allowed ∙ h.joins in absurd (cc)
  Step-quiet k s q (wakeup_notify down is) allowed h quiet =
      let no_way : notifying ≡ joining h.at = sym allowed ∙ h.joins in absurd (cc)
  Step-quiet k s q (spurious i is) allowed h quiet = absurd quiet
  Step-quiet k s q (push_lock i e at_i free is) allowed h quiet = (refl, refl)
  Step-quiet k s q _ allowed h quiet = (refl, refl)

  worker_sleeps : (k : ℕ) (s : Threadpool A) → Hangs k s → ¬ IsOver (s.workers k)
  worker_sleeps k s h = (getting-free (s.workers k) (h.inv.poppers k (rw (h.sleeps) refl))).0

  PoolStep-Hangs :
      (k : ℕ) (s t : Threadpool A) (step : PoolStep s t) → IsSteady step → Hangs k s → Hangs k t
  PoolStep-Hangs k s t step quiet h =
      let (sleeps, (j, joins, before)) = go step quiet in
      record {
        inv = PoolStep-PoolInv s t step h.inv;
        member = rw (PoolStep-thread_num s t step) (h.member);
        sleeps = sleeps;
        at = j;
        joins = joins;
        before = before;
      }
    where
      same_main : (m : Main) → m ≡ s.main → (j : ℕ) × (m ≡ joining j) × (j ≤ k)
      same_main m e = (h.at, e ∙ h.joins, h.before)

      joining_at : (j : ℕ) → s.main ≡ joining j → j ≡ h.at
      joining_at j e = let both : joining j ≡ joining h.at = sym e ∙ h.joins in cc

      go :
          (step : PoolStep s t)
          → IsSteady step
          → (t.taskque.threads k ≡ pop_sleeping) × ((j : ℕ) × (t.main ≡ joining j) × (j ≤ k))
      go (queue_moves q step allowed is) quiet =
          let (silent, same) = Step-quiet k s q step allowed h quiet in
          (rw is (Step-asleep s.taskque q k step silent h.sleeps), rw is (same_main _ same))
      go (enter i at_i open_still is) quiet = (rw is h.sleeps, rw is (same_main _ refl))
      go (leave i at_i shut is) quiet = (rw is h.sleeps, rw is (same_main _ refl))
      go (process_task i e at_i is) quiet = (rw is h.sleeps, rw is (same_main _ refl))
      go (no_task i at_i is) quiet = (rw is h.sleeps, rw is (same_main _ refl))
      go (begin_stop at_main away is) quiet = absurd (let no_way = sym at_main ∙ h.joins in cc)
      go (drained at_main nil is) quiet = absurd (let no_way = sym at_main ∙ h.joins in cc)
      go (join j at_main lt over is) quiet =
          let at_j = joining_at j at_main in
          elim (at_or_before h.at k h.before) [
            | inl same ↦
                let here : IsOver (s.workers k) = rw (at_j ∙ same) at over in
                absurd (worker_sleeps k s h here)
            | inr lt ↦ (rw is h.sleeps, (suc j, rw is refl, omega (arith, at_j)))
          ]
      go (all_joined at_main is) quiet =
          absurd (omega (arith, joining_at s.thread_num at_main, h.before, h.member))

  SteadySteps-Hangs : (k : ℕ) (s t : Threadpool A) → SteadySteps s t → Hangs k s → Hangs k t
  SteadySteps-Hangs k s t no_step h = h
  SteadySteps-Hangs k s u (steady {t} run step quiet) h =
      PoolStep-Hangs k t u step quiet (SteadySteps-Hangs k s t run h)

  put_self : (i : ℕ) (v : Thread A) (f : ℕ → Thread A) → put i v f i ≡ v
  put_self i v f = elim (put_cases i i v f) [
    | inl (same, is) ↦ is
    | inr (other, is) ↦ absurd (other refl)
  ]

  -- Let `stop` be about to call `wakeup` while a worker has found the queue open and empty and does
  -- not yet wait. There is a run in which that worker sleeps through the whole call, and from there
  -- `stop` returns in no run in which no thread wakes for no reason: it waits for that worker, or
  -- for one before it, for ever.
  pub stop-hangs :
      (thread_num que_size : ℕ) (created : ℕ → Bool) (s : Threadpool A) (k : ℕ)
      → PoolSteps (started thread_num que_size created) s
      → s.main ≡ waking
      → k < thread_num
      → s.taskque.threads k ≡ pop_deciding
      → (t : Threadpool A) × PoolSteps s t
        × (t.taskque.threads k ≡ pop_sleeping)
        × ((u : Threadpool A) → SteadySteps t u → u.main ≢ stopped)
  stop-hangs thread_num que_size created s k run at_main lt deciding =
      let q : State A = after_wakeup s.taskque in
      let asleep : State A = record q { threads = put k pop_sleeping q.threads; holder = none } in
      let t : Threadpool A = record s { taskque = asleep; main = joining 0 } in
      let decides = notify_all-deciding s.taskque.threads k deciding in
      let go : PoolSteps s t =
        next
          (next (next rest (queue_moves _ (wakeup_flag refl) at_main refl))
            (queue_moves q (wakeup_notify refl refl) refl refl))
          (queue_moves asleep (pop_wait k decides refl) tt refl) in
      let start = PoolSteps-PoolInv _ s run (started-PoolInv thread_num que_size created) in
      let number = PoolSteps-thread_num _ s run in
      let hangs : Hangs k t = record {
        inv = PoolSteps-PoolInv s t go start;
        member = rw number lt;
        sleeps = put_self k pop_sleeping q.threads;
        at = 0;
        joins = refl;
        before = omega arith;
      } in
      (
        t,
        go,
        put_self k pop_sleeping q.threads,
        λ u later over.
            let still = SteadySteps-Hangs k t u later hangs in
            let both : stopped ≡ joining still.at = sym over ∙ still.joins in cc,
      )
