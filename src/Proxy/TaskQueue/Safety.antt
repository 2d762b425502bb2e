-- ===== src/Proxy/TaskQueue/Safety.antt =====
-- The queue never exceeds its size, hands tasks on in their order, and is never read while empty.
use micro_business_server.Base.{
  ℕ, ◌≤◌, Bool, true, false, ◌&&◌, List, [], ◌∷◌, ◌++◌, none, some, ◌≢◌, ◌⊎◌, inl, ◌≡◌, refl, sym,
  ◌∙◌, arith, length, length-append, append_assoc,
}
use micro_business_server.Proxy.TaskQueue.{
  Thread, outside, pushing, push_deciding, push_sleeping, popping, pop_deciding, pop_sleeping,
  pop_passed, empty, full, State, put, sleeps_in_pop, sleeps_in_push, wake, NotifyOne, notify_all,
  Step, Steps, start, then_step, initial, new_queue, push_lock, push_full, push_wait, push_again,
  push_store, pop_lock, pop_empty, pop_wait, pop_again, pop_pass, pop_take, pop_null, wakeup_flag,
  wakeup_notify, spurious, is_nil,
}
use micro_business_server.Proxy.TaskQueue.Mutex.{
  holds, passed, Exclusive, CanRead, IsWoken, put-IsWoken, NotifyOne-IsWoken, notify_all-IsWoken,
  Exclusive-woken, CanRead-woken, Exclusive-lock, Exclusive-keep, Exclusive-unlock, CanRead-put,
  CanRead-free,
}

module _ {ℓ} {A : Type ℓ} where
  pub record Inv (s : State A) : Type ℓ where
    pub bounded : length s.que ≤ s.que_size
    pub in_order : s.stored ≡ s.taken ++ s.que
    pub exclusive : Exclusive s.holder s.threads
    pub can_read : CanRead s.flag s.que s.threads

  module _ (s : State A) (h : Inv s) (i : ℕ) (v : Thread A) where
    lock-Inv :
        s.holder ≡ none
        → passed v ≡ false
        → Inv (record s { threads = put i v s.threads; holder = some i })
    lock-Inv free early = record {
      bounded = h.bounded;
      in_order = h.in_order;
      exclusive = Exclusive-lock i v s.threads s.holder h.exclusive free;
      can_read = CanRead-put i v s.threads s.flag s.que h.can_read (λ e. cc);
    }

    keep-Inv :
        holds (s.threads i) ≡ true
        → (passed v ≡ true → (s.flag ≡ false) ⊎ (s.que ≢ []))
        → Inv (record s { threads = put i v s.threads; holder = s.holder })
    keep-Inv mine can = record {
      bounded = h.bounded;
      in_order = h.in_order;
      exclusive = Exclusive-keep i v s.threads s.holder h.exclusive mine;
      can_read = CanRead-put i v s.threads s.flag s.que h.can_read can;
    }

    unlock-Inv :
        holds (s.threads i) ≡ true
        → holds v ≡ false
        → Inv (record s { threads = put i v s.threads; holder = none })
    unlock-Inv mine free =
        let ex = Exclusive-unlock i v s.threads s.holder h.exclusive mine free in
        record {
          bounded = h.bounded;
          in_order = h.in_order;
          exclusive = ex;
          can_read = CanRead-free s.flag s.que (put i v s.threads) ex;
        }

  woken-Inv :
      (s : State A) (g : ℕ → Thread A)
      → Inv s
      → IsWoken s.threads g
      → Inv (record s { threads = g })
  woken-Inv s g h w = record {
    bounded = h.bounded;
    in_order = h.in_order;
    exclusive = Exclusive-woken s.threads g w s.holder h.exclusive;
    can_read = CanRead-woken s.threads g w s.flag s.que h.can_read;
  }

  can_pass : (flag : Bool) (que : List A) → flag && is_nil que ≡ false → (flag ≡ false) ⊎ (que ≢ [])
  can_pass flag que h = ground arith

  -- A thread leaves with the queue changed: what the other threads rely on.
  module _ (s : State A) (h : Inv s) (i : ℕ) (g : ℕ → Thread A) (sleeps : Thread A → Bool)
      (mine : holds (s.threads i) ≡ true) (w : NotifyOne sleeps (put i outside s.threads) g) where
    left-Exclusive : Exclusive none g
    left-Exclusive =
        Exclusive-woken (put i outside s.threads) g (NotifyOne-IsWoken sleeps _ g w) none
          (Exclusive-unlock i outside s.threads s.holder h.exclusive mine refl)

    stored-Inv :
        (e : A)
        → full s.queue ≡ false
        → Inv (record s {
          queue = record s.queue { que = s.que ++ e ∷ [] };
          threads = g;
          holder = none;
          stored = s.stored ++ e ∷ [];
        })
    unfolding full
    stored-Inv e room = record {
      bounded = rw (length-append s.que (e ∷ [])) (grind (arith, h.bounded));
      in_order = rw (h.in_order) (append_assoc s.taken s.que (e ∷ []));
      exclusive = left-Exclusive;
      can_read = CanRead-free s.flag _ g left-Exclusive;
    }

    taken-Inv :
        (e : A) (rest : List A)
        → s.que ≡ e ∷ rest
        → Inv (record s {
          queue = record s.queue { que = rest };
          threads = g;
          holder = none;
          taken = s.taken ++ e ∷ [];
        })
    taken-Inv e rest front = record {
      bounded = omega (arith, (rw front at h.bounded));
      in_order = h.in_order ∙ rw front (sym (append_assoc s.taken (e ∷ []) rest));
      exclusive = left-Exclusive;
      can_read = CanRead-free s.flag rest g left-Exclusive;
    }

  Step-Inv : (s t : State A) → Step s t → Inv s → Inv t
  unfolding empty
  Step-Inv s t (push_lock i e at_i free is) h = rw is (lock-Inv s h i (pushing e) free refl)
  Step-Inv s t (push_full i e at_i is_full is) h =
      rw is (keep-Inv s h i (push_deciding e) (rw at_i refl) (λ p. cc))
  Step-Inv s t (push_wait i e at_i is) h =
      rw is (unlock-Inv s h i (push_sleeping e) (rw at_i refl) refl)
  Step-Inv s t (push_again i e at_i free is) h = rw is (lock-Inv s h i (pushing e) free refl)
  Step-Inv s t (push_store i e threads at_i room w is) h =
      rw is (stored-Inv s h i threads sleeps_in_pop (rw at_i refl) w e room)
  Step-Inv s t (pop_lock i at_i free is) h = rw is (lock-Inv s h i popping free refl)
  Step-Inv s t (pop_empty i at_i is_empty is) h =
      rw is (keep-Inv s h i pop_deciding (rw at_i refl) (λ p. cc))
  Step-Inv s t (pop_wait i at_i is) h = rw is (unlock-Inv s h i pop_sleeping (rw at_i refl) refl)
  Step-Inv s t (pop_again i at_i free is) h = rw is (lock-Inv s h i popping free refl)
  Step-Inv s t (pop_pass i at_i ready is) h =
      rw is (keep-Inv s h i pop_passed (rw at_i refl) (λ p. can_pass s.flag s.que ready))
  Step-Inv s t (pop_take i e rest threads at_i up front w is) h =
      rw is (taken-Inv s h i threads sleeps_in_push (rw at_i refl) w e rest front)
  Step-Inv s t (pop_null i at_i shut is) h = rw is (unlock-Inv s h i outside (rw at_i refl) refl)
  Step-Inv s t (wakeup_flag is) h = rw is (record {
    bounded = h.bounded;
    in_order = h.in_order;
    exclusive = h.exclusive;
    can_read = λ i e. inl refl;
  })
  Step-Inv s t (wakeup_notify shut is) h =
      rw is (woken-Inv s (notify_all s.threads) h (notify_all-IsWoken s.threads))
  Step-Inv s t (spurious i is) h =
      rw is (woken-Inv s (put i (wake (s.threads i)) s.threads) h (put-IsWoken i s.threads))

  initial-Inv : (sz : ℕ) → Inv (initial sz)
  unfolding new_queue
  initial-Inv sz = record {
    bounded = omega arith;
    in_order = refl;
    exclusive = λ i e. cc;
    can_read = λ i e. cc;
  }

  Step-que_size : (s t : State A) → Step s t → t.que_size ≡ s.que_size
  Step-que_size s t (push_lock i e at_i free is) = rw is refl
  Step-que_size s t (push_full i e at_i is_full is) = rw is refl
  Step-que_size s t (push_wait i e at_i is) = rw is refl
  Step-que_size s t (push_again i e at_i free is) = rw is refl
  Step-que_size s t (push_store i e threads at_i room w is) = rw is refl
  Step-que_size s t (pop_lock i at_i free is) = rw is refl
  Step-que_size s t (pop_empty i at_i is_empty is) = rw is refl
  Step-que_size s t (pop_wait i at_i is) = rw is refl
  Step-que_size s t (pop_again i at_i free is) = rw is refl
  Step-que_size s t (pop_pass i at_i ready is) = rw is refl
  Step-que_size s t (pop_take i e rest threads at_i up front w is) = rw is refl
  Step-que_size s t (pop_null i at_i shut is) = rw is refl
  Step-que_size s t (wakeup_flag is) = rw is refl
  Step-que_size s t (wakeup_notify shut is) = rw is refl
  Step-que_size s t (spurious i is) = rw is refl

  -- However the threads are scheduled: the queue keeps its size and never holds more tasks than
  -- that, the tasks come out in the order in which they were stored and none is lost, at most one
  -- thread has the mutex, and a thread that goes on to take a task while the queue is open finds
  -- one.
  pub Steps-Inv : (sz : ℕ) (s : State A) → Steps (initial sz) s → Inv s × (s.que_size ≡ sz)
  unfolding new_queue
  Steps-Inv sz s start = (initial-Inv sz, refl)
  Steps-Inv sz s (then_step {t} run step) =
      let (h, size) = Steps-Inv sz t run in (Step-Inv t s step h, Step-que_size t s step ∙ size)
