-- ===== src/Proxy/TaskQueue.antt =====
-- proxy_server/threadpool/TaskQueue.hpp: the bounded queue between the event loop and the workers,
-- as steps of numbered threads. A step is what a thread does between two points where another can
-- run: the mutex orders `push` and `pop`, and `wakeup`, which does not take it, can come anywhere.
pub mod Mutex
pub mod Safety
pub mod LostWakeup
pub mod Shut
use micro_business_server.Base.{
  ℕ, Bool, true, false, ◌&&◌, List, [], ◌∷◌, ◌++◌, Option, none, some, ◌≡◌, ◌==◌, if◌then◌else◌,
  length,
}

-- Where a thread stands. `pushing`, `popping`, `deciding` and `passed` hold the mutex: before the
-- test of the loop, between a test that holds and `wait`, and behind the loop of `pop`. A sleeper is
-- in `wait`; one that has been woken still has to take the mutex.
pub data Thread {ℓ} (A : Type ℓ) : Type ℓ where
  outside : Thread A
  pushing push_deciding push_sleeping push_woken : A → Thread A
  popping pop_deciding pop_sleeping pop_woken pop_passed : Thread A

pub record TaskQueue {ℓ} (A : Type ℓ) : Type ℓ where
  pub que_size : ℕ
  pub que : List A
  pub flag : Bool

module _ {ℓ} {A : Type ℓ} where
  unfoldable pub new_queue : ℕ → TaskQueue A
  new_queue sz = record { que_size = sz; que = []; flag = true }

  abbrev pub is_nil : List A → Bool
  is_nil [] = true
  is_nil (x ∷ xs) = false

  unfoldable pub empty : TaskQueue A → Bool
  empty q = is_nil q.que

  unfoldable pub full : TaskQueue A → Bool
  full q = length q.que == q.que_size

-- The queue, the holder of the mutex, the threads, and what has been stored and taken so far.
pub record State {ℓ} (A : Type ℓ) : Type ℓ where
  pub queue : TaskQueue A
  pub open queue use *
  pub holder : Option ℕ
  pub threads : ℕ → Thread A
  pub stored : List A
  pub taken : List A

module _ {ℓ} {A : Type ℓ} where
  unfoldable pub put : ℕ → Thread A → (ℕ → Thread A) → ℕ → Thread A
  put i v f j = if i == j then v else f j

  abbrev pub sleeps_in_pop : Thread A → Bool
  sleeps_in_pop pop_sleeping = true
  sleeps_in_pop _ = false

  abbrev pub sleeps_in_push : Thread A → Bool
  sleeps_in_push (push_sleeping e) = true
  sleeps_in_push _ = false

  unfoldable pub wake : Thread A → Thread A
  wake pop_sleeping = pop_woken
  wake (push_sleeping e) = push_woken e
  wake t = t

  -- `notify_one` wakes one of the sleepers, if there is one.
  pub data NotifyOne (sleeps : Thread A → Bool) (f g : ℕ → Thread A) : Type ℓ where
    nobody : ((j : ℕ) → sleeps (f j) ≡ false) → g ≡ f → NotifyOne sleeps f g
    one : (j : ℕ) → sleeps (f j) ≡ true → g ≡ put j (wake (f j)) f → NotifyOne sleeps f g

  -- `notify_all` on `_notEmpty`.
  unfoldable pub notify_all : (ℕ → Thread A) → ℕ → Thread A
  notify_all f j = if sleeps_in_pop (f j) then wake (f j) else f j

  -- A step of the thread `i` that leaves the queue alone.
  abbrev moves : State A → ℕ → Thread A → Option ℕ → State A
  moves s i v holder = record s { threads = put i v s.threads; holder = holder }

  abbrev stores : State A → A → (ℕ → Thread A) → State A
  stores s e threads = record s {
    queue = record s.queue { que = s.que ++ e ∷ [] };
    threads = threads;
    holder = none;
    stored = s.stored ++ e ∷ [];
  }

  abbrev takes : State A → A → List A → (ℕ → Thread A) → State A
  takes s e rest threads = record s {
    queue = record s.queue { que = rest };
    threads = threads;
    holder = none;
    taken = s.taken ++ e ∷ [];
  }

  pub data Step (s t : State A) : Type ℓ where
    -- push
    push_lock :
        (i : ℕ) (e : A)
        → s.threads i ≡ outside
        → s.holder ≡ none
        → t ≡ moves s i (pushing e) (some i)
        → Step s t
    push_full :
        (i : ℕ) (e : A)
        → s.threads i ≡ pushing e
        → full s.queue ≡ true
        → t ≡ moves s i (push_deciding e) s.holder
        → Step s t
    push_wait :
        (i : ℕ) (e : A)
        → s.threads i ≡ push_deciding e
        → t ≡ moves s i (push_sleeping e) none
        → Step s t
    push_again :
        (i : ℕ) (e : A)
        → s.threads i ≡ push_woken e
        → s.holder ≡ none
        → t ≡ moves s i (pushing e) (some i)
        → Step s t
    push_store :
        (i : ℕ) (e : A) (threads : ℕ → Thread A)
        → s.threads i ≡ pushing e
        → full s.queue ≡ false
        → NotifyOne sleeps_in_pop (put i outside s.threads) threads
        → t ≡ stores s e threads
        → Step s t
    -- pop
    pop_lock :
        (i : ℕ)
        → s.threads i ≡ outside
        → s.holder ≡ none
        → t ≡ moves s i popping (some i)
        → Step s t
    pop_empty :
        (i : ℕ)
        → s.threads i ≡ popping
        → s.flag && empty s.queue ≡ true
        → t ≡ moves s i pop_deciding s.holder
        → Step s t
    pop_wait : (i : ℕ) → s.threads i ≡ pop_deciding → t ≡ moves s i pop_sleeping none → Step s t
    pop_again :
        (i : ℕ)
        → s.threads i ≡ pop_woken
        → s.holder ≡ none
        → t ≡ moves s i popping (some i)
        → Step s t
    pop_pass :
        (i : ℕ)
        → s.threads i ≡ popping
        → s.flag && empty s.queue ≡ false
        → t ≡ moves s i pop_passed s.holder
        → Step s t
    pop_take :
        (i : ℕ) (e : A) (rest : List A) (threads : ℕ → Thread A)
        → s.threads i ≡ pop_passed
        → s.flag ≡ true
        → s.que ≡ e ∷ rest
        → NotifyOne sleeps_in_push (put i outside s.threads) threads
        → t ≡ takes s e rest threads
        → Step s t
    pop_null :
        (i : ℕ) → s.threads i ≡ pop_passed → s.flag ≡ false → t ≡ moves s i outside none → Step s t
    -- wakeup, in its two parts
    wakeup_flag : t ≡ record s { queue = record s.queue { flag = false } } → Step s t
    wakeup_notify : s.flag ≡ false → t ≡ record s { threads = notify_all s.threads } → Step s t
    -- a sleeper may wake with no reason
    spurious : (i : ℕ) → t ≡ moves s i (wake (s.threads i)) s.holder → Step s t

  -- Runs of any length, with the threads in any order.
  pub data Steps (s : State A) : State A → Type ℓ where
    start : Steps s s
    then_step : {t u : State A} → Steps s t → Step t u → Steps s u

  -- All threads outside, nothing stored.
  abbrev pub initial : ℕ → State A
  initial sz = record {
    queue = new_queue sz;
    holder = none;
    threads = λ i. outside;
    stored = [];
    taken = [];
  }
