-- ===== src/Tests/Queue.antt =====
-- The theorems on the task queue at small runs.
use micro_business_server.Base.{ℕ, arith, some, [], ◌∷◌, ◌++◌, ◌≡◌, refl, false, List}
use micro_business_server.Proxy.TaskQueue.{
  State, Steps, start, then_step, initial, new_queue, push_lock, push_store, pop_lock, outside,
  pushing, pop_deciding, popping, put, nobody, full,
}
use micro_business_server.Proxy.TaskQueue.Safety.{Inv, Steps-Inv}
use micro_business_server.Proxy.TaskQueue.Shut.{Steps-shut}

-- Thread 1 stores the task 7.
abbrev stored_seven : State ℕ
stored_seven = record (initial 2) {
  queue = record (new_queue 2) { que = 7 ∷ [] };
  threads = put 1 outside (put 1 (pushing 7) (λ i. outside));
  stored = 7 ∷ [];
}

store_seven : Steps (initial 2) stored_seven
unfolding new_queue full put
store_seven =
    then_step (then_step start (push_lock 1 7 refl refl refl))
      (push_store 1 7 _ refl refl (nobody (λ j. ground arith) refl) refl)

Steps-Inv_example : Inv stored_seven × (stored_seven.que_size ≡ 2)
Steps-Inv_example = Steps-Inv 2 stored_seven store_seven

-- A queue that is shut while it holds the task 7.
abbrev shut_seven : State ℕ
shut_seven = record (initial 2) {
  queue = record (new_queue 2) { que = 7 ∷ []; flag = false };
  stored = 7 ∷ [];
}

abbrev shut_locked : State ℕ
shut_locked = record shut_seven { threads = put 1 popping shut_seven.threads; holder = some 1 }

Steps-shut_example :
    (shut_locked.flag ≡ false)
    × (shut_locked.taken ≡ shut_seven.taken)
    × ((rest : List ℕ) × (shut_locked.que ≡ shut_seven.que ++ rest)
        × (shut_locked.stored ≡ shut_seven.stored ++ rest))
Steps-shut_example =
    Steps-shut shut_seven shut_locked (then_step start (pop_lock 1 refl refl refl)) refl

-- Thread 0 has found the queue empty.
abbrev about_to_wait : State ℕ
about_to_wait = record (initial 2) { threads = put 0 pop_deciding (λ i. outside); holder = some 0 }
