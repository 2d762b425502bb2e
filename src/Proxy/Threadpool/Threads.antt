-- ===== src/Proxy/Threadpool/Threads.antt =====
-- proxy_server/threadpool/Thread.cc and the destructors: what becomes of the threads of the pool.
use micro_business_server.Base.{
  ℕ, Bool, true, false, List, [], ◌∷◌, ◌++◌, Option, none, some, ◌≡◌, refl, ap, ◌∙◌, map,
  if◌then◌else◌, append-nil,
}

pub record Thread : Type 0 where
  pub pthid : ℕ
  pub is_running : Bool

abbrev pub new_thread : Thread
new_thread = record { pthid = 0; is_running = false }

-- The calls that give a thread back to the system.
pub data ThreadCall : Type 0 where
  pthread_join pthread_detach : ℕ → ThreadCall

-- `Thread::start`, on the id that `pthread_create` gives, `none` where it fails.
unfoldable pub start_thread : Option ℕ → Thread → Thread
start_thread none t = t
start_thread (some id) t = record { pthid = id; is_running = true }

unfoldable pub join_thread : Thread → Thread × List ThreadCall
join_thread t =
    if t.is_running then (record t { is_running = false }, pthread_join t.pthid ∷ []) else (t, [])

-- `~Thread`.
unfoldable pub destroy_thread : Thread → List ThreadCall
destroy_thread t = if t.is_running then pthread_detach t.pthid ∷ [] else []

-- `Threadpool::start`, with one answer for each thread.
unfoldable pub start_threads : List (Option ℕ) → List Thread
start_threads [] = []
start_threads (answer ∷ answers) = start_thread answer new_thread ∷ start_threads answers

-- The end of `Threadpool::stop`.
unfoldable pub join_threads : List Thread → List Thread × List ThreadCall
join_threads [] = ([], [])
join_threads (t ∷ ts) =
    let (u, calls) = join_thread t in let (us, later) = join_threads ts in (u ∷ us, calls ++ later)

-- The threads are members of the pool, and go with it.
unfoldable pub destroy_threads : List Thread → List ThreadCall
destroy_threads [] = []
destroy_threads (t ∷ ts) = destroy_thread t ++ destroy_threads ts

-- `~Threadpool` calls `stop` where nobody has, on the threads and `_isExit`.
unfoldable pub destroy_pool : Bool → List Thread → List ThreadCall
destroy_pool true ts = destroy_threads ts
destroy_pool false ts = let (us, calls) = join_threads ts in calls ++ destroy_threads us

-- The threads that `pthread_create` made.
abbrev pub made : List (Option ℕ) → List ℕ
made [] = []
made (none ∷ answers) = made answers
made (some id ∷ answers) = id ∷ made answers

join_threads-made :
    (answers : List (Option ℕ))
    → ((join_threads (start_threads answers)).1 ≡ map pthread_join (made answers))
      × (destroy_threads (join_threads (start_threads answers)).0 ≡ [])
unfolding join_threads start_threads start_thread join_thread destroy_threads destroy_thread
join_threads-made [] = (refl, refl)
join_threads-made (none ∷ answers) = join_threads-made answers
join_threads-made (some id ∷ answers) =
    let (joins, nothing) = join_threads-made answers in (ap (◌∷◌ (pthread_join id)) joins, nothing)

-- Whichever threads could be made: each of them is joined once, in their order, and none is
-- detached, whether `stop` is called and then the pool is destroyed or the pool is destroyed at once,
-- where every join returns.
pub destroy_pool-joins :
    (answers : List (Option ℕ))
    → let started : List Thread = start_threads answers in
      let (joined, calls) = join_threads started in
      (calls ++ destroy_pool true joined ≡ map pthread_join (made answers))
      × (destroy_pool false started ≡ map pthread_join (made answers))
unfolding destroy_pool
destroy_pool-joins answers =
    let (joins, nothing) = join_threads-made answers in
    let both =
      ap (◌++◌ (join_threads (start_threads answers)).1) nothing
      ∙ append-nil (join_threads (start_threads answers)).1
      ∙ joins in
    (both, both)
