-- ===== src/Business/Pool/Race.antt =====
-- `GetConnection` as steps of threads: it waits for the semaphore, reads the back of the list, and
-- takes the back off, with no lock over the last two.
use micro_business_server.Base.{
  ℕ, suc, false, List, ◌∷◌, some, ◌≡◌, ◌≢◌, refl, ◌==◌, if◌then◌else◌, arith,
}
use micro_business_server.Business.Pool.{ConnectionPool, wait, release_connection}

-- A thread outside, behind `wait`, with what `back` gave, and with its connection.
pub data Taker : Type 0 where
  idle granted : Taker
  chosen holding : ℕ → Taker

pub record Racing : Type 0 where
  pub pool : ConnectionPool
  pub threads : ℕ → Taker

abbrev pub put_taker : ℕ → Taker → (ℕ → Taker) → ℕ → Taker
put_taker i thread threads j = if i == j then thread else threads j

pub data RaceStep (s t : Racing) : Type 0 where
  waits :
      (i reserve : ℕ)
      → s.threads i ≡ idle
      → wait false s.pool.reserve ≡ some reserve
      → t ≡ record {
        pool = record s.pool { reserve = reserve };
        threads = put_taker i granted s.threads;
      }
      → RaceStep s t
  reads_back :
      (i conn : ℕ) (conns : List ℕ)
      → s.threads i ≡ granted
      → s.pool.conn_list ≡ conn ∷ conns
      → t ≡ record s { threads = put_taker i (chosen conn) s.threads }
      → RaceStep s t
  pops_back :
      (i conn back : ℕ) (conns : List ℕ)
      → s.threads i ≡ chosen conn
      → s.pool.conn_list ≡ back ∷ conns
      → t ≡ record {
        pool = record s.pool { conn_list = conns };
        threads = put_taker i (holding conn) s.threads;
      }
      → RaceStep s t
  gives :
      (i conn : ℕ)
      → s.threads i ≡ holding conn
      → t ≡ record { pool = release_connection conn s.pool; threads = put_taker i idle s.threads }
      → RaceStep s t

pub data RaceSteps (s : Racing) : Racing → Type 0 where
  stay : RaceSteps s s
  next : {t u : Racing} → RaceSteps s t → RaceStep t u → RaceSteps s u

-- From any pool of two connections or more, two threads that call `GetConnection` at the same time
-- can both get the connection at the back, while the one in front of it is lost: it is off the list
-- and nobody has it.
pub get_connection-doubles :
    (threads : ℕ → Taker) (i j c d n : ℕ) (conns : List ℕ)
    → i ≢ j
    → threads i ≡ idle
    → threads j ≡ idle
    → (t : Racing) × RaceSteps
        (record {
          pool = record { conn_list = c ∷ d ∷ conns; reserve = suc (suc n) };
          threads = threads;
        })
        t
      × (t.pool ≡ record { conn_list = conns; reserve = n })
      × (t.threads i ≡ holding c)
      × (t.threads j ≡ holding c)
      × ((k : ℕ) → k ≢ i → k ≢ j → t.threads k ≡ threads k)
unfolding wait
get_connection-doubles threads i j c d n conns ne idle_i idle_j = (
  _,
  next
      (next
        (next
          (next
            (next (next stay (waits i (suc n) idle_i refl refl))
              (waits j n (ground (arith, idle_j)) refl refl))
            (reads_back i c (d ∷ conns) (ground arith) refl refl))
          (reads_back j c (d ∷ conns) (ground arith) refl refl))
        (pops_back i c c (d ∷ conns) (ground arith) refl refl))
      (pops_back j c d conns (ground arith) refl refl),
  refl,
  ground arith,
  ground arith,
  λ k a b. ground arith,
)
