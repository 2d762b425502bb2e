-- ===== src/Business/Pool.antt =====
-- http_server/sql_connection_pool.cpp and sem.h: the pool of database connections.
-- A connection is a number. `conn_list` is the list from its back. Here one operation runs at a
-- time; `GetConnection` does not take the lock, and Race has its parts as steps of threads.
pub mod Accounting
pub mod Race
pub mod Bags
use micro_business_server.Base.{
  ℕ, zero, suc, ◌+◌, Bool, true, false, List, [], ◌∷◌, ◌++◌, Option, none, some,
}

pub record ConnectionPool : Type 0 where
  pub conn_list : List ℕ
  pub reserve : ℕ

abbrev pub new_pool : ConnectionPool
new_pool = record { conn_list = []; reserve = 0 }

-- `sem::wait`: what is left of the semaphore; `none` while it blocks. An interrupted wait fails and
-- takes nothing.
unfoldable pub wait : Bool → ℕ → Option ℕ
wait true value = some value
wait false zero = none
wait false (suc value) = some value

-- How `GetConnection` ends; `undefined`: `back` of an empty list.
pub data Got : Type 0 where
  blocks : Got
  undefined : Got
  got : ℕ → ConnectionPool → Got

unfoldable pub take_back : List ℕ → ℕ → Got
take_back [] reserve = undefined
take_back (conn ∷ conns) reserve = got conn (record { conn_list = conns; reserve = reserve })

-- The result of `wait` is not looked at. This is a call that no other call of the pool overlaps; the
-- code takes no lock, and Race has the parts of overlapping calls.
unfoldable pub get_connection : Bool → ConnectionPool → Got
get_connection interrupted pool = elim (wait interrupted pool.reserve) [
  | none ↦ blocks
  | some reserve ↦ take_back pool.conn_list reserve
]

unfoldable pub release_connection : ℕ → ConnectionPool → ConnectionPool
release_connection conn pool = record {
  conn_list = conn ∷ pool.conn_list;
  reserve = pool.reserve + 1;
}

-- The rounds of `init`: the connection that each one makes, `none` where a call gives NULL.
unfoldable pub init : List (Option ℕ) → ConnectionPool → ConnectionPool × Bool
init [] pool = (pool, true)
init (none ∷ made) pool = (pool, false)
init (some conn ∷ made) pool = init made (release_connection conn pool)

-- The statement `connectionRAII(&conn, sql_conn_pool);` of a handler: a temporary, destroyed at
-- its end. The handler goes on to use the connection.
unfoldable pub with_temporary : Bool → ConnectionPool → Got
with_temporary interrupted pool = elim (get_connection interrupted pool) [
  | blocks ↦ blocks
  | undefined ↦ undefined
  | got conn rest ↦ got conn (release_connection conn rest)
]

-- The loop of the destructor, from the front of the list.
unfoldable pub close_all : List ℕ → List ℕ
close_all [] = []
close_all (conn ∷ conns) = close_all conns ++ conn ∷ []

-- The destructor: the connections that it closes, and the pool behind it.
unfoldable pub destroy : ConnectionPool → List ℕ × ConnectionPool
destroy pool = (close_all pool.conn_list, record pool { conn_list = [] })
