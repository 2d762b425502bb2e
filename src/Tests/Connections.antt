-- ===== src/Tests/Connections.antt =====
-- The theorems on the pool of database connections at a pool of two.
use micro_business_server.Base.{
  ℕ, true, false, List, [], ◌∷◌, Option, some, ◌≡◌, ◌↔◌, ◌≢◌, arith, refl,
}
use micro_business_server.Business.Pool.Accounting.{
  Usage, Steps, start, then_step, gets, opened, with_temporary-shares,
}
use micro_business_server.Business.Pool.Bags.{Lendings, bags, opened-refines}
use micro_business_server.Business.Pool.{
  ConnectionPool, wait, blocks, undefined, got, take_back, get_connection, release_connection, init,
  with_temporary,
}
use micro_business_server.Business.Pool.Race.{
  RaceSteps, Racing, idle, holding, get_connection-doubles,
}

abbrev two : ConnectionPool
two = record { conn_list = 8 ∷ 7 ∷ []; reserve = 2 }

abbrev one_left : ConnectionPool
one_left = record { conn_list = 7 ∷ []; reserve = 1 }

abbrev one_taken : Usage
one_taken = record { pool = one_left; held = 8 ∷ [] }

abbrev made_two : List (Option ℕ)
made_two = some 7 ∷ some 8 ∷ []

take_one : Steps (opened made_two) one_taken
unfolding init release_connection get_connection wait take_back
take_one = then_step start (gets 8 one_left refl refl)

opened-refines_example :
    Lendings (bags (opened made_two)) (bags one_taken)
    × ((get_connection false one_left ≡ blocks) ↔ (one_left.conn_list ≡ []))
    × ¬ (get_connection false one_left ≡ undefined)
    × ((get_connection true one_left ≡ undefined) ↔ (one_left.conn_list ≡ []))
    × ¬ (get_connection true one_left ≡ blocks)
opened-refines_example = opened-refines made_two one_taken take_one

with_temporary-shares_example : with_temporary false two ≡ got 8 two
unfolding with_temporary get_connection wait take_back release_connection
with_temporary-shares_example = with_temporary-shares two two 8 refl

get_connection-doubles_example :
    (t : Racing) × RaceSteps
      (record { pool = record { conn_list = 8 ∷ 7 ∷ []; reserve = 2 }; threads = λ _. idle })
      t
    × (t.pool ≡ record { conn_list = []; reserve = 0 })
    × (t.threads 0 ≡ holding 8)
    × (t.threads 1 ≡ holding 8)
    × ((k : ℕ) → k ≢ 0 → k ≢ 1 → t.threads k ≡ idle)
get_connection-doubles_example =
    get_connection-doubles (λ _. idle) 0 1 8 7 0 [] (ground arith) refl refl
