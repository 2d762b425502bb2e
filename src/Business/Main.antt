-- ===== src/Business/Main.antt =====
-- `main` of http_server/server1.cc and server2.cc: the options, and the connections to the database.
-- The server class and its event loop are muduo's.
pub mod Limits
use micro_business_server.Base.{
  ℕ, zero, suc, ◌-◌, ◌^◌, ◌%◌, Bool, List, [], ◌∷◌, Option, none, some,
}
use micro_business_server.Base.Int.{ℤ, pos, negsuc, to_unsigned}
use micro_business_server.Base.Text.{Bytes}
use micro_business_server.Business.Options.{Config, new_config, parse_arg}
use micro_business_server.Business.Pool.{ConnectionPool, new_pool, init}

-- What the loop of `init` goes up to.
abbrev pub rounds_of : ℤ → ℕ
rounds_of (pos n) = n
rounds_of (negsuc n) = 0

-- The connections of the rounds; `answers i` is what the MySQL calls of round `i` would make.
unfoldable pub rounds : ℕ → (ℕ → Option ℕ) → List (Option ℕ)
rounds zero answers = []
rounds (suc n) answers = answers 0 ∷ rounds n (λ i. answers (suc i))

-- What `start` is called on: the port, the number of threads, and the pool.
pub record BusinessServer : Type 0 where
  pub port : ℕ
  pub thread_num : ℤ
  pub pool : ConnectionPool

-- `main` up to `start`. The result of `init` is not looked at.
unfoldable pub main : (Bytes → ℤ) → List (ℕ × Bytes) → (ℕ → Option ℕ) → BusinessServer
main atoi opts answers =
    let config = parse_arg atoi opts new_config in
    let (pool, is_open) = init (rounds (rounds_of config.sql_num) answers) new_pool in
    record { port = to_unsigned 16 config.port; thread_num = config.thread_num; pool = pool }
