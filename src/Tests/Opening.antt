-- ===== src/Tests/Opening.antt =====
-- A business server that is started with two connections to its database.
use micro_business_server.Base.{
  ℕ, ◌+◌, ◌≤◌, false, List, [], ◌∷◌, Option, some, ◌≡◌, refl, length, ◌↔◌,
}
use micro_business_server.Base.Except.{stoi}
use micro_business_server.Base.Int.{pos}
use micro_business_server.Base.Text.{Bytes, codes}
use micro_business_server.Business.Main.{rounds, rounds_of, main}
use micro_business_server.Business.Main.Limits.{lead, main-limits}
use micro_business_server.Business.Options.{last_value, parse_arg, set_option}
use micro_business_server.Business.Pool.{
  init, release_connection, get_connection, wait, take_back, blocks,
}
use micro_business_server.Business.Pool.Accounting.{Usage, Steps, start, then_step, gets}
use micro_business_server.Tests.Shop.{library}

abbrev options : List (ℕ × Bytes)
options = (b's', codes "2") ∷ (b'p', codes "81") ∷ []

abbrev answers : ℕ → Option ℕ
answers i = some (7 + i)

abbrev one_taken : Usage
one_taken = record { pool = record { conn_list = 7 ∷ []; reserve = 1 }; held = 8 ∷ [] }

take_one : Steps (record { pool = (main library.atoi options answers).pool; held = [] }) one_taken
unfolding main rounds parse_arg set_option stoi init release_connection get_connection wait
    take_back
take_one = then_step start (gets 8 one_taken.pool refl refl)

-- A third round is not made.
opened_two : lead (rounds_of (last_value library.atoi b's' options (pos 8))) answers ≡ 2
unfolding lead last_value stoi
opened_two = refl

main-limits_example :
    let most : ℕ = lead (rounds_of (last_value library.atoi b's' options (pos 8))) answers in
    (length one_taken.held ≤ most)
    × ((get_connection false one_taken.pool ≡ blocks) ↔ (length one_taken.held ≡ most))
main-limits_example = main-limits library.atoi options answers one_taken take_one
