-- ===== src/Tests/Kept.antt =====
-- A connection that is kept, with a purchase and then a request without a query.
use micro_business_server.Base.{[], ◌∷◌, none, some, ◌≡◌, refl}
use micro_business_server.Base.Map.{find, assign}
use micro_business_server.Base.Text.{codes, find_first}
use micro_business_server.Business.KeepAlive.{
  receive, served, given, last_given, or_else, get_query-served,
}
use micro_business_server.Business.Request.{new_request, get_query, parse_query, query_loop}

-- The value that the second message is served with is the first one's.
left_over :
    or_else
      (given (codes "num") none)
      (last_given (codes "num") (some (codes "?commodity_id=7&num=3") ∷ []) none)
    ≡ some (codes "3")
unfolding parse_query query_loop find assign find_first
left_over = refl

get_query-served_example :
    get_query
      (receive none (served (some (codes "?commodity_id=7&num=3") ∷ []) new_request))
      (codes "num")
    ≡ or_else
        (given (codes "num") none)
        (last_given (codes "num") (some (codes "?commodity_id=7&num=3") ∷ []) none)
get_query-served_example =
    get_query-served (codes "num") (some (codes "?commodity_id=7&num=3") ∷ []) none
