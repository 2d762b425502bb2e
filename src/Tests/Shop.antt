-- ===== src/Tests/Shop.antt =====
-- The theorems on a business server at a small database.
use micro_business_server.Base.{
  ℕ, ◌+◌, Bool, true, false, [], ◌∷◌, some, ◌≡◌, ◌⊎◌, refl, ◌==◌, if◌then◌else◌,
}
use micro_business_server.Base.Except.{ok, throw, stoi}
use micro_business_server.Base.Int.{pos}
use micro_business_server.Base.Map.{text_key}
use micro_business_server.Base.Search.{find_first-misses}
use micro_business_server.Base.Text.{Bytes, codes, find_first}
use micro_business_server.Business.Buying.{KeepsStock, IsPurchase, do_buy-sells}
use micro_business_server.Business.QueryText.{
  query_text, assign_all, IsPair, parse_query-query_text,
}
use micro_business_server.Business.SameShop.{SameExit, Corresponds, handlers_same}
use micro_business_server.Business.Server2
use micro_business_server.Business.Request.{HttpRequest, parse_query}
use micro_business_server.Business.Server.{Row, Mysql, Library, HttpResponse, do_buy, do_show}

abbrev pub lotion : Row
lotion = record {
  id = codes "7";
  name = codes "lotion";
  num = codes "10";
  price = codes "2.5";
  des = [];
}

-- A database of one row whose state counts the updates; a statement that starts with S reads.
abbrev pub answer_to : ℕ → Bytes → ℕ × Bool
answer_to s [] = (s, true)
answer_to s (c ∷ q) = if c == b'S' then (s, false) else (s + 1, false)

abbrev pub mysql : Mysql ℕ
mysql = record { mysql_query = answer_to; mysql_store_result = λ s. (s, some (lotion ∷ [])) }

abbrev pub library : Library
library = record {
  atoi = λ s. elim (stoi s) [ ok n ↦ n | throw e ↦ pos 0 ];
  error_json = λ code message. message;
  price_json = λ code message n price. price;
  rows_json = λ code message rows. message;
}

mysql-KeepsStock : KeepsStock mysql (λ s. s)
mysql-KeepsStock = record { reads = λ s id. refl; stores = λ s. refl; failing = λ s num id e. cc }

abbrev order_of : Bytes → HttpRequest
order_of num = record {
  path = codes "/10001/buy/";
  headers = [];
  querys = (codes "commodity_id", codes "7") ∷ (codes "num", num) ∷ [];
}

abbrev empty_response : HttpResponse
empty_response = record { status_code = 0; status_message = []; headers = []; body = [] }

do_buy-sells_example :
    ((do_buy mysql library (order_of (codes "3")) empty_response 0).0 ≡ 0)
    ⊎ IsPurchase mysql library
        (order_of (codes "3"))
        empty_response
        0
        (do_buy mysql library (order_of (codes "3")) empty_response 0).0
        (do_buy mysql library (order_of (codes "3")) empty_response 0).1
do_buy-sells_example =
    do_buy-sells mysql library (λ s. s) mysql-KeepsStock (order_of (codes "3")) empty_response 0

abbrev a_pair : Bytes × Bytes
a_pair = (codes "commodity_id", codes "7")

abbrev another_pair : Bytes × Bytes
another_pair = (codes "num", codes "3")

a_pair-IsPair : IsPair a_pair
unfolding find_first
a_pair-IsPair = record {
  key = find_first-misses (λ c. c == b'=') (codes "commodity_id") refl;
  value = refl;
  bytes = find_first-misses (λ c. c == b'&') (codes "7") refl;
}

another_pair-IsPair : IsPair another_pair
unfolding find_first
another_pair-IsPair = record {
  key = find_first-misses (λ c. c == b'=') (codes "num") refl;
  value = refl;
  bytes = find_first-misses (λ c. c == b'&') (codes "3") refl;
}

parse_query-query_text_example :
    parse_query (b'?' ∷ query_text a_pair (another_pair ∷ [])) []
    ≡ assign_all a_pair (another_pair ∷ []) []
parse_query-query_text_example =
    parse_query-query_text a_pair (another_pair ∷ []) [] a_pair-IsPair (another_pair-IsPair, tt)

mysql-Corresponds : Corresponds mysql mysql
mysql-Corresponds = record {
  reads = λ s id. refl;
  updates = λ s num id. refl;
  shows = λ s. refl;
  stores = λ s. refl;
}

handlers_same_example :
    (((do_buy mysql library (order_of (codes "3")) empty_response 0).0
        ≡ (Server2.do_buy mysql library (order_of (codes "3")) empty_response 0).0)
      × SameExit
          (do_buy mysql library (order_of (codes "3")) empty_response 0).1
          (Server2.do_buy mysql library (order_of (codes "3")) empty_response 0).1)
    × (((do_show mysql library (order_of (codes "3")) empty_response 0).0
          ≡ (Server2.do_show mysql library (order_of (codes "3")) empty_response 0).0)
        × SameExit
            (do_show mysql library (order_of (codes "3")) empty_response 0).1
            (Server2.do_show mysql library (order_of (codes "3")) empty_response 0).1)
handlers_same_example =
    handlers_same library mysql mysql mysql-Corresponds (order_of (codes "3")) empty_response 0
