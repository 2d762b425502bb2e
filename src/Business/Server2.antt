-- ===== src/Business/Server2.antt =====
-- http_server/server2.cc: the handlers of the second business server, over the same library calls.
-- The lock is held from the SELECT to the UPDATE; one handler runs at a time in the model.
use micro_business_server.Base.{ℕ, List, [], ◌∷◌, ◌++◌, Option, none, some, if◌then◌else◌}
use micro_business_server.Base.Except.{ok, throw, stoi}
use micro_business_server.Base.Int.{ℤ, int_lt}
use micro_business_server.Base.Map.{assign, text_key}
use micro_business_server.Base.Text.{Bytes, codes, text_eq}
use micro_business_server.Business.Request.{HttpRequest, get_query, get_header}
use micro_business_server.Business.Server.{
  Row, Mysql, Library, HttpResponse, Exit, returned, threw, undefined, unknown, network_error,
  not_there, too_few,
}

unfoldable pub sucess_handle : HttpResponse → ℕ → Bytes → Bytes → Bytes → HttpResponse
sucess_handle resp code message body client = record {
  status_code = code;
  status_message = message;
  headers =
      assign (codes "Client") client
        (assign (codes "Content-Type") (codes "application/json") resp.headers);
  body = body;
}

unfoldable pub error_handle : Library → HttpResponse → ℕ → Bytes → Bytes → HttpResponse
error_handle library resp code message client = record {
  status_code = code;
  status_message = message;
  headers =
      assign (codes "Content-Type") (codes "application/json")
        (assign (codes "Client") client resp.headers);
  body = library.error_json code message;
}

-- The two statements that `do_buy` sends.
abbrev pub select_text : Bytes → Bytes
select_text id = codes "SELECT * FROM wines WHERE id=" ++ id

abbrev pub update_text : Bytes → Bytes → Bytes
update_text num id = codes "UPDATE wines SET num=num-" ++ (num ++ (codes " WHERE id=" ++ id))

module _ {S : Type 0} (mysql : Mysql S) (library : Library) where
  abbrev pub fails : HttpRequest → HttpResponse → ℕ → Bytes → Exit
  fails req resp code message =
      returned (error_handle library resp code message (get_header req (codes "Client")))

  -- Behind the test of the stock.
  unfoldable pub update_stock : HttpRequest → HttpResponse → Bytes → Bytes → ℤ → Row → S → S × Exit
  update_stock req resp id num n row s =
      let (t, failed) = mysql.mysql_query s (update_text num id) in
      if failed then (t, fails req resp unknown network_error) else (
        t,
        returned (
            sucess_handle resp 200 (codes "OK") (library.price_json 200 (codes "OK") n row.price)
              (get_header req (codes "Client"))),
      )

  -- On the rows of the result; only the first is read.
  unfoldable pub buy_row : HttpRequest → HttpResponse → Bytes → Bytes → List Row → S → S × Exit
  buy_row req resp id num [] s = (s, fails req resp 400 not_there)
  buy_row req resp id num (row ∷ rows) s = elim (stoi num) [
    | throw e ↦ (s, threw e)
    | ok n ↦
        if int_lt (library.atoi row.num) n
        then (s, fails req resp 400 too_few)
        else update_stock req resp id num n row s
  ]

  unfoldable pub buy_result :
      HttpRequest → HttpResponse → Bytes → Bytes → S × Option (List Row) → S × Exit
  buy_result req resp id num (s, none) = (s, fails req resp unknown network_error)
  buy_result req resp id num (s, some rows) = buy_row req resp id num rows s

  -- On the two values of the query.
  unfoldable pub buy : HttpRequest → HttpResponse → Bytes → Bytes → S → S × Exit
  buy req resp id [] s = (s, returned resp)
  buy req resp id (c ∷ num) s =
      let (t, failed) = mysql.mysql_query s (select_text id) in
      if failed
      then (t, fails req resp unknown network_error)
      else buy_result req resp id (c ∷ num) (mysql.mysql_store_result t)

  unfoldable pub do_buy : HttpRequest → HttpResponse → S → S × Exit
  do_buy req resp s = elim (get_query req (codes "commodity_id")) [
    | none ↦ (s, undefined)
    | some [] ↦ (s, returned resp)
    | some (c ∷ id) ↦ elim (get_query req (codes "num")) [
      | none ↦ (s, undefined)
      | some num ↦ buy req resp (c ∷ id) num s
    ]
  ]

  unfoldable pub show_result : HttpRequest → HttpResponse → S × Option (List Row) → S × Exit
  show_result req resp (s, none) = (s, fails req resp unknown network_error)
  show_result req resp (s, some rows) = (
    s,
    returned (
        sucess_handle resp 200 (codes "OK") (library.rows_json 200 (codes "OK") rows)
          (get_header req (codes "Client"))),
  )

  unfoldable pub do_show : HttpRequest → HttpResponse → S → S × Exit
  do_show req resp s =
      let (t, failed) = mysql.mysql_query s (codes "select * from wines") in
      if failed
      then (t, fails req resp unknown network_error)
      else show_result req resp (mysql.mysql_store_result t)

  unfoldable pub on_request : HttpRequest → HttpResponse → S → S × Exit
  on_request req resp s =
      if text_eq req.path (codes "/10002/buy/")
      then do_buy req resp s
      else if text_eq req.path (codes "/10002/show/")
      then do_show req resp s
      else (s, fails req resp 400 (codes "Not Found!"))
