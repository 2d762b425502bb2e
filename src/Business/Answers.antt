-- ===== src/Business/Answers.antt =====
-- What a handler of server1.cc returns: a response of `error_handle` or `sucess_handle`, or none.
use micro_business_server.Base.{
  ℕ, true, List, [], ◌∷◌, Option, none, some, ◌⊎◌, inl, inr, ◌≡◌, refl, Bool-cases,
}
use micro_business_server.Base.Except.{Result-cases, stoi}
use micro_business_server.Base.Int.{ℤ, int_lt}
use micro_business_server.Base.Map.{text_key}
use micro_business_server.Base.Text.{Bytes, codes, text_eq}
use micro_business_server.Business.Request.{HttpRequest, get_query, get_header}
use micro_business_server.Business.Server.{
  Row, Mysql, Library, HttpResponse, Exit, returned, unknown, network_error, not_there, too_few,
  error_handle, sucess_handle, select_text, update_text, fails, update_stock, buy_row, buy_result,
  buy, do_buy, show_result, do_show, on_request,
}

-- An empty value of a query.
abbrev pub AsksNothing : HttpRequest → Type 0
AsksNothing req =
    (get_query req (codes "commodity_id") ≡ some []) ⊎ (get_query req (codes "num") ≡ some [])

-- The messages of `error_handle`.
abbrev pub IsMessage : Bytes → Type 0
IsMessage message =
    (message ≡ network_error)
    ⊎ (message ≡ not_there)
    ⊎ (message ≡ too_few)
    ⊎ (message ≡ codes "Not Found!")

module _ (P : HttpResponse → Type 0) (req : HttpRequest) (resp : HttpResponse) where
  -- The response has the property, but for a request to buy with an empty value, which gets the
  -- response as it was.
  abbrev pub IsAnswered : Exit → Type 0
  IsAnswered (returned r) =
      P r ⊎ ((r ≡ resp) × (text_eq req.path (codes "/10001/buy/") ≡ true) × AsksNothing req)
  IsAnswered _ = Unit

  module _ {S : Type 0} (mysql : Mysql S) (library : Library)
      (errors : (code : ℕ) (message : Bytes)
        → IsMessage message
        → P (error_handle library resp code message (get_header req (codes "Client"))))
      (successes : (body : Bytes)
        → P (sucess_handle resp 200 (codes "OK") body (get_header req (codes "Client")))) where
    fails-IsAnswered :
        (code : ℕ) (message : Bytes)
        → IsMessage message
        → IsAnswered (fails mysql library req resp code message)
    fails-IsAnswered code message known = inl (errors code message known)

    update_stock-IsAnswered :
        (id num : Bytes) (n : ℤ) (row : Row) (s : S)
        → IsAnswered (update_stock mysql library req resp id num n row s).1
    unfolding update_stock
    update_stock-IsAnswered id num n row s =
        elim (Bool-cases (mysql.mysql_query s (update_text num id)).1) [
          | inl e ↦ rw (update_stock, e) (fails-IsAnswered unknown network_error (inl refl))
          | inr e ↦
              rw (update_stock, e)
                (inl (successes (library.price_json 200 (codes "OK") n row.price)))
        ]

    buy_row-IsAnswered :
        (id num : Bytes) (rows : List Row) (s : S)
        → IsAnswered (buy_row mysql library req resp id num rows s).1
    unfolding buy_row
    buy_row-IsAnswered id num [] s = fails-IsAnswered 400 not_there (inr (inl refl))
    buy_row-IsAnswered id num (row ∷ rows) s = elim (Result-cases (stoi num)) [
      | inl (x, e) ↦ rw (buy_row, e) tt
      | inr (n, e) ↦ elim (Bool-cases (int_lt (library.atoi row.num) n)) [
        | inl few ↦ rw (buy_row, e, few) (fails-IsAnswered 400 too_few (inr (inr (inl refl))))
        | inr enough ↦ rw (buy_row, e, enough) (update_stock-IsAnswered id num n row s)
      ]
    ]

    buy_result-IsAnswered :
        (id num : Bytes) (r : S × Option (List Row))
        → IsAnswered (buy_result mysql library req resp id num r).1
    unfolding buy_result
    buy_result-IsAnswered id num (s, none) = fails-IsAnswered unknown network_error (inl refl)
    buy_result-IsAnswered id num (s, some rows) = buy_row-IsAnswered id num rows s

    do_buy-IsAnswered :
        (s : S) (i n : Option Bytes)
        → text_eq req.path (codes "/10001/buy/") ≡ true
        → get_query req (codes "commodity_id") ≡ i
        → get_query req (codes "num") ≡ n
        → IsAnswered (do_buy mysql library req resp s).1
    unfolding do_buy buy
    do_buy-IsAnswered s none n path e f = rw (do_buy, e) tt
    do_buy-IsAnswered s (some []) n path e f = rw (do_buy, e) (inr (refl, path, inl e))
    do_buy-IsAnswered s (some (c ∷ id)) none path e f = rw (do_buy, e, f) tt
    do_buy-IsAnswered s (some (c ∷ id)) (some []) path e f =
        rw (do_buy, e, f) (inr (refl, path, inr f))
    do_buy-IsAnswered s (some (c ∷ id)) (some (d ∷ num)) path e f =
        elim (Bool-cases (mysql.mysql_query s (select_text (c ∷ id))).1) [
          | inl bad ↦
              rw (do_buy, e, f, buy, bad) (fails-IsAnswered unknown network_error (inl refl))
          | inr good ↦
              rw (do_buy, e, f, buy, good)
                (buy_result-IsAnswered (c ∷ id) (d ∷ num)
                  (mysql.mysql_store_result (mysql.mysql_query s (select_text (c ∷ id))).0))
        ]

    show_result-IsAnswered :
        (r : S × Option (List Row)) → IsAnswered (show_result mysql library req resp r).1
    unfolding show_result
    show_result-IsAnswered (s, none) = fails-IsAnswered unknown network_error (inl refl)
    show_result-IsAnswered (s, some rows) =
        inl (successes (library.rows_json 200 (codes "OK") rows))

    do_show-IsAnswered : (s : S) → IsAnswered (do_show mysql library req resp s).1
    unfolding do_show
    do_show-IsAnswered s =
        elim (Bool-cases (mysql.mysql_query s (codes "select * from cosmetics")).1) [
          | inl bad ↦ rw (do_show, bad) (fails-IsAnswered unknown network_error (inl refl))
          | inr good ↦
              rw (do_show, good)
                (show_result-IsAnswered (
                  mysql.mysql_store_result
                    (mysql.mysql_query s (codes "select * from cosmetics")).0))
        ]

    pub on_request-IsAnswered : (s : S) → IsAnswered (on_request mysql library req resp s).1
    unfolding on_request
    on_request-IsAnswered s = elim (Bool-cases (text_eq req.path (codes "/10001/buy/"))) [
      | inl buys ↦
          rw (on_request, buys)
            (do_buy-IsAnswered s (get_query req (codes "commodity_id"))
              (get_query req (codes "num")) buys refl refl)
      | inr other ↦ elim (Bool-cases (text_eq req.path (codes "/10001/show/"))) [
        | inl shows ↦ rw (on_request, other, shows) (do_show-IsAnswered s)
        | inr none_of_them ↦
            rw (on_request, other, none_of_them)
              (fails-IsAnswered 400 (codes "Not Found!") (inr (inr (inr refl))))
      ]
    ]
