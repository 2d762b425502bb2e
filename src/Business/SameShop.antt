-- ===== src/Business/SameShop.antt =====
-- The two business servers against each other.
use micro_business_server.Base.{
  ℕ, false, List, [], ◌∷◌, Option, none, some, inl, inr, ◌≡◌, refl, Bool-cases,
}
use micro_business_server.Base.Except.{Result-cases, stoi}
use micro_business_server.Base.Int.{ℤ, int_lt}
use micro_business_server.Base.Map.{find, assign, text_key, find-assign}
use micro_business_server.Base.Text.{Bytes, codes, text_eq}
use micro_business_server.Business.Request.{HttpRequest, get_query, get_header}
use micro_business_server.Business.Server
use micro_business_server.Business.Server.{
  Row, Mysql, Library, HttpResponse, Exit, returned, threw, undefined, unknown, network_error,
  not_there, too_few,
}
use micro_business_server.Business.Server2

abbrev pub content_type : Bytes
content_type = codes "Content-Type"

-- Two ends of a handler that differ at most in the header Content-Type.
abbrev pub SameExit : Exit → Exit → Type 0
SameExit (returned a) (returned b) =
    (a.status_code ≡ b.status_code)
    × (a.status_message ≡ b.status_message)
    × (a.body ≡ b.body)
    × ((key : Bytes) → text_eq content_type key ≡ false → find key a.headers ≡ find key b.headers)
SameExit (threw x) (threw y) = x ≡ y
SameExit undefined undefined = Unit
SameExit _ _ = ⊥

-- A database answers the second server as another answers the first one.
pub record Corresponds {S : Type 0} (a b : Mysql S) : Type 0 where
  pub reads :
      (s : S) (id : Bytes)
      → b.mysql_query s (Server2.select_text id) ≡ a.mysql_query s (Server.select_text id)
  pub updates :
      (s : S) (num id : Bytes)
      → b.mysql_query s (Server2.update_text num id) ≡ a.mysql_query s (Server.update_text num id)
  pub shows :
      (s : S)
      → b.mysql_query s (codes "select * from wines")
        ≡ a.mysql_query s (codes "select * from cosmetics")
  pub stores : (s : S) → b.mysql_store_result s ≡ a.mysql_store_result s

same-SameExit : (e : Exit) → SameExit e e
same-SameExit (returned r) = (refl, refl, refl, λ key ne. refl)
same-SameExit (threw x) = refl
same-SameExit undefined = tt

module _ {S : Type 0} (library : Library) (a b : Mysql S) (h : Corresponds a b) (req : HttpRequest)
    (resp : HttpResponse) where
  -- The new state and the end are the same.
  abbrev Same : S × Exit → S × Exit → Type 0
  Same x y = (x.0 ≡ y.0) × SameExit x.1 y.1

  fails-Same :
      (s : S) (code : ℕ) (message : Bytes)
      → Same
          (s, Server.fails a library req resp code message)
          (s, Server2.fails b library req resp code message)
  unfolding Server.error_handle Server2.error_handle
  fails-Same s code message = (
    refl,
    (
      refl,
      refl,
      refl,
      λ key ne.
          let client = get_header req (codes "Client") in
          let one =
            find-assign content_type key (codes "text/plain;charset=UTF-8")
              (assign (codes "Client") client resp.headers) in
          let two =
            find-assign content_type key (codes "application/json")
              (assign (codes "Client") client resp.headers) in
          rw (one, two, ne),
    ),
  )

  update_stock-Same :
      (id num : Bytes) (n : ℤ) (row : Row) (s : S)
      → Same
          (Server.update_stock a library req resp id num n row s)
          (Server2.update_stock b library req resp id num n row s)
  unfolding Server.update_stock Server2.update_stock Server.sucess_handle Server2.sucess_handle
  update_stock-Same id num n row s =
      elim (Bool-cases (a.mysql_query s (Server.update_text num id)).1) [
        | inl e ↦
            rw (Server2.update_stock, Server.update_stock, h.updates s num id, e)
              (fails-Same _ unknown network_error)
        | inr e ↦
            rw (Server2.update_stock, Server.update_stock, h.updates s num id, e)
              (refl, (refl, refl, refl, λ key ne. refl))
      ]

  buy_row-Same :
      (id num : Bytes) (rows : List Row) (s : S)
      → Same
          (Server.buy_row a library req resp id num rows s)
          (Server2.buy_row b library req resp id num rows s)
  unfolding Server.buy_row Server2.buy_row
  buy_row-Same id num [] s = fails-Same s 400 not_there
  buy_row-Same id num (row ∷ rows) s = elim (Result-cases (stoi num)) [
    | inl (x, e) ↦ rw (Server2.buy_row, Server.buy_row, e) (refl, refl)
    | inr (n, e) ↦ elim (Bool-cases (int_lt (library.atoi row.num) n)) [
      | inl few ↦ rw (Server2.buy_row, Server.buy_row, e, few) (fails-Same s 400 too_few)
      | inr enough ↦
          rw (Server2.buy_row, Server.buy_row, e, enough) (update_stock-Same id num n row s)
    ]
  ]

  buy_result-Same :
      (id num : Bytes) (r : S × Option (List Row))
      → Same
          (Server.buy_result a library req resp id num r)
          (Server2.buy_result b library req resp id num r)
  unfolding Server.buy_result Server2.buy_result
  buy_result-Same id num (s, none) = fails-Same s unknown network_error
  buy_result-Same id num (s, some rows) = buy_row-Same id num rows s

  buy-Same :
      (id num : Bytes) (s : S)
      → Same (Server.buy a library req resp id num s) (Server2.buy b library req resp id num s)
  unfolding Server.buy Server2.buy
  buy-Same id [] s = (refl, same-SameExit (returned resp))
  buy-Same id (c ∷ num) s = elim (Bool-cases (a.mysql_query s (Server.select_text id)).1) [
    | inl e ↦ rw (Server2.buy, Server.buy, h.reads s id, e) (fails-Same _ unknown network_error)
    | inr e ↦
        rw
          (
            Server2.buy,
            Server.buy,
            h.reads s id,
            e,
            h.stores (a.mysql_query s (Server.select_text id)).0,
          )
          (buy_result-Same id (c ∷ num) _)
  ]

  do_buy-Same :
      (s : S) (i n : Option Bytes)
      → get_query req (codes "commodity_id") ≡ i
      → get_query req (codes "num") ≡ n
      → Same (Server.do_buy a library req resp s) (Server2.do_buy b library req resp s)
  unfolding Server.do_buy Server2.do_buy
  do_buy-Same s none n e f = rw (Server2.do_buy, Server.do_buy, e) (refl, tt)
  do_buy-Same s (some []) n e f =
      rw (Server2.do_buy, Server.do_buy, e) (refl, same-SameExit (returned resp))
  do_buy-Same s (some (c ∷ id)) none e f = rw (Server2.do_buy, Server.do_buy, e, f) (refl, tt)
  do_buy-Same s (some (c ∷ id)) (some num) e f =
      rw (Server2.do_buy, Server.do_buy, e, f) (buy-Same (c ∷ id) num s)

  show_result-Same :
      (r : S × Option (List Row))
      → Same (Server.show_result a library req resp r) (Server2.show_result b library req resp r)
  unfolding Server.show_result Server2.show_result Server.sucess_handle Server2.sucess_handle
  show_result-Same (s, none) = fails-Same s unknown network_error
  show_result-Same (s, some rows) = (refl, (refl, refl, refl, λ key ne. refl))

  do_show-Same :
      (s : S) → Same (Server.do_show a library req resp s) (Server2.do_show b library req resp s)
  unfolding Server.do_show Server2.do_show
  do_show-Same s = elim (Bool-cases (a.mysql_query s (codes "select * from cosmetics")).1) [
    | inl e ↦
        rw (Server2.do_show, Server.do_show, h.shows s, e) (fails-Same _ unknown network_error)
    | inr e ↦
        rw
          (
            Server2.do_show,
            Server.do_show,
            h.shows s,
            e,
            h.stores (a.mysql_query s (codes "select * from cosmetics")).0,
          )
          (show_result-Same _)
  ]

-- The two servers are one program on two tables: where the databases answer alike, both handlers
-- leave the same state and end alike on every branch, but for the header Content-Type.
pub handlers_same :
    {S : Type 0} (library : Library) (a b : Mysql S)
    → Corresponds a b
    → (req : HttpRequest) (resp : HttpResponse) (s : S)
    → (((Server.do_buy a library req resp s).0 ≡ (Server2.do_buy b library req resp s).0)
        × SameExit (Server.do_buy a library req resp s).1 (Server2.do_buy b library req resp s).1)
      × (((Server.do_show a library req resp s).0 ≡ (Server2.do_show b library req resp s).0)
          × SameExit
              (Server.do_show a library req resp s).1
              (Server2.do_show b library req resp s).1)
handlers_same library a b h req resp s = (
  do_buy-Same library a b h req resp s (get_query req (codes "commodity_id"))
      (get_query req (codes "num")) refl refl,
  do_show-Same library a b h req resp s,
)
