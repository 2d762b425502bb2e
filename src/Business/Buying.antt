-- ===== src/Business/Buying.antt =====
-- When a purchase changes the stock.
use micro_business_server.Base.{
  true, false, List, [], ◌∷◌, Option, none, some, inl, inr, ◌⊎◌, ◌≡◌, refl, ◌∙◌, Bool-cases,
}
use micro_business_server.Base.Except.{Result-cases, ok, stoi}
use micro_business_server.Base.Int.{ℤ, int_lt}
use micro_business_server.Base.Text.{Bytes, codes}
use micro_business_server.Business.Request.{HttpRequest, get_query, get_header}
use micro_business_server.Business.Server.{
  Row, Mysql, Library, HttpResponse, Exit, returned, sucess_handle, select_text, update_text,
  update_stock, buy_row, buy_result, buy, do_buy,
}

-- Reading does not change the stock, and neither does an update that fails.
pub record KeepsStock {S T : Type 0} (mysql : Mysql S) (stock : S → T) : Type 0 where
  pub reads : (s : S) (id : Bytes) → stock (mysql.mysql_query s (select_text id)).0 ≡ stock s
  pub stores : (s : S) → stock (mysql.mysql_store_result s).0 ≡ stock s
  pub failing :
      (s : S) (num id : Bytes)
      → (mysql.mysql_query s (update_text num id)).1 ≡ true
      → stock (mysql.mysql_query s (update_text num id)).0 ≡ stock s

module _ {S : Type 0} (mysql : Mysql S) (library : Library) where
  -- The answer to a purchase that has gone through.
  abbrev pub sold : HttpRequest → HttpResponse → ℤ → Row → Exit
  sold req resp n row = returned (
      sucess_handle resp 200 (codes "OK") (library.price_json 200 (codes "OK") n row.price)
        (get_header req (codes "Client")))

  -- One row was read at the id, it has as many pieces as are asked for, and its update succeeded.
  pub record IsSale (req : HttpRequest) (resp : HttpResponse) (id num : Bytes) (w u : S) (e : Exit)
      (rows : List Row) : Type 0 where
    pub row : Row
    pub others : List Row
    pub found : rows ≡ row ∷ others
    pub n : ℤ
    pub number : stoi num ≡ ok n
    pub enough : int_lt (library.atoi row.num) n ≡ false
    pub updated : (mysql.mysql_query w (update_text num id)).1 ≡ false
    pub state : u ≡ (mysql.mysql_query w (update_text num id)).0
    pub answer : e ≡ sold req resp n row

  module _ {T : Type 0} (stock : S → T) (keeps : KeepsStock mysql stock) (req : HttpRequest)
      (resp : HttpResponse) (id num : Bytes) where
    update_stock-sells :
        (n : ℤ) (row : Row) (others : List Row) (w : S)
        → stoi num ≡ ok n
        → int_lt (library.atoi row.num) n ≡ false
        → (stock (update_stock mysql library req resp id num n row w).0 ≡ stock w)
          ⊎ IsSale req resp id num w
              (update_stock mysql library req resp id num n row w).0
              (update_stock mysql library req resp id num n row w).1
              (row ∷ others)
    unfolding update_stock
    update_stock-sells n row others w number enough =
        elim (Bool-cases (mysql.mysql_query w (update_text num id)).1) [
          | inl e ↦ inl (rw (update_stock, e) (keeps.failing w num id e))
          | inr e ↦ inr (record {
            row = row;
            others = others;
            found = refl;
            n = n;
            number = number;
            enough = enough;
            updated = e;
            state = rw (update_stock, e);
            answer = rw (update_stock, e);
          })
        ]

    buy_row-sells :
        (rows : List Row) (w : S)
        → (stock (buy_row mysql library req resp id num rows w).0 ≡ stock w)
          ⊎ IsSale req resp id num w
              (buy_row mysql library req resp id num rows w).0
              (buy_row mysql library req resp id num rows w).1
              rows
    unfolding buy_row
    buy_row-sells [] w = inl refl
    buy_row-sells (row ∷ others) w = elim (Result-cases (stoi num)) [
      | inl (x, e) ↦ inl (rw (buy_row, e))
      | inr (n, e) ↦ elim (Bool-cases (int_lt (library.atoi row.num) n)) [
        | inl few ↦ inl (rw (buy_row, e, few))
        | inr enough ↦ rw (buy_row, e, enough) (update_stock-sells n row others w e enough)
      ]
    ]

    buy_result-sells :
        (w : S) (r : Option (List Row))
        → (stock (buy_result mysql library req resp id num (w, r)).0 ≡ stock w)
          ⊎ ((rows : List Row) × (r ≡ some rows)
              × IsSale req resp id num w
                  (buy_result mysql library req resp id num (w, r)).0
                  (buy_result mysql library req resp id num (w, r)).1
                  rows)
    unfolding buy_result
    buy_result-sells w none = inl refl
    buy_result-sells w (some rows) = elim (buy_row-sells rows w) [
      | inl same ↦ inl same
      | inr sale ↦ inr (rows, refl, sale)
    ]

  -- The database behind the SELECT, and what is read of its result.
  abbrev pub looked_up : S → Bytes → S × Option (List Row)
  looked_up s id = mysql.mysql_store_result (mysql.mysql_query s (select_text id)).0

  -- A request that changes the stock is a purchase that has gone through.
  pub record IsPurchase (req : HttpRequest) (resp : HttpResponse) (s u : S) (e : Exit)
      : Type 0 where
    pub id : Bytes
    pub num : Bytes
    pub asked : get_query req (codes "commodity_id") ≡ some id
    pub many : get_query req (codes "num") ≡ some num
    pub rows : List Row
    pub read : (mysql.mysql_query s (select_text id)).1 ≡ false
    pub result : (looked_up s id).1 ≡ some rows
    pub sale : IsSale req resp id num (looked_up s id).0 u e rows

  module _ {T : Type 0} (stock : S → T) (keeps : KeepsStock mysql stock) (req : HttpRequest)
      (resp : HttpResponse) where
    buy-sells :
        (id num : Bytes) (s : S)
        → get_query req (codes "commodity_id") ≡ some id
        → get_query req (codes "num") ≡ some num
        → (stock (buy mysql library req resp id num s).0 ≡ stock s)
          ⊎ IsPurchase req resp s
              (buy mysql library req resp id num s).0
              (buy mysql library req resp id num s).1
    unfolding buy
    buy-sells id [] s asked many = inl refl
    buy-sells id (c ∷ num) s asked many =
        elim (Bool-cases (mysql.mysql_query s (select_text id)).1) [
          | inl e ↦ inl (rw (buy, e) (keeps.reads s id))
          | inr e ↦
              elim (buy_result-sells stock keeps req resp id (c ∷ num) (looked_up s id).0
                (looked_up s id).1) [
                  | inl same ↦ inl (rw (buy, e) (same ∙ keeps.stores _ ∙ keeps.reads s id))
                  | inr (rows, result, sale) ↦ inr (record {
                    id = id;
                    num = c ∷ num;
                    asked = asked;
                    many = many;
                    rows = rows;
                    read = e;
                    result = result;
                    sale = rw (buy, e) sale;
                  })
                ]
        ]

  -- However a request to buy ends, the stock is as before, or the request is a purchase that has
  -- gone through: it has both values, a row was found at the id with at least as many pieces as
  -- asked for, the update with them succeeded, and the answer is 200. The database is taken to keep
  -- the stock where it is only asked for a row and where an update fails.
  pub do_buy-sells :
      {T : Type 0} (stock : S → T)
      → KeepsStock mysql stock
      → (req : HttpRequest) (resp : HttpResponse) (s : S)
      → (stock (do_buy mysql library req resp s).0 ≡ stock s)
        ⊎ IsPurchase req resp s
            (do_buy mysql library req resp s).0
            (do_buy mysql library req resp s).1
  unfolding do_buy
  do_buy-sells stock keeps req resp s =
      by_values (get_query req (codes "commodity_id")) refl (get_query req (codes "num")) refl
    where
      by_values :
          (o : Option Bytes)
          → get_query req (codes "commodity_id") ≡ o
          → (p : Option Bytes) → get_query req (codes "num") ≡ p
          → (stock (do_buy mysql library req resp s).0 ≡ stock s)
            ⊎ IsPurchase req resp s
                (do_buy mysql library req resp s).0
                (do_buy mysql library req resp s).1
      by_values none a p b = inl (rw (do_buy, a))
      by_values (some []) a p b = inl (rw (do_buy, a))
      by_values (some (c ∷ id)) a none b = inl (rw (do_buy, a, b))
      by_values (some (c ∷ id)) a (some num) b =
          rw (do_buy, a, b) (buy-sells stock keeps req resp (c ∷ id) num s a b)
