-- ===== src/Business/KeepAlive.antt =====
-- The values of the query over the messages of one connection, which HttpContext.h resets in
-- between.
use micro_business_server.Base.{
  ℕ, zero, suc, ◌+◌, List, [], ◌∷◌, Option, none, some, inl, inr, ◌≡◌, refl, sym, ap, ◌∙◌, length,
  take, drop, Bool-cases, Option-cases,
}
use micro_business_server.Base.Map.{Map, find, assign, text_key, find-assign}
use micro_business_server.Base.Text.{Bytes, find_first, text_eq}
use micro_business_server.Business.Request.{
  HttpRequest, is_equals, is_ampersand, query_loop, parse_query, set_query, new_request, swap,
  reset, get_query,
}

-- The first value, if there is one, or else the second.
abbrev pub or_else : Option Bytes → Option Bytes → Option Bytes
or_else none b = b
or_else (some a) b = some a

or_else_assoc : (a b c : Option Bytes) → or_else a (or_else b c) ≡ or_else (or_else a b) c
or_else_assoc none b c = refl
or_else_assoc (some a) b c = refl

find-assign_or :
    (key k v : Bytes) (m : Map Bytes Bytes)
    → find key (assign k v m) ≡ or_else (find key (assign k v [])) (find key m)
unfolding find assign
find-assign_or key k v m = elim (Bool-cases (text_eq k key)) [
  | inl e ↦ find-assign k key v m ∙ rw (e, find, assign)
  | inr e ↦ find-assign k key v m ∙ rw (e, find, assign)
]

query_loop-or :
    (key : Bytes) (fuel : ℕ) (left : Bytes) (m : Map Bytes Bytes)
    → find key (query_loop fuel left m) ≡ or_else (find key (query_loop fuel left [])) (find key m)
unfolding query_loop find
query_loop-or key zero left m = refl
query_loop-or key (suc fuel) [] m = refl
query_loop-or key (suc fuel) (c ∷ left) m = elim (Option-cases (find_first is_equals (c ∷ left))) [
  | inl e ↦ rw (query_loop, e)
  | inr (i, e) ↦
      let k = take i (c ∷ left) in
      let behind = drop (i + 1) (c ∷ left) in
      elim (Option-cases (find_first is_ampersand behind)) [
        | inl last ↦ rw (query_loop, e, last) (find-assign_or key k behind m)
        | inr (j, more) ↦
            let v = take j behind in
            let rest = drop (j + 1) behind in
            let first = find key (query_loop fuel rest []) in
            let direct = query_loop-or key fuel rest (assign k v m) in
            let alone = query_loop-or key fuel rest (assign k v []) in
            rw (query_loop, e, more)
              (direct
                ∙ ap (or_else first) (find-assign_or key k v m)
                ∙ or_else_assoc first (find key (assign k v [])) (find key m)
                ∙ ap (λ o. or_else o (find key m)) (sym alone))
      ]
]

-- A message whose target has a query, or has none, in which case `setQuery` is not called.
abbrev pub receive : Option Bytes → HttpRequest → HttpRequest
receive none req = req
receive (some query) req = set_query query req

-- The request as it stands before the next message: every message is followed by a reset.
pub served : List (Option Bytes) → HttpRequest → HttpRequest
served [] req = req
served (query ∷ queries) req = served queries (reset (receive query req))

-- What a query on its own gives for a key.
abbrev pub given : Bytes → Option Bytes → Option Bytes
given key none = none
given key (some query) = find key (parse_query query [])

-- What the last query gives that has the key.
abbrev pub last_given : Bytes → List (Option Bytes) → Option Bytes → Option Bytes
last_given key [] before = before
last_given key (query ∷ queries) before = last_given key queries (or_else (given key query) before)

receive-given :
    (key : Bytes) (query : Option Bytes) (req : HttpRequest)
    → get_query (receive query req) key ≡ or_else (given key query) (get_query req key)
unfolding get_query set_query parse_query
receive-given key none req = refl
receive-given key (some query) req = query_loop-or key (length query) (drop 1 query) req.querys

get_query-reset : (key : Bytes) (req : HttpRequest) → get_query (reset req) key ≡ get_query req key
unfolding get_query reset swap
get_query-reset key req = refl

served-last_given :
    (key : Bytes) (queries : List (Option Bytes)) (req : HttpRequest)
    → get_query (served queries req) key ≡ last_given key queries (get_query req key)
unfolding served
served-last_given key [] req = refl
served-last_given key (query ∷ queries) req =
    served-last_given key queries (reset (receive query req))
    ∙ ap (last_given key queries)
        (get_query-reset key (receive query req) ∙ receive-given key query req)

-- On a connection that is kept, `getQuery` answers a key that the message does not have with the
-- value of the last earlier message that had it, whoever sent that: the reset between two messages
-- leaves the values of the query.
pub get_query-served :
    (key : Bytes) (queries : List (Option Bytes)) (query : Option Bytes)
    → get_query (receive query (served queries new_request)) key
      ≡ or_else (given key query) (last_given key queries none)
unfolding get_query find
get_query-served key queries query =
    receive-given key query (served queries new_request)
    ∙ ap (or_else (given key query)) (served-last_given key queries new_request)
