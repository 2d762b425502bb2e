-- ===== src/Business/Request.antt =====
-- http_server/HttpRequest.h: the query string and the look-ups of a request.
use micro_business_server.Base.{
  ℕ, zero, suc, ◌+◌, Bool, [], ◌∷◌, Option, none, some, ◌==◌, length, take, drop,
}
use micro_business_server.Base.Map.{Map, find, assign, text_key}
use micro_business_server.Base.Text.{Bytes, find_first}

-- The fields that the handlers read.
pub record HttpRequest : Type 0 where
  pub path : Bytes
  pub headers : Map Bytes Bytes
  pub querys : Map Bytes Bytes

abbrev pub is_equals : ℕ → Bool
is_equals c = c == b'='

abbrev pub is_ampersand : ℕ → Bool
is_ampersand c = c == b'&'

-- The loop of `parse_query`, on what is left of the query behind `beg`. Each round but the last
-- takes at least two bytes, so as much fuel as bytes is enough.
unfoldable pub query_loop : ℕ → Bytes → Map Bytes Bytes → Map Bytes Bytes
query_loop zero left querys = querys
query_loop (suc fuel) [] querys = querys
query_loop (suc fuel) (c ∷ left) querys = elim (find_first is_equals (c ∷ left)) [
  | none ↦ querys
  | some equals ↦
      let key = take equals (c ∷ left) in
      let behind = drop (equals + 1) (c ∷ left) in
      elim (find_first is_ampersand behind) [
        | none ↦ assign key behind querys
        | some end ↦ query_loop fuel (drop (end + 1) behind) (assign key (take end behind) querys)
      ]
]

-- `parse_query` of a query that starts with `?`.
unfoldable pub parse_query : Bytes → Map Bytes Bytes → Map Bytes Bytes
parse_query query querys = query_loop (length query) (drop 1 query) querys

-- The text of a key that is missing: `none`, since the end of `querys_` is compared with the end of
-- `headers_` and then dereferenced.
unfoldable pub get_query : HttpRequest → Bytes → Option Bytes
get_query req field = find field req.querys

unfoldable pub get_header : HttpRequest → Bytes → Bytes
get_header req field = elim (find field req.headers) [ none ↦ [] | some value ↦ value ]

-- `setQuery`. A request starts without values.
unfoldable pub set_query : Bytes → HttpRequest → HttpRequest
set_query query req = record req { querys = parse_query query req.querys }

abbrev pub new_request : HttpRequest
new_request = record { path = []; headers = []; querys = [] }

-- `swap` exchanges every member but `querys_`.
unfoldable pub swap : HttpRequest → HttpRequest → HttpRequest × HttpRequest
swap a b = (record b { querys = a.querys }, record a { querys = b.querys })

-- `HttpContext::reset`, between two messages of a connection.
unfoldable pub reset : HttpRequest → HttpRequest
reset req = (swap req new_request).0
