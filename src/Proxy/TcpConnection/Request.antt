-- ===== src/Proxy/TcpConnection/Request.antt =====
-- proxy_server/tcp/TcpConnection.cc: `find_forward_path` and `parse_request_line`.
use micro_business_server.Base.{
  ℕ, zero, suc, ◌+◌, ◌-◌, Bool, true, false, ◌||◌, List, Option, none, some, ◌==◌, if◌then◌else◌,
  length, take, drop,
}
use micro_business_server.Base.Int.{ℤ}
use micro_business_server.Base.Map.{Map, find, text_key, int_key}
use micro_business_server.Base.Text.{Bytes, codes, text_eq, find_first, find_last, at, substr}
use micro_business_server.Proxy.TcpConnection.Types.{
  HttpCode, bad_request, get_request, TcpConnection,
}

abbrev pub is_space : ℕ → Bool
is_space c = c == b' '

abbrev pub is_newline : ℕ → Bool
is_newline c = c == b'\n'

abbrev pub is_slash : ℕ → Bool
is_slash c = c == b'/'

unfoldable pub contains {ℓ} : {V : Type ℓ} → Bytes → Map Bytes V → Bool
contains k m = elim (find k m) [ none ↦ false | some v ↦ true ]

-- The next value of `pos`; 0 stands for -1 too, since both end the loop.
unfoldable pub next_pos : Bytes → ℕ → ℕ
next_pos path zero = 0
next_pos path (suc pos) =
    if at is_slash path (suc pos)
    then pos
    else elim (find_last is_slash path (suc pos)) [ none ↦ 0 | some slash ↦ slash ]

-- The loop of `find_forward_path`. Each round lowers `pos`, so fuel of `pos` is enough.
unfoldable pub forward_loop : ℕ → Map Bytes (List ℤ) → Bytes → ℕ → Option Bytes
forward_loop zero table path pos = none
forward_loop (suc fuel) table path zero = none
forward_loop (suc fuel) table path (suc pos) =
    let rest = forward_loop fuel table path (next_pos path (suc pos)) in
    if contains (take (suc pos + 1) path) table then some (take (suc pos + 1) path) else rest

-- The new business code; `none` for `false`.
unfoldable pub find_forward_path : Map Bytes (List ℤ) → Bytes → Option Bytes
find_forward_path table path = forward_loop (length path) table path (length path - 1)

abbrev pub is_method : Bytes → Bool
is_method method = text_eq method (codes "GET") || text_eq method (codes "POST")

abbrev pub is_protocol : Bytes → Bool
is_protocol protocol = text_eq protocol (codes "HTTP/1.1") || text_eq protocol (codes "HTTP/1.0")

-- `_path` is set and the forwarding path looked up; then the protocol is tested.
unfoldable pub parse_target :
    Map Bytes (List ℤ) → TcpConnection → Bytes → Bytes → TcpConnection × HttpCode
parse_target table c path protocol = elim (find_forward_path table path) [
  | none ↦ (record c { path = path }, bad_request)
  | some code ↦
      if is_protocol protocol
      then (record c { path = path; business_code = code }, get_request)
      else (record c { path = path; business_code = code }, bad_request)
]

-- On the line without its last byte.
unfoldable pub parse_chopped : Map Bytes (List ℤ) → TcpConnection → Bytes → TcpConnection × HttpCode
parse_chopped table c line = elim (find_first is_space line) [
  | none ↦ (c, bad_request)
  | some blank1 ↦
      if is_method (take blank1 line)
      then elim (find_last is_space line (length line - 1)) [
        | none ↦ (c, bad_request)
        | some blank2 ↦
            if blank2 == blank1
            then (c, bad_request)
            else parse_target table c (substr line (blank1 + 1) (blank2 - blank1 - 1))
                (drop (blank2 + 1) line)
      ]
      else (c, bad_request)
]

unfoldable pub parse_request_line :
    Map Bytes (List ℤ) → TcpConnection → Bytes → TcpConnection × HttpCode
parse_request_line table c raw = parse_chopped table c (take (length raw - 1) raw)

-- `std::getline`: the first line without its end.
unfoldable pub getline : Bytes → Bytes
getline buf = elim (find_first is_newline buf) [ none ↦ buf | some i ↦ take i buf ]
