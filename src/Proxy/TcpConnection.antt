-- ===== src/Proxy/TcpConnection.antt =====
-- proxy_server/tcp/TcpConnection.cc: what a worker does with a connection that has become readable.
-- A connection's socket, type and addresses never change, and its other fields are used by its own
-- methods only, so the tables hold the fixed part, `Endpoint`, for a `TcpConnectionPtr`.
-- Positions are kept as they are in `int` variables: texts are shorter than 2^31 bytes.
pub mod ForwardPath
pub mod RequestLine
pub mod ClientField
pub mod Forwarding
pub mod Leaving
pub mod Merged
pub mod Segments
pub mod ErrorText
pub mod Reply
pub mod RoundTrip
pub mod Stuck
pub mod Effects
pub mod Fitting
pub mod Consistent
mod Types
mod Request
use micro_business_server.Base.{
  ℕ, zero, suc, ◌+◌, ◌-◌, Bool, true, false, ◌||◌, List, [], ◌∷◌, ◌++◌, map, Option, none, some,
  ◌==◌, if◌then◌else◌, length, take, drop,
}
use micro_business_server.Base.Int.{ℤ, int_eq}
use micro_business_server.Base.Map.{Map, find, assign, erase, text_key, int_key}
use micro_business_server.Base.Text.{
  Bytes, codes, text_eq, find_first, find_text, find_last, at, substr,
}
use micro_business_server.Proxy.InetAddress.{InetAddress, ip, ip_port, port, to_string}
use micro_business_server.Proxy.SocketIo.{Incoming, readn}
pub use micro_business_server.Proxy.TcpConnection.Types.{
  HttpCode, bad_request, get_request, ConnectionType, client, server, Endpoint, TcpConnection,
  Tables, JsonMember, number, text, JsonValue, Platform,
}
pub use micro_business_server.Proxy.TcpConnection.Request.{
  is_space, is_newline, is_slash, is_method, is_protocol,
}
unfoldable pub use micro_business_server.Proxy.TcpConnection.Request.{
  contains, next_pos, forward_loop, find_forward_path, parse_target, parse_chopped,
  parse_request_line, getline,
}

-- `char buf[32]; snprintf(buf, sizeof buf, …)` keeps 31 bytes.
abbrev pub snprintf32 : Bytes → Bytes
snprintf32 s = take 31 s

abbrev pub crlf : Bytes
crlf = codes "\r\n"

-- The text of `error_handle`.
unfoldable pub error_response : Platform → ℕ → Bytes → JsonValue → Bytes
error_response platform code message data_value =
    let body = platform.write_json data_value in
    snprintf32 (codes "HTTP/1.1 " ++ (to_string code ++ codes " "))
    ++ (message
        ++ (crlf
            ++ (codes "Connection: close\r\n"
                ++ (snprintf32 (codes "Content-Length: " ++ (to_string (length body) ++ crlf))
                    ++ (codes "Content-Type: application/json\r\n" ++ (crlf ++ body))))))

-- Both uses of `error_handle` send this.
unfoldable pub not_found : Platform → Bytes
not_found platform =
    error_response platform 404 (codes "404 Not Found")
      ((codes "code", number 404) ∷ (codes "message", text (codes "404 Not Found")) ∷ [])

-- `send` as the text handed to `writen`, by socket.
abbrev pub Sent : Type 0
Sent = List (ℤ × Bytes)

pub record Outcome : Type 0 where
  pub conn : TcpConnection
  pub tables : Tables
  pub sent : Sent

abbrev pub done : TcpConnection → Tables → Sent → Option Outcome
done c t s = some (record { conn = c; tables = t; sent = s })

-- The message with the line `Client: ip:port` behind its first line.
unfoldable pub add_client : Bytes → Bytes → Bytes
add_client client_addr buf =
    let field = codes "Client: " ++ (client_addr ++ crlf) in
    elim (find_first is_newline buf) [
      | none ↦ field ++ buf
      | some i ↦ take (i + 1) buf ++ (field ++ drop (i + 1) buf)
    ]

-- The end of `do_client2server`, on the list of servers at the business code.
-- `none`: a null pointer is dereferenced.
unfoldable pub forward_to :
    Platform → TcpConnection → Tables → Bytes → Option (List ℤ) → Option Outcome
forward_to platform c t message none =
    done c (record t { forwarding = assign c.business_code [] t.forwarding })
      ((c.sock_fd, not_found platform) ∷ [])
forward_to platform c t message (some []) = done c t ((c.sock_fd, not_found platform) ∷ [])
forward_to platform c t message (some (fd ∷ fds)) = elim (find fd t.server_conns) [
  | none ↦ none
  | some e ↦ done (record c { read_buf = [] }) t ((e.sock_fd, message) ∷ [])
]

unfoldable pub answer : Platform → TcpConnection → Tables → HttpCode → Option Outcome
answer platform c t bad_request = done c t ((c.sock_fd, not_found platform) ∷ [])
answer platform c t get_request =
    forward_to platform c t (add_client (ip_port platform.inet_ntoa c.peer_addr) c.read_buf)
      (find c.business_code t.forwarding)

-- The client has gone.
abbrev pub forget_client : Platform → TcpConnection → Tables → Tables
forget_client platform c t = record t {
  client_conns = erase c.sock_fd t.client_conns;
  client_table = erase (ip_port platform.inet_ntoa c.peer_addr) t.client_table;
}

unfoldable pub do_client2server : Platform → TcpConnection → Tables → Incoming → Option Outcome
do_client2server platform c t incoming =
    let (buf, open_still) = readn incoming c.read_buf in
    let c1 = record c { read_buf = buf } in
    if open_still
    then (let (c2, code) = parse_request_line t.forwarding c1 (getline buf) in
        answer platform c2 t code)
    else done c1 (forget_client platform c1 t) []

-- `std::find` and `erase` on one list of servers.
unfoldable pub remove_first : ℤ → List ℤ → List ℤ
remove_first fd [] = []
remove_first fd (x ∷ xs) = if int_eq x fd then xs else x ∷ remove_first fd xs

abbrev pub forget_server : ℤ → Tables → Tables
forget_server fd t = record t {
  server_conns = erase fd t.server_conns;
  forwarding = map (λ entry. (entry.0, remove_first fd entry.1)) t.forwarding;
}

-- The text between `Client: ` and the last byte of its line; `none` for either early return.
unfoldable pub client_field : Bytes → Option Bytes
client_field buf = elim (find_text (codes "Client: ") buf) [
  | none ↦ none
  | some found ↦
      let beg_pos = found + 8 in
      elim (find_first is_newline (drop (beg_pos + 1) buf)) [
        | none ↦ none
        | some rest ↦ some (substr buf beg_pos (rest + (beg_pos + 1) - beg_pos - 1))
      ]
]

-- The rest of `do_server2client`, on the client's socket number.
unfoldable pub deliver : TcpConnection → Tables → Option ℤ → Option Outcome
deliver c t none = done c t []
deliver c t (some fd) = elim (find fd t.client_conns) [
  | none ↦ none
  | some e ↦ done (record c { read_buf = [] }) t ((e.sock_fd, c.read_buf) ∷ [])
]

unfoldable pub route_reply : TcpConnection → Tables → Option Outcome
route_reply c t = elim (client_field c.read_buf) [
  | none ↦ done c t []
  | some name ↦ deliver c t (find name t.client_table)
]

unfoldable pub do_server2client : TcpConnection → Tables → Incoming → Option Outcome
do_server2client c t incoming =
    let (buf, open_still) = readn incoming c.read_buf in
    route_reply (record c { read_buf = buf }) (if open_still then t else forget_server c.sock_fd t)

-- `process` is this at the connection's own type.
unfoldable pub process_as :
    ConnectionType → Platform → TcpConnection → Tables → Incoming → Option Outcome
process_as server platform c t incoming = do_server2client c t incoming
process_as client platform c t incoming = do_client2server platform c t incoming

unfoldable pub process : Platform → TcpConnection → Tables → Incoming → Option Outcome
process platform c t incoming = process_as c.type platform c t incoming

-- `toString`.
pub to_text : Platform → Endpoint → Bytes
to_text platform e =
    ip platform.inet_ntoa e.local_addr
    ++ b':' ∷ to_string (port e.local_addr)
    ++ codes " --> "
    ++ ip platform.inet_ntoa e.peer_addr
    ++ b':' ∷ to_string (port e.peer_addr)
