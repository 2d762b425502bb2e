-- ===== src/Proxy/TcpConnection/Forwarding.antt =====
-- `do_client2server`: a request goes to the server of its location, or is answered with 404.
use micro_business_server.Base.{
  true, false, List, [], ◌∷◌, ◌++◌, some, ◌≡◌, refl, ◌∙◌, arith, length,
}
use micro_business_server.Base.Int.{ℤ}
use micro_business_server.Base.Map.{Map, find, text_key, int_key}
use micro_business_server.Base.Positions.{take-front}
use micro_business_server.Base.Search.{find_first-append}
use micro_business_server.Base.Text.{Bytes}
use micro_business_server.Proxy.InetAddress.{ip_port}
use micro_business_server.Proxy.SocketIo.Reading.{received, stays_open, readn_lem}
use micro_business_server.Proxy.SocketIo.{Incoming}
use micro_business_server.Proxy.TcpConnection.ClientField.{NoNewline, client_line, add_client_lem}
use micro_business_server.Proxy.TcpConnection.RequestLine.{IsRequest, parse_request_line_iff}
use micro_business_server.Proxy.TcpConnection.{
  Endpoint, TcpConnection, Tables, Platform, HttpCode, get_request, done, is_newline, getline,
  parse_target, parse_chopped, parse_request_line, add_client, forward_to, answer, forget_client,
  do_client2server,
}

pub getline_lem : (raw rest : Bytes) → NoNewline raw → getline (raw ++ b'\n' ∷ rest) ≡ raw
unfolding getline
getline_lem raw rest h =
    rw (getline, find_first-append is_newline raw b'\n' rest h refl)
      (take-front raw (b'\n' ∷ rest) (length raw) refl)

-- Parsing leaves the socket and the buffer alone.
pub parse_request_line-keeps :
    (table : Map Bytes (List ℤ)) (c : TcpConnection) (raw : Bytes)
    → ((parse_request_line table c raw).0.fixed ≡ c.fixed)
      × ((parse_request_line table c raw).0.read_buf ≡ c.read_buf)
unfolding parse_request_line parse_chopped parse_target
parse_request_line-keeps table c raw = ground arith

module _ (platform : Platform) (c : TcpConnection) (t : Tables) where
  -- The method once the message has been read.
  pub do_client2server-open :
      (i : Incoming) (d : TcpConnection) (code : HttpCode)
      → stays_open i ≡ true
      → parse_request_line t.forwarding
          (record c { read_buf = c.read_buf ++ received i })
          (getline (c.read_buf ++ received i))
        ≡ (d, code)
      → do_client2server platform c t i ≡ answer platform d t code
  unfolding do_client2server
  do_client2server-open i d code h e = rw (do_client2server, readn_lem i c.read_buf, h, e)

  -- A client that has gone is taken out of both tables, and nothing is sent.
  pub do_client2server-closed :
      (i : Incoming)
      → stays_open i ≡ false
      → do_client2server platform c t i
        ≡ done (record c { read_buf = c.read_buf ++ received i }) (forget_client platform c t) []
  unfolding do_client2server
  do_client2server-closed i h = rw (do_client2server, readn_lem i c.read_buf, h)

  answer-forwards :
      (fd : ℤ) (fds : List ℤ) (e : Endpoint)
      → find c.business_code t.forwarding ≡ some (fd ∷ fds)
      → find fd t.server_conns ≡ some e
      → answer platform c t get_request
        ≡ done
            (record c { read_buf = [] })
            t
            ((e.sock_fd, add_client (ip_port platform.inet_ntoa c.peer_addr) c.read_buf) ∷ [])
  unfolding answer forward_to
  answer-forwards fd fds e f s = rw (answer, f, forward_to, s)

-- A request is sent to the first server of its location with the line `Client: ip:port` behind the
-- request line and nothing else changed; the buffer is empty again and the tables are as before.
pub do_client2server-forwards :
    (platform : Platform) (c : TcpConnection) (t : Tables) (i : Incoming)
    (raw rest path code : Bytes) (fd : ℤ) (fds : List ℤ) (e : Endpoint)
    → stays_open i ≡ true
    → c.read_buf ++ received i ≡ raw ++ b'\n' ∷ rest
    → NoNewline raw
    → IsRequest t.forwarding raw path code
    → find code t.forwarding ≡ some (fd ∷ fds)
    → find fd t.server_conns ≡ some e
    → do_client2server platform c t i
      ≡ done
          (record c { read_buf = []; path = path; business_code = code })
          t
          ((e.sock_fd, raw ++ b'\n' ∷ client_line (ip_port platform.inet_ntoa c.peer_addr) rest)
            ∷ [])
do_client2server-forwards platform c t i raw rest path code fd fds e o m n r f s =
    let buf : Bytes = raw ++ b'\n' ∷ rest in
    let c1 : TcpConnection = record c { read_buf = buf } in
    let d : TcpConnection = record c1 { path = path; business_code = code } in
    do_client2server-open platform c t i d get_request o
      (rw (m, getline_lem raw rest n) ((parse_request_line_iff t.forwarding c1 raw d).1 (r, refl)))
    ∙ answer-forwards platform d t fd fds e f s
    ∙ rw (add_client_lem (ip_port platform.inet_ntoa c.peer_addr) raw rest n)
