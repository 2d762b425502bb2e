-- ===== src/Tests/Segments.antt =====
-- A request and a reply that come in two parts.
use micro_business_server.Base.{[], ◌∷◌, ◌++◌, some, ◌≡◌, refl, ◌==◌}
use micro_business_server.Base.Int.{pos}
use micro_business_server.Base.Map.{find, text_key, int_key}
use micro_business_server.Base.Search.{find_first-misses}
use micro_business_server.Base.Text.{Bytes, codes, find_first, find_text, starts_with}
use micro_business_server.Proxy.InetAddress.{
  ip_port, ip, port, swap_bytes, to_string, to_string_loop,
}
use micro_business_server.Proxy.SocketIo.{again, chunk, c_string}
use micro_business_server.Proxy.TcpConnection.Reply.{IsRegistered}
use micro_business_server.Proxy.TcpConnection.RoundTrip.{forwarded}
use micro_business_server.Proxy.TcpConnection.Segments.{tail_refused, tail_misdirected}
use micro_business_server.Proxy.TcpConnection.Stuck.{
  IsRefused, bad_request-IsRefused, client_rounds, server_rounds,
}
use micro_business_server.Proxy.TcpConnection.{
  Endpoint, Tables, not_found, parse_chopped, parse_request_line,
}
use micro_business_server.Tests.Inputs.{
  platform, customer, shop, fresh, tables, request, request-IsServed, customer-IsRegistered,
}

abbrev field : Bytes
field = codes "name=soap\r"

field-IsRefused : IsRefused tables.forwarding field
unfolding parse_request_line parse_chopped find_first
field-IsRefused = bad_request-IsRefused tables.forwarding (fresh customer) field refl

-- The body comes alone, and then a request that would be right.
tail_refused_example :
    client_rounds platform (fresh customer) (
      (tables, chunk request again)
      ∷ (tables, chunk (field ++ b'\n' ∷ codes "n=2") again)
      ∷ (tables, chunk request again)
      ∷ [])
    ≡ some (
        (
          pos 5,
          forwarded platform
              (fresh customer)
              (codes "GET /10001/show/ HTTP/1.1\r")
              (codes "Host: a\r\n\r\n"),
        )
        ∷ (pos 9, not_found platform)
        ∷ (pos 9, not_found platform)
        ∷ [])
unfolding c_string find_first
tail_refused_example =
    tail_refused platform (fresh customer) tables (chunk request again)
      (codes "GET /10001/show/ HTTP/1.1\r") (codes "Host: a\r\n\r\n") shop tables
      (chunk (field ++ b'\n' ∷ codes "n=2") again) field (codes "n=2")
      ((tables, chunk request again) ∷ []) request-IsServed
      (find_first-misses (λ c. c == b'\n') field refl) refl
      ((field-IsRefused, refl), ((field-IsRefused, refl), tt))

-- At 10.0.0.1:8033.
abbrev neighbour : Endpoint
neighbour = record customer {
  sock_fd = pos 10;
  peer_addr = record { sin_addr = 7; sin_port = 24863 };
}

abbrev two_clients : Tables
two_clients = record tables {
  client_table = (codes "10.0.0.1:7777", pos 9) ∷ (codes "10.0.0.1:8033", pos 10) ∷ [];
  client_conns = (pos 9, customer) ∷ (pos 10, neighbour) ∷ [];
}

neighbour-IsRegistered : IsRegistered platform two_clients neighbour
unfolding ip_port ip port swap_bytes to_string to_string_loop find find_first
neighbour-IsRegistered = record {
  fd = pos 10;
  in_table = refl;
  in_conns = refl;
  is_text = find_first-misses (λ c. c == b'\n') (codes "10.0.0.1:8033") refl;
  ne_nil = λ e. cc;
}

abbrev reply_head : Bytes
reply_head = codes "HTTP/1.1 200 OK\r\nClient: 10.0.0.1:7777\r\nContent-Length: 6\r\n\r\n"

abbrev next_reply : Bytes
next_reply = codes "HTTP/1.1 200 OK\r\nClient: 10.0.0.1:8033\r\n\r\n"

-- The neighbour gets the body that is not for it.
tail_misdirected_example :
    server_rounds (fresh shop) (
      (tables, chunk reply_head again)
      ∷ (two_clients, chunk (codes "secret") again)
      ∷ (two_clients, chunk next_reply again)
      ∷ [])
    ≡ some ((pos 9, reply_head) ∷ (pos 10, codes "secret" ++ next_reply) ∷ [])
unfolding c_string find_text starts_with ip_port ip port swap_bytes to_string to_string_loop
tail_misdirected_example =
    tail_misdirected platform (fresh shop) tables two_clients (chunk reply_head again)
      (chunk (codes "secret") again) (chunk next_reply again) customer neighbour
      (codes "HTTP/1.1 200 OK\r") (codes "Content-Length: 6\r\n\r\n")
      (codes "secretHTTP/1.1 200 OK\r") (codes "\r\n") refl refl refl customer-IsRegistered refl
      refl refl refl refl neighbour-IsRegistered
