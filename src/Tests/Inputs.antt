-- ===== src/Tests/Inputs.antt =====
-- Inputs of the tests: a client, a server, their tables and messages.
use micro_business_server.Base.{[], ◌∷◌, refl, ◌==◌}
use micro_business_server.Base.Search.{find_first-misses}
use micro_business_server.Base.Int.{pos}
use micro_business_server.Base.Map.{find}
use micro_business_server.Base.Text.{Bytes, codes, find_first, find_last, find_text, starts_with}
use micro_business_server.Proxy.InetAddress.{
  ip, ip_port, port, to_string, to_string_loop, swap_bytes,
}
use micro_business_server.Proxy.SocketIo.{again, chunk, c_string}
use micro_business_server.Proxy.TcpConnection.RequestLine.{IsRequest}
use micro_business_server.Proxy.TcpConnection.Reply.{IsRegistered, IsReply}
use micro_business_server.Proxy.TcpConnection.RoundTrip.{IsServed}
use micro_business_server.Proxy.TcpConnection.Stuck.{IsRefused, bad_request-IsRefused}
use micro_business_server.Proxy.TcpConnection.{
  Endpoint, TcpConnection, Tables, Platform, client, server, contains, next_pos, forward_loop,
  find_forward_path, parse_chopped, parse_request_line, client_field,
}

abbrev pub platform : Platform
platform = record { inet_ntoa = λ _. codes "10.0.0.1"; write_json = λ _. codes "{}" }

abbrev pub customer : Endpoint
customer = record {
  sock_fd = pos 9;
  type = client;
  local_addr = record { sin_addr = 1; sin_port = 4391 };
  peer_addr = record { sin_addr = 7; sin_port = 24862 };
}

abbrev pub shop : Endpoint
shop = record {
  sock_fd = pos 5;
  type = server;
  local_addr = record { sin_addr = 1; sin_port = 4391 };
  peer_addr = record { sin_addr = 8; sin_port = 4647 };
}

abbrev pub fresh : Endpoint → TcpConnection
fresh e = record { fixed = e; read_buf = []; path = []; business_code = [] }

abbrev pub tables : Tables
tables = record {
  forwarding = (codes "/10001/", pos 5 ∷ []) ∷ [];
  client_table = (codes "10.0.0.1:7777", pos 9) ∷ [];
  server_conns = (pos 5, shop) ∷ [];
  client_conns = (pos 9, customer) ∷ [];
}

abbrev pub request : Bytes
request = codes "GET /10001/show/ HTTP/1.1\r\nHost: a\r\n\r\n"

abbrev pub forwarded_request : Bytes
forwarded_request = codes "GET /10001/show/ HTTP/1.1\r\nClient: 10.0.0.1:7777\r\nHost: a\r\n\r\n"

abbrev pub show_path : Bytes
show_path = codes "/10001/show/"

pub show-IsRequest :
    IsRequest tables.forwarding (codes "GET /10001/show/ HTTP/1.1\r") show_path (codes "/10001/")
unfolding find_forward_path forward_loop next_pos contains find find_last
show-IsRequest = record {
  method = codes "GET";
  protocol = codes "HTTP/1.1";
  ending = b'\r';
  form = refl;
  method_known = refl;
  protocol_known = refl;
  under = refl;
}

abbrev pub parsed_customer : TcpConnection
parsed_customer = record {
  fixed = customer;
  read_buf = [];
  path = show_path;
  business_code = codes "/10001/";
}

pub customer-IsRegistered : IsRegistered platform tables customer
unfolding ip_port ip port swap_bytes to_string to_string_loop find find_first
customer-IsRegistered = record {
  fd = pos 9;
  in_table = refl;
  in_conns = refl;
  is_text = find_first-misses (λ c. c == b'\n') (codes "10.0.0.1:7777") refl;
  ne_nil = λ e. cc;
}

abbrev pub reply : Bytes
reply = codes "HTTP/1.1 200 OK\r\nClient: 10.0.0.1:7777\r\nContent-Length: 2\r\n\r\n{}"

pub reply-IsReply : IsReply forwarded_request reply
unfolding client_field find_text starts_with find_first
reply-IsReply = record {
  name = codes "10.0.0.1:7777";
  named = refl;
  head = codes "HTTP/1.1 200 OK\r";
  rest = codes "Content-Length: 2\r\n\r\n{}";
  form = refl;
  first = refl;
}

unfoldable pub request-IsServed :
    IsServed tables
      (fresh customer)
      (chunk request again)
      (codes "GET /10001/show/ HTTP/1.1\r")
      (codes "Host: a\r\n\r\n")
      shop
unfolding c_string find find_first
request-IsServed = record {
  open_still = refl;
  message = refl;
  first_line = find_first-misses (λ c. c == b'\n') (codes "GET /10001/show/ HTTP/1.1\r") refl;
  path = show_path;
  code = codes "/10001/";
  request = show-IsRequest;
  fd = pos 5;
  fds = [];
  servers = refl;
  connected = refl;
}

abbrev pub bad_line : Bytes
bad_line = codes "PUT /10001/ HTTP/1.1\r"

pub bad_line-IsRefused : IsRefused tables.forwarding bad_line
unfolding parse_request_line parse_chopped find_first
bad_line-IsRefused = bad_request-IsRefused tables.forwarding (fresh customer) bad_line refl

abbrev pub no_clients : Tables
no_clients = record tables { client_table = []; client_conns = [] }
