-- ===== src/Tests/Trips.antt =====
-- Requests of two clients through the proxy and a business server.
use micro_business_server.Base.{[], ◌∷◌, ◌++◌, refl, ◌==◌, inl, inr}
use micro_business_server.Base.Int.{pos}
use micro_business_server.Base.Map.{find, assign, text_key, int_key}
use micro_business_server.Base.Search.{find_first-misses}
use micro_business_server.Base.Text.{Bytes, codes, find_first, find_last}
use micro_business_server.Business.FrontEnd.{header_lines, IsHeader, IsLine}
use micro_business_server.Business.Request.{get_header, get_query}
use micro_business_server.Business.Server.{
  HttpResponse, do_show, show_result, sucess_handle, on_request,
}
use micro_business_server.Proxy.InetAddress.{
  ip_port, ip, port, swap_bytes, to_string, to_string_loop,
}
use micro_business_server.Proxy.SocketIo.{again, chunk, c_string}
use micro_business_server.Proxy.TcpConnection.Reply.{IsRegistered}
use micro_business_server.Proxy.TcpConnection.{
  Endpoint, Tables, Platform, contains, next_pos, forward_loop, find_forward_path,
}
use micro_business_server.Tests.HttpFrontEnd.{http, http-IsHttp, scan}
use micro_business_server.Tests.Inputs.{customer, shop, fresh, tables, show_path, show-IsRequest}
use micro_business_server.Tests.Shop.{mysql, library}
use micro_business_server.Tests.Texts.{inet_ntoa, inet_ntoa-IsDotted}
use micro_business_server.Trip.Return.{
  IsHandled, IsPassed, reply_returns, reply_diverted, client_key,
}

abbrev pub platform : Platform
platform = record { inet_ntoa = inet_ntoa; write_json = λ _. codes "{}" }

-- Another client, at 8.0.0.0:7777.
abbrev neighbour : Endpoint
neighbour = record customer {
  sock_fd = pos 10;
  peer_addr = record { sin_addr = 8; sin_port = 24862 };
}

abbrev two_clients : Tables
two_clients = record tables {
  client_table = (codes "7.0.0.0:7777", pos 9) ∷ (codes "8.0.0.0:7777", pos 10) ∷ [];
  client_conns = (pos 9, customer) ∷ (pos 10, neighbour) ∷ [];
}

abbrev pub line : Bytes
line = codes "GET /10001/show/ HTTP/1.1\r"

pub line-IsLine : IsLine line
unfolding find_first
line-IsLine = record {
  method = codes "GET";
  target = show_path;
  form = refl;
  known = inl refl;
  no_blank = find_first-misses (λ x. x == b' ') show_path refl;
  no_newline = find_first-misses (λ x. x == b'\n') line refl;
}

abbrev pub host : Bytes × Bytes
host = (codes "Host", codes "a")

abbrev pub forged : Bytes × Bytes
forged = (codes "Client", codes "8.0.0.0:7777")

pub host-IsHeader : IsHeader host
unfolding find_first
host-IsHeader = record {
  key_no_colon = find_first-misses (λ x. x == b':') (codes "Host") refl;
  key_no_newline = find_first-misses (λ x. x == b'\n') (codes "Host") refl;
  key_no_return = find_first-misses (λ x. x == b'\r') (codes "Host") refl;
  value_no_newline = find_first-misses (λ x. x == b'\n') (codes "a") refl;
  value_no_return = find_first-misses (λ x. x == b'\r') (codes "a") refl;
  trimmed = refl;
}

customer-IsRegistered : IsRegistered platform two_clients customer
unfolding ip_port ip port swap_bytes to_string to_string_loop find find_first
customer-IsRegistered = record {
  fd = pos 9;
  in_table = refl;
  in_conns = refl;
  is_text = find_first-misses (λ c. c == b'\n') (codes "7.0.0.0:7777") refl;
  ne_nil = λ e. cc;
}

neighbour-IsRegistered : IsRegistered platform two_clients neighbour
unfolding ip_port ip port swap_bytes to_string to_string_loop find find_first
neighbour-IsRegistered = record {
  fd = pos 10;
  in_table = refl;
  in_conns = refl;
  is_text = find_first-misses (λ c. c == b'\n') (codes "8.0.0.0:7777") refl;
  ne_nil = λ e. cc;
}

abbrev pub shown : Bytes → HttpResponse
shown name = record {
  status_code = 200;
  status_message = codes "OK";
  headers = (codes "Client", name) ∷ (codes "Content-Type", codes "application/json") ∷ [];
  body = codes "OK";
}

abbrev pub reply_for : Bytes → Bytes
reply_for name = http.append_to_buffer (shown name)

honest :
    IsHandled platform http http-IsHttp inet_ntoa-IsDotted mysql library
      (fresh customer)
      (fresh shop)
      two_clients
      (chunk (line ++ b'\n' ∷ header_lines (host ∷ []) []) again)
      (chunk (reply_for (codes "7.0.0.0:7777")) again)
      line
      []
      (host ∷ [])
      shop
      (reply_for (codes "7.0.0.0:7777"))
unfolding ip_port ip port swap_bytes to_string to_string_loop find find_first find_last c_string
    scan get_header get_query on_request do_show show_result sucess_handle assign contains next_pos
    forward_loop find_forward_path
honest = record {
  served = record {
    open_still = refl;
    message = refl;
    first_line = find_first-misses (λ c. c == b'\n') line refl;
    path = show_path;
    code = codes "/10001/";
    request = show-IsRequest;
    fd = pos 5;
    fds = [];
    servers = refl;
    connected = refl;
  };
  line = line-IsLine;
  well_formed = (host-IsHeader, tt);
  empty = refl;
  open_still = refl;
  whole = refl;
  asks = λ h. elim h [ inl e ↦ cc | inr e ↦ cc ];
  before = 0;
  after = 1;
  response = shown (codes "7.0.0.0:7777");
  handled = refl;
  written = refl;
}

pub forged-IsHeader : IsHeader forged
unfolding find_first
forged-IsHeader = record {
  key_no_colon = find_first-misses (λ x. x == b':') client_key refl;
  key_no_newline = find_first-misses (λ x. x == b'\n') client_key refl;
  key_no_return = find_first-misses (λ x. x == b'\r') client_key refl;
  value_no_newline = find_first-misses (λ x. x == b'\n') (codes "8.0.0.0:7777") refl;
  value_no_return = find_first-misses (λ x. x == b'\r') (codes "8.0.0.0:7777") refl;
  trimmed = refl;
}

-- The same request with the neighbour's address in a header of its own.
forging :
    IsHandled platform http http-IsHttp inet_ntoa-IsDotted mysql library
      (fresh customer)
      (fresh shop)
      two_clients
      (chunk (line ++ b'\n' ∷ header_lines (host ∷ forged ∷ []) []) again)
      (chunk (reply_for (codes "8.0.0.0:7777")) again)
      line
      []
      (host ∷ forged ∷ [])
      shop
      (reply_for (codes "8.0.0.0:7777"))
unfolding ip_port ip port swap_bytes to_string to_string_loop find find_first find_last c_string
    scan get_header get_query on_request do_show show_result sucess_handle assign contains next_pos
    forward_loop find_forward_path
forging = record {
  served = record {
    open_still = refl;
    message = refl;
    first_line = find_first-misses (λ c. c == b'\n') line refl;
    path = show_path;
    code = codes "/10001/";
    request = show-IsRequest;
    fd = pos 5;
    fds = [];
    servers = refl;
    connected = refl;
  };
  line = line-IsLine;
  well_formed = (host-IsHeader, (forged-IsHeader, tt));
  empty = refl;
  open_still = refl;
  whole = refl;
  asks = λ h. elim h [ inl e ↦ cc | inr e ↦ cc ];
  before = 0;
  after = 1;
  response = shown (codes "8.0.0.0:7777");
  handled = refl;
  written = refl;
}

reply_returns_example :
    IsPassed platform http http-IsHttp inet_ntoa-IsDotted mysql library
      (fresh customer)
      (fresh shop)
      two_clients
      (chunk (line ++ b'\n' ∷ header_lines (host ∷ []) []) again)
      (chunk (reply_for (codes "7.0.0.0:7777")) again)
      line
      []
      (host ∷ [])
      shop
      customer
      (reply_for (codes "7.0.0.0:7777"))
      honest
      customer-IsRegistered
reply_returns_example =
    reply_returns platform http http-IsHttp inet_ntoa-IsDotted mysql library (fresh customer)
      (fresh shop) two_clients (chunk (line ++ b'\n' ∷ header_lines (host ∷ []) []) again)
      (chunk (reply_for (codes "7.0.0.0:7777")) again) line [] (host ∷ []) shop
      (reply_for (codes "7.0.0.0:7777")) honest customer-IsRegistered (refl, tt)

reply_diverted_example :
    IsPassed platform http http-IsHttp inet_ntoa-IsDotted mysql library
      (fresh customer)
      (fresh shop)
      two_clients
      (chunk (line ++ b'\n' ∷ header_lines (host ∷ forged ∷ []) []) again)
      (chunk (reply_for (codes "8.0.0.0:7777")) again)
      line
      []
      (host ∷ forged ∷ [])
      shop
      neighbour
      (reply_for (codes "8.0.0.0:7777"))
      forging
      neighbour-IsRegistered
unfolding ip_port ip port swap_bytes to_string to_string_loop
reply_diverted_example =
    reply_diverted platform http http-IsHttp inet_ntoa-IsDotted mysql library (fresh customer)
      (fresh shop) two_clients (chunk (line ++ b'\n' ∷ header_lines (host ∷ forged ∷ []) []) again)
      (chunk (reply_for (codes "8.0.0.0:7777")) again) line [] (host ∷ forged ∷ []) shop neighbour
      (reply_for (codes "8.0.0.0:7777")) forging neighbour-IsRegistered refl
