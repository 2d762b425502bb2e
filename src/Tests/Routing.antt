-- ===== src/Tests/Routing.antt =====
-- Runs of the routing of requests and replies, and its theorems at inputs that meet their hypotheses.
use micro_business_server.Base.{some, none, [], ◌∷◌, ◌++◌, ◌≡◌, refl, ◌==◌, ◌↔◌}
use micro_business_server.Base.Search.{find_first-misses}
use micro_business_server.Base.Int.{pos}
use micro_business_server.Base.Map.{find, text_key, int_key}
use micro_business_server.Base.Text.{codes, find_first, find_last, find_text, starts_with}
use micro_business_server.Proxy.InetAddress.{
  ip, ip_port, port, to_string, to_string_loop, swap_bytes,
}
use micro_business_server.Proxy.SocketIo.{again, closed, chunk, readn, c_string}
use micro_business_server.Proxy.TcpConnection.ClientField.{client_line, client_field-client_line}
use micro_business_server.Proxy.TcpConnection.Leaving.{do_client2server-leaves}
use micro_business_server.Proxy.TcpConnection.ForwardPath.{Finds, find_forward_path-Finds}
use micro_business_server.Proxy.TcpConnection.RequestLine.{IsRequest, parse_request_line_iff}
use micro_business_server.Proxy.TcpConnection.Reply.{address}
use micro_business_server.Proxy.TcpConnection.RoundTrip.{forwarded, request_reply}
use micro_business_server.Proxy.TcpConnection.Stuck.{client_rounds, client_rounds-refused}
use micro_business_server.Proxy.TcpConnection.{
  get_request, Tables, contains, next_pos, forward_loop, find_forward_path, parse_target,
  parse_chopped, parse_request_line, getline, add_client, forward_to, answer, do_client2server,
  client_field, deliver, route_reply, do_server2client, process_as, process, done, not_found,
  error_response,
}
use micro_business_server.Tests.Inputs.{
  platform, customer, shop, fresh, tables, request, forwarded_request, show_path, parsed_customer,
  customer-IsRegistered, reply, reply-IsReply, request-IsServed, bad_line, bad_line-IsRefused,
}

port_7777 : port customer.peer_addr ≡ 7777
unfolding port swap_bytes
port_7777 = refl

process_request :
    process platform (fresh customer) tables (chunk request again)
    ≡ done
        (record {
          fixed = customer;
          read_buf = [];
          path = codes "/10001/show/";
          business_code = codes "/10001/";
        })
        tables
        ((pos 5, forwarded_request) ∷ [])
unfolding process process_as do_client2server readn c_string parse_chopped parse_request_line
    getline find_first find_last parse_target find_forward_path forward_loop next_pos contains find
    answer forward_to add_client ip_port ip port swap_bytes to_string to_string_loop
process_request = refl

process_reply :
    process platform
      (fresh shop)
      tables
      (chunk (codes "HTTP/1.1 200 OK\r\nClient: 10.0.0.1:7777\r\n\r\n") again)
    ≡ done
        (fresh shop)
        tables
        ((pos 9, codes "HTTP/1.1 200 OK\r\nClient: 10.0.0.1:7777\r\n\r\n") ∷ [])
unfolding process process_as do_server2client readn c_string route_reply client_field find_text
    starts_with find_first deliver find
process_reply = refl

not_found_text :
    not_found platform
    ≡ codes
        "HTTP/1.1 404 404 Not Found\r\nConnection: close\r\nContent-Length: 2\r\nContent-Type: application/json\r\n\r\n{}"
unfolding not_found error_response to_string to_string_loop
not_found_text = refl

find_forward_path_example :
    Finds tables.forwarding show_path (find_forward_path tables.forwarding show_path)
find_forward_path_example = find_forward_path-Finds tables.forwarding show_path

parse_request_line_example :
    (parse_request_line tables.forwarding (fresh customer) (codes "GET /10001/show/ HTTP/1.1\r")
      ≡ (parsed_customer, get_request))
    ↔ (IsRequest tables.forwarding (codes "GET /10001/show/ HTTP/1.1\r") show_path (codes "/10001/")
        × (parsed_customer ≡ parsed_customer))
parse_request_line_example =
    parse_request_line_iff tables.forwarding (fresh customer) (codes "GET /10001/show/ HTTP/1.1\r")
      parsed_customer

request_reply_example :
    (do_client2server platform (fresh customer) tables (chunk request again)
      ≡ done parsed_customer tables (
          (
            pos 5,
            forwarded platform
                (fresh customer)
                (codes "GET /10001/show/ HTTP/1.1\r")
                (codes "Host: a\r\n\r\n"),
          )
          ∷ []))
    × (do_server2client (fresh shop) tables (chunk reply again)
        ≡ done (fresh shop) tables ((pos 9, reply) ∷ []))
unfolding c_string ip_port ip port swap_bytes to_string to_string_loop find_text starts_with
    request-IsServed
request_reply_example =
    request_reply platform (fresh customer) (fresh shop) tables (chunk request again)
      (chunk reply again) (codes "GET /10001/show/ HTTP/1.1\r") (codes "Host: a\r\n\r\n") reply shop
      customer-IsRegistered request-IsServed refl refl refl refl reply-IsReply

client_rounds-refused_example :
    client_rounds platform (fresh customer) (
      (tables, chunk (codes "PUT /10001/ HTTP/1.1\r\n\r\n") again)
      ∷ (tables, chunk request again)
      ∷ [])
    ≡ some ((pos 9, not_found platform) ∷ (pos 9, not_found platform) ∷ [])
unfolding c_string find_first
client_rounds-refused_example =
    client_rounds-refused platform bad_line
      (find_first-misses (λ c. c == b'\n') (codes "PUT /10001/ HTTP/1.1\r") refl) (fresh customer)
      tables (chunk (codes "PUT /10001/ HTTP/1.1\r\n\r\n") again) (codes "\r\n")
      ((tables, chunk request again) ∷ []) refl
      ((bad_line-IsRefused, refl), ((bad_line-IsRefused, refl), tt))

customer_name-ne-nil : ¬ (address platform customer ≡ [])
unfolding ip_port ip port swap_bytes to_string to_string_loop
customer_name-ne-nil e = cc

client_field-client_line_example :
    client_field
      (codes "HTTP/1.1 200 OK\r" ++ b'\n' ∷ client_line (codes "10.0.0.1:7777") (codes "\r\n"))
    ≡ some (codes "10.0.0.1:7777")
unfolding find_text starts_with find_first
client_field-client_line_example =
    client_field-client_line (codes "HTTP/1.1 200 OK\r") (codes "10.0.0.1:7777") (codes "\r\n") refl
      (find_first-misses (λ c. c == b'\n') (codes "10.0.0.1:7777") refl) (λ e. cc)

do_client2server-leaves_example :
    (u : Tables) × (do_client2server platform (fresh customer) tables closed
      ≡ done (fresh customer) u [])
    × (find customer.sock_fd u.client_conns ≡ none)
    × (find (address platform customer) u.client_table ≡ none)
    × (do_server2client (fresh shop) u (chunk reply again)
        ≡ done (record (fresh shop) { read_buf = reply }) u [])
unfolding client_field find_text starts_with find_first c_string ip_port ip port swap_bytes
    to_string to_string_loop
do_client2server-leaves_example =
    do_client2server-leaves platform (fresh customer) (fresh shop) tables closed (chunk reply again)
      refl refl refl
