-- ===== src/Tests/Runs.antt =====
-- The theorems on runs of the proxy at a run of one request and its reply.
use micro_business_server.Base.{[], ◌∷◌, ◌++◌, some, ◌⊎◌, inr, ◌≡◌, refl, All}
use micro_business_server.Base.Int.{pos}
use micro_business_server.Base.Map.{find, assign, insert, int_key, text_key}
use micro_business_server.Base.Text.{find_first, find_last, find_text, starts_with}
use micro_business_server.Proxy.EventLoop.{
  Event, handle_event, handle_new_connection, handle_message,
}
use micro_business_server.Proxy.InetAddress.{
  ip_port, ip, port, swap_bytes, to_string, to_string_loop,
}
use micro_business_server.Proxy.SocketIo.Reading.{received}
use micro_business_server.Proxy.SocketIo.{chunk, again, readn, c_string}
use micro_business_server.Proxy.System.Running.{process-serves, process-addresses, IsOpen}
use micro_business_server.Proxy.System.{
  System, SerialSteps, IsClosed, IsTaken, AllTaken, connection, at_start, event, take_on, work,
  stay, next,
}
use micro_business_server.Proxy.TcpConnection.Fitting.{IsConsistent}
use micro_business_server.Proxy.TcpConnection.Reply.{address}
use micro_business_server.Proxy.TcpConnection.{
  Endpoint, Outcome, process, process_as, do_client2server, do_server2client, parse_chopped,
  parse_request_line, getline, parse_target, find_forward_path, forward_loop, next_pos, contains,
  answer, forward_to, add_client, route_reply, client_field, deliver,
}
use micro_business_server.Tests.Inputs.{platform, customer, shop, request, reply}
use micro_business_server.Tests.Loop.{
  network, network-AllConnect, config, started, starts, knock, accepted,
}

abbrev pub message_on_9 : Event
message_on_9 = record knock { fd = pos 9 }

abbrev message_on_5 : Event
message_on_5 = record knock { fd = pos 5 }

nine-IsClosed : IsClosed (at_start started) (pos 9)
unfolding find
nine-IsClosed = record { no_client = refl; no_server = refl; not_waiting = tt; not_in_hand = tt }

nine-IsTaken : IsTaken (at_start started) accepted
nine-IsTaken = record { closed = nine-IsClosed; peer = refl }

-- A client connects and sends a request, and a worker takes the connection.
abbrev request_taken : (s : System) × SerialSteps platform (at_start started) s
unfolding handle_event handle_new_connection handle_message find insert assign ip_port ip port
    swap_bytes to_string to_string_loop
request_taken = (
  _,
  next
      (next (next stay (event knock (λ _. inr nine-IsClosed) refl))
        (event message_on_9 (λ e. cc) refl))
      (take_on customer [] refl refl),
)

request-AllTaken : AllTaken request_taken.1
unfolding request_taken
request-AllTaken = (((tt, λ _. nine-IsTaken), λ e. cc), tt)

process-serves_example :
    IsConsistent platform request_taken.0.loop.tables
    × ((o : Outcome) × (process platform
            (connection request_taken.0 customer)
            request_taken.0.loop.tables
            (chunk request again)
          ≡ some o)
        × All
            (λ m.
              IsOpen platform network
                (pos 3)
                config
                started
                network-AllConnect
                starts
                request_taken.0
                customer
                m.0)
            o.sent)
unfolding handle_event handle_new_connection handle_message find insert assign ip_port ip port
    swap_bytes to_string to_string_loop
process-serves_example =
    process-serves platform network (pos 3) config started network-AllConnect starts request_taken.0
      customer [] [] (chunk request again) request_taken.1 request-AllTaken refl

-- The server behind descriptor 5.
abbrev shop_5 : Endpoint
shop_5 = record shop { sock_fd = pos 5 }

-- The worker passes the request on; the server answers, and a worker takes its connection.
abbrev reply_taken : (s : System) × SerialSteps platform (at_start started) s
unfolding handle_event handle_new_connection handle_message find insert assign ip_port ip port
    swap_bytes to_string to_string_loop process process_as do_client2server readn c_string
    parse_chopped parse_request_line getline find_first find_last parse_target find_forward_path
    forward_loop next_pos contains answer forward_to add_client
reply_taken = (
  _,
  next
      (next (next request_taken.1 (work customer [] [] (chunk request again) _ refl refl refl))
        (event message_on_5 (λ e. cc) refl))
      (take_on shop_5 [] refl refl),
)

reply-AllTaken : AllTaken reply_taken.1
unfolding reply_taken
reply-AllTaken = (((request-AllTaken, tt), λ e. cc), tt)

-- The call leaves the tables and the empty buffer, and sends the reply to the client.
abbrev delivered : Outcome
delivered = record {
  conn = connection reply_taken.0 shop_5;
  tables = reply_taken.0.loop.tables;
  sent = (pos 9, reply) ∷ [];
}

process-addresses_example :
    (delivered.sent ≡ [])
    ⊎ ((x : Endpoint) × (find x.sock_fd reply_taken.0.loop.tables.client_conns ≡ some x)
        × (client_field ((connection reply_taken.0 shop_5).read_buf ++ received (chunk reply again))
            ≡ some (address platform x))
        × (delivered.sent
            ≡ (
              x.sock_fd,
              (connection reply_taken.0 shop_5).read_buf ++ received (chunk reply again),
            )
              ∷ []))
unfolding handle_event handle_new_connection handle_message find insert assign ip_port ip port
    swap_bytes to_string to_string_loop process process_as do_client2server readn c_string
    parse_chopped parse_request_line getline find_first find_last parse_target find_forward_path
    forward_loop next_pos contains answer forward_to add_client do_server2client route_reply
    client_field find_text starts_with deliver
process-addresses_example =
    process-addresses platform network (pos 3) config started network-AllConnect starts
      reply_taken.0 shop_5 (chunk reply again) delivered reply_taken.1 reply-AllTaken refl refl
