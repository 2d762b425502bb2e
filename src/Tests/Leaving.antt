-- ===== src/Tests/Leaving.antt =====
-- A location whose only business server closes its connection.
use micro_business_server.Base.{[], ◌∷◌, some, ◌≡◌, refl, ◌==◌}
use micro_business_server.Base.Int.{pos}
use micro_business_server.Base.Map.{find, erase}
use micro_business_server.Base.Search.{find_first-misses}
use micro_business_server.Base.Text.{codes, find_first, find_last, find_text, starts_with}
use micro_business_server.Proxy.EventLoop.{handle_event, handle_message}
use micro_business_server.Proxy.EventLoop.ServerLists.{servers_at}
use micro_business_server.Proxy.SocketIo.{again, chunk, closed, readn, c_string}
use micro_business_server.Proxy.System.Abandoned.{server_leaves}
use micro_business_server.Proxy.System.{
  System, SerialSteps, at_outcome, no_memory, event, stay, next,
}
use micro_business_server.Proxy.TcpConnection.{
  Outcome, Tables, process, process_as, do_server2client, remove_first, route_reply, client_field,
  not_found, forward_loop, find_forward_path, next_pos, contains,
}
use micro_business_server.Tests.Inputs.{platform, customer, shop, fresh, tables, request, show_path}
use micro_business_server.Tests.Repeats.{loop}
use micro_business_server.Tests.Runs.{message_on_9}

-- A worker has the server's connection.
abbrev before : System
before = record { loop = loop; in_hand = shop ∷ []; memory = λ _. no_memory; sent = [] }

abbrev without_shop : Tables
without_shop = record tables { forwarding = (codes "/10001/", []) ∷ []; server_conns = [] }

abbrev forgotten : Outcome
forgotten = record { conn = fresh shop; tables = without_shop; sent = [] }

-- Then the client's request comes.
abbrev reported : (u : System) × SerialSteps platform (at_outcome forgotten [] before) u
unfolding handle_event handle_message find
reported = (_, next stay (event message_on_9 (λ e. cc) refl))

server_leaves_example :
    (p : Outcome) × (process platform (fresh customer) reported.0.loop.tables (chunk request again)
      ≡ some p)
    × (p.sent ≡ (pos 9, not_found platform) ∷ [])
    × (p.conn.read_buf ≡ request)
unfolding process process_as do_server2client readn route_reply client_field find_text starts_with
    remove_first erase servers_at find find_first find_last c_string handle_event handle_message
    contains next_pos forward_loop find_forward_path
server_leaves_example =
    server_leaves platform before reported.0 shop [] closed (chunk request again) forgotten
      (fresh customer) (codes "GET /10001/show/ HTTP/1.1\r") (codes "Host: a\r\n\r\n") show_path
      (codes "/10001/") refl refl refl refl reported.1 refl refl refl
      (find_first-misses (λ c. c == b'\n') (codes "GET /10001/show/ HTTP/1.1\r") refl)
      (record {
        method = codes "GET";
        protocol = codes "HTTP/1.1";
        ending = b'\r';
        form = refl;
        method_known = refl;
        protocol_known = refl;
        under = refl;
      })
