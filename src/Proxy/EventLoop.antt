-- ===== src/Proxy/EventLoop.antt =====
-- proxy_server/event_loop/EventLoop.cc: the connections to the business servers, new clients, and
-- what is handed to the workers. What the kernel answers is an argument.
pub mod Keeping
pub mod Looping
pub mod Backlog
pub mod Lagging
pub mod ServerLists
pub mod Wiring
pub mod Plan
pub mod Connected
pub mod Clients
use micro_business_server.Base.{
  ℕ, zero, suc, ◌+◌, ◌*◌, Bool, true, false, List, [], ◌∷◌, ◌++◌, Option, none, some, ◌==◌, ltb,
  ◌&&◌, if◌then◌else◌, length, drop,
}
use micro_business_server.Base.Except.{Result, ok, throw, out_of_range, stoi, ◌>>=◌}
use micro_business_server.Base.Int.{ℤ, pos, negsuc, int_eq}
use micro_business_server.Base.Map.{Map, find, assign, insert, text_key, int_key}
use micro_business_server.Base.Text.{Bytes}
use micro_business_server.Proxy.Config.{Location, Upstream, Parser}
use micro_business_server.Proxy.InetAddress.{InetAddress, ip_port}
use micro_business_server.Proxy.TcpConnection.{Endpoint, Tables, Platform, client, server}

-- The loop's state: the descriptors in the epoll set, the size of the list of events, the four
-- tables, and the connections handed to `addRequest`, in order.
pub record EventLoop : Type 0 where
  pub config : Parser
  pub is_looping : Bool
  pub acceptor_fd : ℤ
  pub evt_list_size : ℕ
  pub watched : List ℤ
  pub tables : Tables
  pub requests : List Endpoint

abbrev pub no_tables : Tables
no_tables = record { forwarding = []; client_table = []; server_conns = []; client_conns = [] }

-- The constructor watches the acceptor.
abbrev pub new_event_loop : ℤ → Parser → EventLoop
new_event_loop acceptor_fd config = record {
  config = config;
  is_looping = false;
  acceptor_fd = acceptor_fd;
  evt_list_size = 1024;
  watched = acceptor_fd ∷ [];
  tables = no_tables;
  requests = [];
}

abbrev pub minus_one : ℤ
minus_one = negsuc 0

-- How the system calls of `connectToOneBusinessServer` go.
pub data Connecting : Type 0 where
  no_socket bad_address refused : Connecting
  connected : ℕ → Connecting

unfoldable pub connect_to_one_business_server : Connecting → ℤ
connect_to_one_business_server no_socket = minus_one
connect_to_one_business_server bad_address = minus_one
connect_to_one_business_server refused = minus_one
connect_to_one_business_server (connected fd) = pos fd

-- The answers to the calls of `connectToOneBusinessServer` and the addresses of the sockets, by the
-- number of the call.
pub record Network : Type 0 where
  pub connecting : ℕ → Connecting
  pub local_name : ℕ → InetAddress
  pub peer_name : ℕ → InetAddress

-- The loop, and how many calls have been made.
pub record Startup : Type 0 where
  pub loop : EventLoop
  pub calls : ℕ

abbrev pub with_tables : EventLoop → Tables → EventLoop
with_tables l t = record l { tables = t }

-- A new `TcpConnection` for a server.
abbrev pub server_end : Network → ℕ → Endpoint
server_end n k = record {
  sock_fd = connect_to_one_business_server (n.connecting k);
  type = server;
  local_addr = n.local_name k;
  peer_addr = n.peer_name k;
}

-- `_forwardingTable[location].push_back(fd)`.
unfoldable pub push_fd : Bytes → ℤ → Map Bytes (List ℤ) → Map Bytes (List ℤ)
push_fd location fd table = elim (find location table) [
  | none ↦ assign location (fd ∷ []) table
  | some fds ↦ assign location (fds ++ fd ∷ []) table
]

-- One round of the inner loop: the tables behind it.
unfoldable pub add_connection : Bytes → Endpoint → Tables → Tables
add_connection location e t = record t {
  forwarding = push_fd location e.sock_fd t.forwarding;
  server_conns = insert e.sock_fd e t.server_conns;
}

-- The inner loop of `connectToBusinessServer`; `stoi` of the port may throw.
unfoldable pub connect_upstream : Network → Bytes → List (Bytes × Bytes) → Startup → Result Startup
connect_upstream n location [] s = ok s
connect_upstream n location ((ip, port) ∷ upstreams) s = stoi port >>= λ p.
    connect_upstream n location upstreams (record {
      loop = record s.loop {
        watched = (server_end n s.calls).sock_fd ∷ s.loop.watched;
        tables = add_connection location (server_end n s.calls) s.loop.tables;
      };
      calls = s.calls + 1;
    })

-- The servers at `_config.upstreams[proxy_name]`, none if there is no such entry.
abbrev pub upstream_servers : Bytes → Map Bytes Upstream → List (Bytes × Bytes)
upstream_servers name upstreams = elim (find name upstreams) [ none ↦ [] | some u ↦ u.servers ]

abbrev pub clear_location : Bytes → Tables → Tables
clear_location location t = record t { forwarding = assign location [] t.forwarding }

-- The outer loop. `substr(7)` throws where `proxy_pass` is shorter.
unfoldable pub connect_locations :
    Network → Map Bytes Upstream → Map Bytes Location → Startup → Result Startup
connect_locations n upstreams [] s = ok s
connect_locations n upstreams ((location, loc) ∷ locations) s =
    let cleared = record s { loop = with_tables s.loop (clear_location location s.loop.tables) } in
    if ltb (length loc.proxy_pass) 7
    then throw out_of_range
    else (connect_upstream n location (upstream_servers (drop 7 loc.proxy_pass) upstreams) cleared
        >>= λ r. connect_locations n upstreams locations r)

unfoldable pub connect_to_business_server : Network → EventLoop → Result EventLoop
connect_to_business_server n l =
    connect_locations n l.config.upstreams l.config.server.locations
      (record { loop = l; calls = 0 })
    >>= λ s. ok s.loop

-- What `accept` returns, -1 too, with the addresses of the socket. The address of the client is asked
-- for twice: by the connection, and for the table of names. A call that fails leaves what the memory
-- held, so the two can differ.
pub record Accepted : Type 0 where
  pub fd : ℤ
  pub local_addr : InetAddress
  pub peer_addr : InetAddress
  pub table_addr : InetAddress

abbrev pub client_end : Accepted → Endpoint
client_end a = record {
  sock_fd = a.fd;
  type = client;
  local_addr = a.local_addr;
  peer_addr = a.peer_addr;
}

unfoldable pub handle_new_connection : Platform → Accepted → EventLoop → EventLoop
handle_new_connection platform a l =
    let t = l.tables in
    record l {
      watched = a.fd ∷ l.watched;
      tables = record t {
        client_conns = insert a.fd (client_end a) t.client_conns;
        client_table = assign (ip_port platform.inet_ntoa a.table_addr) a.fd t.client_table;
      };
    }

abbrev pub add_request : EventLoop → Endpoint → EventLoop
add_request l e = record l { requests = l.requests ++ e ∷ [] }

unfoldable pub handle_message : ℤ → EventLoop → EventLoop
handle_message fd l = elim (find fd l.tables.client_conns) [
  | some e ↦ add_request l e
  | none ↦ elim (find fd l.tables.server_conns) [ some e ↦ add_request l e | none ↦ l ]
]

-- An event of `epoll_wait`, and what `accept` would return at it. EPOLLIN is 1.
pub record Event : Type 0 where
  pub fd : ℤ
  pub events : ℕ
  pub accepted : Accepted

abbrev pub is_epollin : ℕ → Bool
is_epollin events = events == 1

-- The first test of the loop over the events.
abbrev pub is_accept : EventLoop → Event → Bool
is_accept l e = int_eq e.fd l.acceptor_fd && is_epollin e.events

unfoldable pub handle_event : Platform → EventLoop → Event → EventLoop
handle_event platform l e =
    if is_accept l e
    then handle_new_connection platform e.accepted l
    else if is_epollin e.events
    then handle_message e.fd l
    else l

unfoldable pub handle_events : Platform → EventLoop → List Event → EventLoop
handle_events platform l [] = l
handle_events platform l (e ∷ es) = handle_events platform (handle_event platform l e) es

-- What `epoll_wait` gives in the end: an error other than EINTR, no event in time, or events.
pub data Waited : Type 0 where
  failed timed_out : Waited
  ready : List Event → Waited

unfoldable pub wait_epollfd : Platform → Waited → EventLoop → EventLoop
wait_epollfd platform failed l = l
wait_epollfd platform timed_out l = l
wait_epollfd platform (ready events) l =
    let nready = length events in
    let size = if nready == l.evt_list_size then 2 * nready else l.evt_list_size in
    handle_events platform (record l { evt_list_size = size }) events
