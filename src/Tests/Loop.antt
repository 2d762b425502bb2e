-- ===== src/Tests/Loop.antt =====
-- The theorems on the event loop and on whole connections at a small configuration.
use micro_business_server.Base.{◌+◌, [], ◌∷◌, ◌≡◌, refl, arith}
use micro_business_server.Base.Except.{ok, stoi}
use micro_business_server.Base.Int.{pos, ℤ}
use micro_business_server.Base.Map.{find, assign, insert}
use micro_business_server.Base.Text.{codes}
use micro_business_server.Proxy.Config.{Parser, new_parser}
use micro_business_server.Proxy.EventLoop.{
  EventLoop, new_event_loop, Network, Accepted, Event, connected, connect_to_business_server,
  connect_locations, connect_upstream, add_connection, push_fd, connect_to_one_business_server,
}
use micro_business_server.Proxy.EventLoop.ServerLists.{AllConnect}
use micro_business_server.Proxy.TcpConnection.{Endpoint}
use micro_business_server.Tests.Inputs.{customer, shop}

abbrev pub network : Network
network = record {
  connecting = λ k. connected (k + 5);
  local_name = λ _. shop.local_addr;
  peer_name = λ _. shop.peer_addr;
}

pub network-AllConnect : AllConnect network
network-AllConnect = record {
  fd = λ k. k + 5;
  connects = λ k. refl;
  distinct = λ j k e. omega arith;
}

abbrev pub config : Parser
config = record (new_parser (pos 8888) (pos 4) (pos 10)) {
  server = record {
    listen = pos 8888;
    server_name = codes "localhost";
    locations =
        (codes "/10001/", record { id = codes "/10001/"; proxy_pass = codes "http://shops" }) ∷ [];
  };
  upstreams =
      (
        codes "shops",
        record {
          name = codes "shops";
          servers = (codes "10.0.0.2", codes "10001") ∷ (codes "10.0.0.3", codes "10001") ∷ [];
        },
      )
      ∷ [];
}

abbrev pub before : EventLoop
before = new_event_loop (pos 3) config

abbrev shop_end : ℤ → Endpoint
shop_end fd = record shop { sock_fd = fd }

abbrev pub started : EventLoop
started = record before {
  watched = pos 6 ∷ pos 5 ∷ pos 3 ∷ [];
  tables = record {
    forwarding = (codes "/10001/", pos 5 ∷ pos 6 ∷ []) ∷ [];
    client_table = [];
    server_conns = (pos 5, shop_end (pos 5)) ∷ (pos 6, shop_end (pos 6)) ∷ [];
    client_conns = [];
  };
}

pub starts : connect_to_business_server network before ≡ ok started
unfolding connect_to_business_server connect_locations connect_upstream add_connection push_fd
    connect_to_one_business_server find stoi assign insert
starts = refl

abbrev pub accepted : Accepted
accepted = record {
  fd = pos 9;
  local_addr = customer.local_addr;
  peer_addr = customer.peer_addr;
  table_addr = customer.peer_addr;
}

abbrev pub knock : Event
knock = record { fd = pos 3; events = 1; accepted = accepted }
