-- ===== src/Proxy/EventLoop/Connected.antt =====
-- When connecting to the business servers throws nothing.
use micro_business_server.Base.{
  Bool-cases, ◌+◌, ◌≤◌, false, List, [], ◌∷◌, ◌≡◌, refl, arith, inl, inr, All, ltb, length, drop,
}
use micro_business_server.Base.Except.{ok, stoi}
use micro_business_server.Base.Int.{ℤ}
use micro_business_server.Base.Map.{Map, assign, find-assign, text_key}
use micro_business_server.Base.Text.{Bytes, text_eq}
use micro_business_server.Proxy.Config.{Location, Upstream}
use micro_business_server.Proxy.EventLoop.{
  EventLoop, Network, Startup, server_end, add_connection, connect_upstream, upstream_servers,
  connect_locations, connect_to_business_server, with_tables, clear_location,
}
use micro_business_server.Proxy.TcpConnection.{Endpoint}

-- `stoi` reads the port.
abbrev pub HasPort : Bytes × Bytes → Type 0
HasPort (ip, port) = (p : ℤ) × (stoi port ≡ ok p)

-- `substr(7)` has what it cuts off.
abbrev pub HasScheme : Bytes × Location → Type 0
HasScheme (location, loc) = 7 ≤ length loc.proxy_pass

abbrev pub HavePorts : Map Bytes Upstream → Type 0
HavePorts m = (name : Bytes) → All HasPort (upstream_servers name m)

pub HavePorts-assign :
    (name : Bytes) (servers : List (Bytes × Bytes)) (m : Map Bytes Upstream)
    → All HasPort servers
    → HavePorts m
    → HavePorts (assign name (record { name = name; servers = servers }) m)
HavePorts-assign name servers m h k other =
    rw (All, find-assign name other (record { name = name; servers = servers }) m)
      (elim (Bool-cases (text_eq name other)) [ inl e ↦ rw e h | inr e ↦ rw e (k other) ])

module _ (n : Network) where
  connect_upstream-ok :
      (location : Bytes) (us : List (Bytes × Bytes)) (s : Startup)
      → All HasPort us
      → (r : Startup) × (connect_upstream n location us s ≡ ok r)
  unfolding connect_upstream
  connect_upstream-ok location [] s h = (s, refl)
  connect_upstream-ok location ((ip, port) ∷ us) s h =
      let (p, is) = h.0 in
      let e : Endpoint = server_end n s.calls in
      let later : Startup = record {
        loop = record s.loop {
          watched = e.sock_fd ∷ s.loop.watched;
          tables = add_connection location e s.loop.tables;
        };
        calls = s.calls + 1;
      } in
      let (r, rest) = connect_upstream-ok location us later h.1 in (r, rw is rest)

  connect_locations-ok :
      (upstreams : Map Bytes Upstream) (locations : Map Bytes Location) (s : Startup)
      → HavePorts upstreams
      → All HasScheme locations
      → (r : Startup) × (connect_locations n upstreams locations s ≡ ok r)
  unfolding connect_locations
  connect_locations-ok upstreams [] s ports schemes = (s, refl)
  connect_locations-ok upstreams ((location, loc) ∷ locations) s ports schemes =
      let long : ltb (length loc.proxy_pass) 7 ≡ false = ground (arith, schemes.0) in
      let cleared : Startup = record s {
        loop = with_tables s.loop (clear_location location s.loop.tables);
      } in
      let (q, here) =
        connect_upstream-ok location (upstream_servers (drop 7 loc.proxy_pass) upstreams) cleared
          (ports (drop 7 loc.proxy_pass)) in
      let (r, rest) = connect_locations-ok upstreams locations q ports schemes.1 in
      (r, rw (long, here) rest)

  pub connect_to_business_server-ok :
      (l : EventLoop)
      → HavePorts l.config.upstreams
      → All HasScheme l.config.server.locations
      → (r : EventLoop) × (connect_to_business_server n l ≡ ok r)
  unfolding connect_to_business_server
  connect_to_business_server-ok l ports schemes =
      let (r, is) =
        connect_locations-ok l.config.upstreams l.config.server.locations
          (record { loop = l; calls = 0 }) ports schemes in
      (r.loop, rw is refl)
