-- ===== src/Proxy/EventLoop/Keeping.antt =====
-- `connectToBusinessServer`: what each of its steps keeps, it keeps.
use micro_business_server.Base.{◌+◌, List, [], ◌∷◌, inl, inr, ◌≡◌, Bool-cases, ltb, length}
use micro_business_server.Base.Except.{ok, throw, Exception, out_of_range, stoi, first_value}
use micro_business_server.Base.Map.{Map}
use micro_business_server.Base.Text.{Bytes}
use micro_business_server.Proxy.Config.{Location, Upstream}
use micro_business_server.Proxy.EventLoop.{
  EventLoop, Network, Startup, server_end, add_connection, with_tables, connect_upstream,
  clear_location, connect_locations, connect_to_business_server,
}

pub throw-ne-ok : {A : Type 0} (e : Exception) (a : A) → ¬ (throw e ≡ ok a)
throw-ne-ok e a h = cc

-- Behind one more connection for a location, and behind the start of a location.
abbrev pub one_more : Network → Bytes → Startup → Startup
one_more n location s = record {
  loop = record s.loop {
    watched = (server_end n s.calls).sock_fd ∷ s.loop.watched;
    tables = add_connection location (server_end n s.calls) s.loop.tables;
  };
  calls = s.calls + 1;
}

abbrev pub cleared_at : Bytes → Startup → Startup
cleared_at location s = record s {
  loop = with_tables s.loop (clear_location location s.loop.tables);
}

module _ (n : Network) (P : Startup → Type 0)
    (more : (location : Bytes) (s : Startup) → P s → P (one_more n location s))
    (clear : (location : Bytes) (s : Startup) → P s → P (cleared_at location s)) where
  connect_upstream-keeps :
      (location : Bytes) (upstreams : List (Bytes × Bytes)) (s r : Startup)
      → P s
      → connect_upstream n location upstreams s ≡ ok r
      → P r
  unfolding connect_upstream
  connect_upstream-keeps location [] s r w h = let e : s ≡ r = cc in rw (← e) w
  connect_upstream-keeps location ((ip, port) ∷ upstreams) s r w h =
      let (p, later, value) = first_value _ (stoi port) h in
      connect_upstream-keeps location upstreams (one_more n location s) r (more location s w) later

  connect_locations-keeps :
      (upstreams : Map Bytes Upstream) (locations : Map Bytes Location) (s r : Startup)
      → P s
      → connect_locations n upstreams locations s ≡ ok r
      → P r
  unfolding connect_locations
  connect_locations-keeps upstreams [] s r w h = let e : s ≡ r = cc in rw (← e) w
  connect_locations-keeps upstreams ((location, loc) ∷ locations) s r w h =
      elim (Bool-cases (ltb (length loc.proxy_pass) 7)) [
        | inl short ↦ absurd (throw-ne-ok out_of_range r (rw short at h))
        | inr long ↦
            let (q, later, here) = first_value _ (connect_upstream n location _ _) (rw long at h) in
            connect_locations-keeps upstreams locations q r
              (connect_upstream-keeps location _ (cleared_at location s) q (clear location s w)
                here)
              later
      ]

  pub connect_to_business_server-keeps :
      (l r : EventLoop)
      → P (record { loop = l; calls = 0 })
      → connect_to_business_server n l ≡ ok r
      → (s : Startup) × (s.loop ≡ r) × P s
  unfolding connect_to_business_server
  connect_to_business_server-keeps l r w h =
      let start : Startup = record { loop = l; calls = 0 } in
      let (s, is, here) =
        first_value _ (connect_locations n l.config.upstreams l.config.server.locations start) h in
      (s, cc, connect_locations-keeps _ _ start s w here)
