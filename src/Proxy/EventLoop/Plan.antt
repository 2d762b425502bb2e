-- ===== src/Proxy/EventLoop/Plan.antt =====
-- The forwarding table that `connectToBusinessServer` leaves, location by location.
use micro_business_server.Base.{
  ℕ, ◌+◌, List, [], ◌∷◌, ◌++◌, inl, inr, ◌≡◌, refl, sym, ap, ◌∙◌, arith, if◌then◌else◌, Bool-cases,
  ltb, length, drop, append_assoc, append-nil,
}
use micro_business_server.Base.Except.{ok, out_of_range, stoi, first_value}
use micro_business_server.Base.Int.{ℤ}
use micro_business_server.Base.Map.{Map, assign, text_key}
use micro_business_server.Base.Text.{Bytes, text_eq, text_eq_iff}
use micro_business_server.Proxy.Config.{Location, Upstream}
use micro_business_server.Proxy.EventLoop.ServerLists.{
  servers_at, servers_at-assign, servers_at-push_fd,
}
use micro_business_server.Proxy.EventLoop.Keeping.{throw-ne-ok}
use micro_business_server.Proxy.EventLoop.{
  EventLoop, Network, Startup, connect_to_one_business_server, server_end, push_fd, add_connection,
  connect_upstream, upstream_servers, connect_locations, connect_to_business_server,
}

abbrev pub Table : Type 0
Table = Map Bytes (List ℤ)

-- Emptying a list and filling it again.
refilled :
    (location code : Bytes) (table : Table) (fds : List ℤ)
    → (if text_eq location code
        then servers_at location (assign location [] table) ++ fds
        else servers_at code (assign location [] table))
      ≡ servers_at code (assign location fds table)
refilled location code table fds = elim (Bool-cases (text_eq location code)) [
  | inl eq ↦ rw (
    eq,
    servers_at-assign location location [] table,
    (text_eq_iff location location).1 refl,
    servers_at-assign location code fds table,
    eq,
  )
  | inr ne ↦
      rw (
        ne,
        servers_at-assign location code [] table,
        servers_at-assign location code fds table,
        ne,
      )
]

module _ (n : Network) where
  -- The results of the calls from number `k` on, one for each server.
  pub sockets : ℕ → List (Bytes × Bytes) → List ℤ
  sockets k [] = []
  sockets k (u ∷ us) = connect_to_one_business_server (n.connecting k) ∷ sockets (k + 1) us

  -- Every location gets the sockets of its upstream's servers, in the order of the file.
  pub plan : Map Bytes Upstream → ℕ → Map Bytes Location → Table → Table
  plan upstreams k [] table = table
  plan upstreams k ((location, loc) ∷ locations) table =
      let us = upstream_servers (drop 7 loc.proxy_pass) upstreams in
      plan upstreams (k + length us) locations (assign location (sockets k us) table)

  plan-ap :
      (upstreams : Map Bytes Upstream) (k : ℕ) (locations : Map Bytes Location) (a b : Table)
      → ((code : Bytes) → servers_at code a ≡ servers_at code b)
      → (code : Bytes)
      → servers_at code (plan upstreams k locations a)
        ≡ servers_at code (plan upstreams k locations b)
  unfolding plan
  plan-ap upstreams k [] a b h code = h code
  plan-ap upstreams k ((location, loc) ∷ locations) a b h code =
      plan-ap upstreams (k + length (upstream_servers (drop 7 loc.proxy_pass) upstreams)) locations
        (assign location (sockets k (upstream_servers (drop 7 loc.proxy_pass) upstreams)) a)
        (assign location (sockets k (upstream_servers (drop 7 loc.proxy_pass) upstreams)) b)
        (λ c.
          servers_at-assign location c _ a
          ∙ ap
              (λ fds.
                if text_eq location c
                then sockets k (upstream_servers (drop 7 loc.proxy_pass) upstreams)
                else fds)
              (h c)
          ∙ sym (servers_at-assign location c _ b))
        code

  -- The inner loop appends the sockets of the upstream at its location.
  connect_upstream-sockets :
      (location : Bytes) (us : List (Bytes × Bytes)) (s r : Startup)
      → connect_upstream n location us s ≡ ok r
      → (r.calls ≡ s.calls + length us)
        × ((code : Bytes)
            → servers_at code r.loop.tables.forwarding ≡ (
                if text_eq location code
                then servers_at location s.loop.tables.forwarding ++ sockets s.calls us
                else servers_at code s.loop.tables.forwarding))
  unfolding connect_upstream sockets add_connection
  connect_upstream-sockets location [] s r h =
      let e : s ≡ r = cc in rw (← e) (omega arith, λ code. unchanged code)
    where
      unchanged :
          (code : Bytes)
          → servers_at code s.loop.tables.forwarding ≡ (
              if text_eq location code
              then servers_at location s.loop.tables.forwarding ++ []
              else servers_at code s.loop.tables.forwarding)
      unchanged code = elim (Bool-cases (text_eq location code)) [
        | inl eq ↦ rw (eq, append-nil, (text_eq_iff location code).0 eq)
        | inr ne ↦ rw ne
      ]
  connect_upstream-sockets location ((ip, port) ∷ us) s r h =
      let (p, later, value) = first_value _ (stoi port) h in
      let (calls, lists) = connect_upstream-sockets location us _ r later in
      (omega (arith, calls), λ code. lists code ∙ joined code)
    where
      fd : ℤ
      fd = (server_end n s.calls).sock_fd

      table : Table
      table = s.loop.tables.forwarding

      joined :
          (code : Bytes)
          → (if text_eq location code
              then servers_at location (push_fd location fd table) ++ sockets (s.calls + 1) us
              else servers_at code (push_fd location fd table))
            ≡ (if text_eq location code
                then servers_at location table ++ fd ∷ sockets (s.calls + 1) us
                else servers_at code table)
      joined code = elim (Bool-cases (text_eq location code)) [
        | inl eq ↦
            rw
              (
                eq,
                servers_at-push_fd location location fd table,
                (text_eq_iff location location).1 refl,
              )
              (append_assoc (servers_at location table) (fd ∷ []) (sockets (s.calls + 1) us))
        | inr ne ↦ rw (ne, servers_at-push_fd location code fd table, ne)
      ]

  -- The outer loop carries the plan out.
  connect_locations-plan :
      (upstreams : Map Bytes Upstream) (locations : Map Bytes Location) (s r : Startup)
      → connect_locations n upstreams locations s ≡ ok r
      → (code : Bytes)
      → servers_at code r.loop.tables.forwarding
        ≡ servers_at code (plan upstreams s.calls locations s.loop.tables.forwarding)
  unfolding connect_locations plan
  connect_locations-plan upstreams [] s r h code = let e : s ≡ r = cc in rw (← e)
  connect_locations-plan upstreams ((location, loc) ∷ locations) s r h code =
      elim (Bool-cases (ltb (length loc.proxy_pass) 7)) [
        | inl short ↦ absurd (throw-ne-ok out_of_range r (rw short at h))
        | inr long ↦
            let us = upstream_servers (drop 7 loc.proxy_pass) upstreams in
            let (q, later, here) =
              first_value _ (connect_upstream n location us _) (rw long at h) in
            let (calls, lists) = connect_upstream-sockets location us _ q here in
            connect_locations-plan upstreams locations q r later code
            ∙ ap (λ k. servers_at code (plan upstreams k locations q.loop.tables.forwarding)) calls
            ∙ plan-ap upstreams (s.calls + length us) locations q.loop.tables.forwarding
                (assign location (sockets s.calls us) s.loop.tables.forwarding)
                (λ c. lists c ∙ refilled location c s.loop.tables.forwarding (sockets s.calls us))
                code
      ]

  -- When the event loop has connected to the business servers, the list of each location holds one
  -- descriptor for each server of the location's upstream, in the order of the file, -1 where the
  -- connection failed.
  pub connect_to_business_server-plan :
      (l r : EventLoop) (code : Bytes)
      → connect_to_business_server n l ≡ ok r
      → servers_at code r.tables.forwarding
        ≡ servers_at code (plan l.config.upstreams 0 l.config.server.locations l.tables.forwarding)
  unfolding connect_to_business_server
  connect_to_business_server-plan l r code h =
      let start : Startup = record { loop = l; calls = 0 } in
      let (s, is, here) =
        first_value _ (connect_locations n l.config.upstreams l.config.server.locations start) h in
      let e : s.loop ≡ r = cc in
      rw (← e)
        (connect_locations-plan l.config.upstreams l.config.server.locations start s here code)
