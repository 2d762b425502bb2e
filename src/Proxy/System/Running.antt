-- ===== src/Proxy/System/Running.antt =====
-- Serial runs of the proxy from its start: no null pointer, who is written to, and that pending work can
-- always be finished.
use micro_business_server.Base.{
  List, [], ◌∷◌, ◌++◌, some, ◌⊎◌, inl, inr, ◌≡◌, refl, sym, ap, ◌∙◌, arith, All, Bool-cases,
  Option-cases, All-split,
}
use micro_business_server.Base.Except.{ok}
use micro_business_server.Base.Int.{ℤ, int_eq, int_eq_iff}
use micro_business_server.Base.Map.{Map, find, int_key, text_key, find-insert, insert}
use micro_business_server.Base.Text.{Bytes}
use micro_business_server.Proxy.Config.{Parser}
use micro_business_server.Proxy.EventLoop.Keeping.{one_more, connect_to_business_server-keeps}
use micro_business_server.Proxy.EventLoop.ServerLists.{AllConnect}
use micro_business_server.Proxy.EventLoop.Wiring.{connect_to_business_server-IsConsistent}
use micro_business_server.Proxy.EventLoop.{
  EventLoop, Network, Startup, server_end, add_connection, new_event_loop,
  connect_to_business_server,
}
use micro_business_server.Proxy.SocketIo.Reading.{received}
use micro_business_server.Proxy.SocketIo.{Incoming}
use micro_business_server.Proxy.System.Events.{SerialSteps-Sound}
use micro_business_server.Proxy.System.Pending.{IsKeyed, Owns, Sound}
use micro_business_server.Proxy.System.{System, SerialSteps, AllTaken, connection, at_start}
use micro_business_server.Proxy.TcpConnection.Consistent.{process-IsConsistent}
use micro_business_server.Proxy.TcpConnection.Fitting.{IsConsistent}
use micro_business_server.Proxy.TcpConnection.Reply.{address, tables_after, do_server2client-route}
use micro_business_server.Proxy.TcpConnection.Effects.{
  IsTarget, process-Effects, process-server, route_reply-sends,
}
use micro_business_server.Proxy.TcpConnection.{
  Endpoint, TcpConnection, Tables, Platform, Outcome, server, client_field, process,
  do_server2client,
}

insert-IsKeyed : (e : Endpoint) (m : Map ℤ Endpoint) → IsKeyed m → IsKeyed (insert e.sock_fd e m)
unfolding insert
insert-IsKeyed e m h fd x there = elim (Option-cases (find e.sock_fd m)) [
  | inr (y, known) ↦ h fd x (rw (insert, known) at there)
  | inl unknown ↦
      let is = find-insert e.sock_fd fd e m unknown in
      elim (Bool-cases (int_eq e.sock_fd fd)) [
        | inl eq ↦
            let same : some x ≡ some e = sym there ∙ is ∙ rw eq in
            let mine : e ≡ x = cc in rw (← mine) ((int_eq_iff e.sock_fd fd).0 eq)
        | inr ne ↦ h fd x (sym (is ∙ rw ne) ∙ there)
      ]
]

tables_after-same :
    (c : TcpConnection) (t : Tables) (i : Incoming)
    → ((tables_after c t i).client_conns ≡ t.client_conns)
      × ((tables_after c t i).client_table ≡ t.client_table)
tables_after-same c t i = (ground arith, ground arith)

-- What holds of the loop while it connects: no clients, no requests, and servers under their own
-- descriptors.
record Starting (s : Startup) : Type 0 where
  no_clients : s.loop.tables.client_conns ≡ []
  no_requests : s.loop.requests ≡ []
  keys : IsKeyed s.loop.tables.server_conns

one_more-Starting :
    (n : Network) (location : Bytes) (s : Startup) → Starting s → Starting (one_more n location s)
unfolding add_connection
one_more-Starting n location s h = record {
  no_clients = h.no_clients;
  no_requests = h.no_requests;
  keys = insert-IsKeyed (server_end n s.calls) s.loop.tables.server_conns h.keys;
}

module _ (platform : Platform) (n : Network) (acceptor_fd : ℤ) (config : Parser) (l : EventLoop)
    (all : AllConnect n)
    (starts : connect_to_business_server n (new_event_loop acceptor_fd config) ≡ ok l) where
  at_start-Sound : Sound platform (at_start l)
  unfolding find
  at_start-Sound =
      let (s, is, h) =
        connect_to_business_server-keeps n Starting (one_more-Starting n)
          (λ location s h. record {
            no_clients = h.no_clients;
            no_requests = h.no_requests;
            keys = h.keys;
          })
          (new_event_loop acceptor_fd config) l
          (record { no_clients = refl; no_requests = refl; keys = λ fd x there. cc }) starts in
      let clients : l.tables.client_conns ≡ [] = rw (← is) h.no_clients in
      let requests : l.requests ≡ [] = rw (← is) h.no_requests in
      record {
        consistent =
            connect_to_business_server-IsConsistent platform n (new_event_loop acceptor_fd config) l
              all refl starts;
        client_keys = λ fd x there. let crash : find fd [] ≡ some x = rw clients at there in cc;
        server_keys = rw (← is) h.keys;
        apart = λ fd x there. rw clients refl;
        waiting = rw requests tt;
        held = tt;
      }

  pub running :
      (s : System) (steps : SerialSteps platform (at_start l) s) → AllTaken steps → Sound platform s
  running s steps all_taken =
      SerialSteps-Sound platform (at_start l) s at_start-Sound steps all_taken

  -- A descriptor that is open: of the connection itself, or of one in the tables.
  abbrev pub IsOpen : System → Endpoint → ℤ → Type 0
  IsOpen s e fd =
      (fd ≡ e.sock_fd)
      ⊎ ((x : Endpoint) × ((find fd s.loop.tables.server_conns ≡ some x)
            ⊎ (find fd s.loop.tables.client_conns ≡ some x)))

  target-IsOpen :
      (s : System)
      → Sound platform s
      → (e : Endpoint) (fd : ℤ) → IsTarget s.loop.tables e fd
      → IsOpen s e fd
  target-IsOpen s h e fd (inl own) = inl own
  target-IsOpen s h e fd (inr (j, x, is, inl there)) =
      let key : j ≡ fd = sym (h.server_keys j x there) ∙ is in inr (x, inl (rw key at there))
  target-IsOpen s h e fd (inr (j, x, is, inr there)) =
      let key : j ≡ fd = sym (h.client_keys j x there) ∙ is in inr (x, inr (rw key at there))

  targets-IsOpen :
      (s : System)
      → Sound platform s
      → (e : Endpoint) (sent : List (ℤ × Bytes)) → All (λ m. IsTarget s.loop.tables e m.0) sent
      → All (λ m. IsOpen s e m.0) sent
  targets-IsOpen s h e [] all_of = tt
  targets-IsOpen s h e (m ∷ sent) all_of =
      (target-IsOpen s h e m.0 all_of.0, targets-IsOpen s h e sent all_of.1)

  held_owns :
      (s : System)
      → Sound platform s
      → (e : Endpoint) (front back : List Endpoint) → s.in_hand ≡ front ++ e ∷ back
      → Owns s.loop.tables.client_conns e
  held_owns s h e front back place =
      let owns = Owns s.loop.tables.client_conns in
      (All-split owns front (e ∷ back) (rw place at h.held)).1.0

  -- In every serial run of the event loop and the workers, one in which each call of `process` and
  -- each event ends before the next begins, in whatever order and whatever comes in, the tables fit
  -- together; a worker that processes a connection meets no null pointer, and it writes to its own
  -- connection or to one that is in the tables. All business servers must have accepted at the
  -- start, and every `accept` must have given a free descriptor whose address was found both times.
  pub process-serves :
      (s : System) (e : Endpoint) (front back : List Endpoint) (i : Incoming)
      → (steps : SerialSteps platform (at_start l) s) → AllTaken steps
      → s.in_hand ≡ front ++ e ∷ back
      → IsConsistent platform s.loop.tables
        × ((o : Outcome) × (process platform (connection s e) s.loop.tables i ≡ some o)
            × All (λ m. IsOpen s e m.0) o.sent)
  process-serves s e front back i steps all_taken place =
      let h = running s steps all_taken in
      let (o, made, fits) =
        process-IsConsistent platform (connection s e) s.loop.tables i h.consistent
          (held_owns s h e front back place) in
      let effects = process-Effects platform (connection s e) s.loop.tables i o made in
      (h.consistent, (o, made, targets-IsOpen s h e o.sent effects.targets))

  -- A reply that is sent goes to one client, whose address is the one that the reply names, on that
  -- client's own descriptor, as it stands in the buffer. This is so in every serial run of the event
  -- loop and the workers, one in which each call of `process` and each event ends before the next
  -- begins. All business servers must have accepted at the start, and every `accept` must have given
  -- a free descriptor whose address was found both times.
  pub process-addresses :
      (s : System) (e : Endpoint) (i : Incoming) (o : Outcome)
      → (steps : SerialSteps platform (at_start l) s) → AllTaken steps
      → e.type ≡ server
      → process platform (connection s e) s.loop.tables i ≡ some o
      → (o.sent ≡ [])
        ⊎ ((x : Endpoint) × (find x.sock_fd s.loop.tables.client_conns ≡ some x)
            × (client_field ((connection s e).read_buf ++ received i) ≡ some (address platform x))
            × (o.sent ≡ (x.sock_fd, (connection s e).read_buf ++ received i) ∷ []))
  process-addresses s e i o steps all_taken is made =
      let h = running s steps all_taken in
      let c = connection s e in
      let reply : do_server2client c s.loop.tables i ≡ some o =
        sym (process-server platform c s.loop.tables i is) ∙ made in
      let (fixed, same, sent) =
        route_reply-sends (record c { read_buf = c.read_buf ++ received i })
          (tables_after c s.loop.tables i) o
          (sym (do_server2client-route c s.loop.tables i) ∙ reply) in
      elim sent [
        | inl nothing ↦ inl nothing
        | inr (name, fd, x, named, known, there, is_sent) ↦
            let clients = tables_after-same c s.loop.tables i in
            let (y, found, named_so) = h.consistent.clients name fd (rw (clients.1) at known) in
            let here : find fd s.loop.tables.client_conns ≡ some x = rw (clients.0) at there in
            let one : y ≡ x = cc in
            let key = h.client_keys fd x here in
            inr (
              x,
              rw (← key) at here,
              named ∙ ap some (sym (ap (address platform) (sym one) ∙ named_so)),
              is_sent,
            )
      ]
