-- ===== src/Proxy/System/Events.antt =====
-- The events keep a state sound: a new connection, a message, and any step.
use micro_business_server.Base.{
  ◌*◌, true, false, List, [], ◌∷◌, none, some, inl, inr, ◌≡◌, refl, sym, ◌∙◌, All, Bool-cases,
  Option-cases, All-append, All-both,
}
use micro_business_server.Base.Int.{ℤ, int_eq, int_eq_iff}
use micro_business_server.Base.Map.{Map, find, int_key}
use micro_business_server.Proxy.EventLoop.Clients.{
  new_conn, handle_new_connection-IsConsistent, handle_message-tables,
}
use micro_business_server.Proxy.EventLoop.{
  EventLoop, Event, Accepted, client_end, is_accept, is_epollin, handle_event, handle_message,
  handle_new_connection,
}
use micro_business_server.Proxy.System.{
  System, Memory, SerialStep, SerialSteps, IsClosed, IsTaken, StepTakes, AllTaken, at_event, grow,
  event, take_on, work, stay, next,
}
use micro_business_server.Proxy.System.Pending.{Owns, IsKeyed, Sound, work-Sound, take_on-Sound}
use micro_business_server.Proxy.TcpConnection.{Endpoint, Platform}

module _ (platform : Platform) (s : System) (h : Sound platform s) where
  -- A new client, with a descriptor that nothing has any more.
  module _ (a : Accepted) (taken : IsTaken s a) where
    closed : IsClosed s a.fd
    closed = taken.closed

    abbrev after : Map ℤ Endpoint
    after = (handle_new_connection platform a s.loop).tables.client_conns

    other_conn :
        (fd : ℤ) → int_eq a.fd fd ≡ false → find fd after ≡ find fd s.loop.tables.client_conns
    other_conn fd ne = new_conn platform a s.loop closed.no_client fd ∙ rw ne

    pending_owns :
        (e : Endpoint)
        → Owns s.loop.tables.client_conns e
        → int_eq a.fd e.sock_fd ≡ false
        → Owns after e
    pending_owns e own ne x there = own x (sym (other_conn e.sock_fd ne) ∙ there)

    pending_all :
        (es : List Endpoint)
        → All (Owns s.loop.tables.client_conns) es
        → All (λ e. int_eq a.fd e.sock_fd ≡ false) es
        → All (Owns after) es
    pending_all es = All-both (Owns s.loop.tables.client_conns) _ (Owns after) es pending_owns

    after_keys : IsKeyed after
    after_keys fd x there = elim (Bool-cases (int_eq a.fd fd)) [
      | inl eq ↦
          let same : a.fd ≡ fd = (int_eq_iff a.fd fd).0 eq in
          let mine : find fd after ≡ some (client_end a) =
            new_conn platform a s.loop closed.no_client fd ∙ rw eq in
          let is : client_end a ≡ x = cc in rw (← is) same
      | inr ne ↦ h.client_keys fd x (sym (other_conn fd ne) ∙ there)
    ]

    after_apart :
        (fd : ℤ) (x : Endpoint) → find fd s.loop.tables.server_conns ≡ some x → find fd after ≡ none
    after_apart fd x there = elim (Bool-cases (int_eq a.fd fd)) [
      | inl eq ↦
          let same : a.fd ≡ fd = (int_eq_iff a.fd fd).0 eq in
          let gone : find fd s.loop.tables.server_conns ≡ none = rw same at closed.no_server in cc
      | inr ne ↦ other_conn fd ne ∙ h.apart fd x there
    ]

  -- A message on a descriptor: the connection that is found there waits for a worker.
  found_owns :
      (fd : ℤ) (e : Endpoint)
      → find fd s.loop.tables.client_conns ≡ some e
      → Owns s.loop.tables.client_conns e
  found_owns fd e there x again =
      let key = h.client_keys fd e there in
      let here : find fd s.loop.tables.client_conns ≡ some x = rw key at again in cc

  server_owns :
      (fd : ℤ) (e : Endpoint)
      → find fd s.loop.tables.server_conns ≡ some e
      → Owns s.loop.tables.client_conns e
  server_owns fd e there x again =
      let key = h.server_keys fd e there in
      let here : find fd s.loop.tables.client_conns ≡ some x = rw key at again in
      let nobody = h.apart fd e there in cc

  handle_message-waiting :
      (fd : ℤ) → All (Owns s.loop.tables.client_conns) (handle_message fd s.loop).requests
  unfolding handle_message
  handle_message-waiting fd = elim (Option-cases (find fd s.loop.tables.client_conns)) [
    | inr (e, there) ↦
        rw (handle_message, there)
          (All-append (Owns s.loop.tables.client_conns) s.loop.requests (e ∷ []) h.waiting
            (found_owns fd e there, tt))
    | inl no_client ↦ elim (Option-cases (find fd s.loop.tables.server_conns)) [
      | inr (e, there) ↦
          rw (handle_message, no_client, there)
            (All-append (Owns s.loop.tables.client_conns) s.loop.requests (e ∷ []) h.waiting
              (server_owns fd e there, tt))
      | inl no_server ↦ rw (handle_message, no_client, no_server) h.waiting
    ]
  ]

  -- Soundness reads the tables and the two lists only.
  loop-Sound :
      (l : EventLoop) (memory : ℤ → Memory)
      → l.tables ≡ s.loop.tables
      → All (Owns s.loop.tables.client_conns) l.requests
      → Sound platform (record s { loop = l; memory = memory })
  loop-Sound l memory same waiting = record {
    consistent = rw same h.consistent;
    client_keys = rw same h.client_keys;
    server_keys = rw same h.server_keys;
    apart = rw same h.apart;
    waiting = rw same waiting;
    held = rw same h.held;
  }

  accept-Sound :
      (a : Accepted) (memory : ℤ → Memory)
      → IsTaken s a
      → Sound platform
          (record s { loop = handle_new_connection platform a s.loop; memory = memory })
  unfolding handle_new_connection
  accept-Sound a memory taken = record {
    consistent =
        handle_new_connection-IsConsistent platform a s.loop taken.closed.no_client taken.peer
          h.consistent;
    client_keys = after_keys a taken;
    server_keys = h.server_keys;
    apart = after_apart a taken;
    waiting = pending_all a taken s.loop.requests h.waiting taken.closed.not_waiting;
    held = pending_all a taken s.in_hand h.held taken.closed.not_in_hand;
  }

  event-Sound :
      (e : Event)
      → (is_accept s.loop e ≡ true → IsTaken s e.accepted)
      → Sound platform (at_event platform e s)
  unfolding handle_event
  event-Sound e takes = elim (Bool-cases (is_accept s.loop e)) [
    | inl taken ↦ rw (handle_event, taken) (accept-Sound e.accepted _ (takes taken))
    | inr other ↦ elim (Bool-cases (is_epollin e.events)) [
      | inl read ↦
          rw (handle_event, other, read)
            (loop-Sound (handle_message e.fd s.loop) s.memory (handle_message-tables e.fd s.loop)
              (handle_message-waiting e.fd))
      | inr skip ↦ rw (handle_event, other, skip) (loop-Sound s.loop s.memory refl h.waiting)
    ]
  ]

  pub SerialStep-Sound :
      (t : System) (step : SerialStep platform s t) → StepTakes step → Sound platform t
  SerialStep-Sound t (grow is) takes = rw is (
      loop-Sound (record s.loop { evt_list_size = 2 * s.loop.evt_list_size }) s.memory refl
        h.waiting)
  SerialStep-Sound t (event e given is) takes = rw is (event-Sound e takes)
  SerialStep-Sound t (take_on e rest first is) takes =
      rw is (take_on-Sound platform s h e rest first)
  SerialStep-Sound t (work e front back i o place made is) takes =
      rw is (work-Sound platform s h e front back i o place made)

pub SerialSteps-Sound :
    (platform : Platform) (s t : System)
    → Sound platform s
    → (steps : SerialSteps platform s t) → AllTaken steps
    → Sound platform t
SerialSteps-Sound platform s t h stay all = h
SerialSteps-Sound platform s t h (next steps step) all =
    SerialStep-Sound platform _ (SerialSteps-Sound platform s _ h steps all.0) t step all.1
