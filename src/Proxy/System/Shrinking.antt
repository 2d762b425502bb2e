-- ===== src/Proxy/System/Shrinking.antt =====
-- The lists of servers while the proxy runs: nothing is put back into them.
use micro_business_server.Base.{
  ◌≤◌, List, [], ◌∷◌, ◌++◌, Option, none, some, inl, inr, ◌≡◌, refl, sym, ap, ◌∙◌, arith,
  Bool-cases, Option-cases,
}
use micro_business_server.Base.Int.{ℤ}
use micro_business_server.Base.Map.{find, assign, text_key, int_key, find-map}
use micro_business_server.Base.Text.{Bytes, text_eq}
use micro_business_server.Proxy.EventLoop.Clients.{handle_message-tables}
use micro_business_server.Proxy.EventLoop.ServerLists.{servers_at, servers_at-assign}
use micro_business_server.Proxy.EventLoop.{
  EventLoop, Event, is_accept, is_epollin, handle_event, handle_new_connection,
}
use micro_business_server.Proxy.SocketIo.Reading.{received, stays_open}
use micro_business_server.Proxy.SocketIo.{Incoming}
use micro_business_server.Proxy.System.{
  System, SerialStep, SerialSteps, connection, grow, event, take_on, work, stay, next,
}
use micro_business_server.Proxy.TcpConnection.Effects.{route_reply-sends}
use micro_business_server.Proxy.TcpConnection.Fitting.{count, count-remove_first-le}
use micro_business_server.Proxy.TcpConnection.Forwarding.{
  do_client2server-open, do_client2server-closed,
}
use micro_business_server.Proxy.TcpConnection.Reply.{tables_after, do_server2client-route}
use micro_business_server.Proxy.TcpConnection.{
  TcpConnection, Tables, Platform, Outcome, ConnectionType, client, server, HttpCode, bad_request,
  get_request, getline, parse_request_line, not_found, forget_client, forward_to, answer, done,
  do_client2server, do_server2client, remove_first, forget_server, process_as, process,
}

-- No server stands in a list more often than before.
abbrev pub IsFewer : Tables → Tables → Type 0
IsFewer u t =
    (code : Bytes) (fd : ℤ)
    → count fd (servers_at code u.forwarding) ≤ count fd (servers_at code t.forwarding)

pub servers_at-forget_server :
    (s : ℤ) (t : Tables) (code : Bytes)
    → servers_at code (forget_server s t).forwarding ≡ remove_first s (servers_at code t.forwarding)
unfolding servers_at remove_first
servers_at-forget_server s t code =
    let there = find-map (remove_first s) code t.forwarding in
    elim (Option-cases (find code t.forwarding)) [
      | inl e ↦ rw (servers_at, there, e)
      | inr (fds, e) ↦ rw (servers_at, there, e)
    ]

module _ (platform : Platform) (t : Tables) where
  -- A call that leaves the lists alone.
  same_lists :
      (c : TcpConnection) (u : Tables) (s : List (ℤ × Bytes)) (o : Outcome)
      → u.forwarding ≡ t.forwarding
      → done c u s ≡ some o
      → IsFewer o.tables t
  same_lists c u s o same is code fd =
      let made : record { conn = c; tables = u; sent = s } ≡ o = cc in
      rw (← made) (rw same (omega arith))

  -- `operator[]` puts an empty list at a key that is not there.
  new_list-IsFewer :
      (key : Bytes) → IsFewer (record t { forwarding = assign key [] t.forwarding }) t
  new_list-IsFewer key code fd =
      rw (servers_at-assign key code [] t.forwarding) (elim (Bool-cases (text_eq key code)) [
        | inl e ↦ rw e (omega arith)
        | inr e ↦ rw e (omega arith)
      ])

  forward_to-IsFewer :
      (c : TcpConnection) (message : Bytes) (servers : Option (List ℤ)) (o : Outcome)
      → forward_to platform c t message servers ≡ some o
      → IsFewer o.tables t
  unfolding forward_to
  forward_to-IsFewer c message none o e =
      let made : record {
        conn = c;
        tables = record t { forwarding = assign c.business_code [] t.forwarding };
        sent = (c.sock_fd, not_found platform) ∷ [];
      }
          ≡ o =
        cc in
      rw (← made) (new_list-IsFewer c.business_code)
  forward_to-IsFewer c message (some []) o e = same_lists c t _ o refl e
  forward_to-IsFewer c message (some (fd ∷ fds)) o e =
      elim (Option-cases (find fd t.server_conns)) [
        | inl gone ↦ let crash : none ≡ some o = rw (forward_to, gone) at e in cc
        | inr (x, there) ↦
            same_lists (record c { read_buf = [] }) t ((x.sock_fd, message) ∷ []) o refl
              (rw (forward_to, there) at e)
      ]

  answer-IsFewer :
      (c : TcpConnection) (code : HttpCode) (o : Outcome)
      → answer platform c t code ≡ some o
      → IsFewer o.tables t
  unfolding answer
  answer-IsFewer c bad_request o e = same_lists c t _ o refl e
  answer-IsFewer c get_request o e = forward_to-IsFewer c _ _ o e

  do_client2server-IsFewer :
      (c : TcpConnection) (i : Incoming) (o : Outcome)
      → do_client2server platform c t i ≡ some o
      → IsFewer o.tables t
  do_client2server-IsFewer c i o e = elim (Bool-cases (stays_open i)) [
    | inl open_still ↦
        let c1 : TcpConnection = record c { read_buf = c.read_buf ++ received i } in
        let (d, code) = parse_request_line t.forwarding c1 (getline c1.read_buf) in
        let made = do_client2server-open platform c t i d code open_still refl in
        answer-IsFewer d code o (sym made ∙ e)
    | inr shut ↦
        let c1 : TcpConnection = record c { read_buf = c.read_buf ++ received i } in
        let made = do_client2server-closed platform c t i shut in
        same_lists c1 (forget_client platform c t) [] o refl (sym made ∙ e)
  ]

  -- A server's connection that has closed is taken out of the lists.
  pub do_server2client-tables :
      (c : TcpConnection) (i : Incoming) (o : Outcome)
      → do_server2client c t i ≡ some o
      → o.tables ≡ tables_after c t i
  do_server2client-tables c i o e =
      let c1 : TcpConnection = record c { read_buf = c.read_buf ++ received i } in
      (route_reply-sends c1 (tables_after c t i) o (sym (do_server2client-route c t i) ∙ e)).1

  do_server2client-IsFewer :
      (c : TcpConnection) (i : Incoming) (o : Outcome)
      → do_server2client c t i ≡ some o
      → IsFewer o.tables t
  do_server2client-IsFewer c i o e code fd =
      rw (do_server2client-tables c i o e) (elim (Bool-cases (stays_open i)) [
        | inl open_still ↦ rw open_still (omega arith)
        | inr shut ↦
            rw (shut, servers_at-forget_server c.sock_fd t code)
              (count-remove_first-le c.sock_fd fd (servers_at code t.forwarding))
      ])

  process-IsFewer :
      (c : TcpConnection) (i : Incoming) (o : Outcome)
      → process platform c t i ≡ some o
      → IsFewer o.tables t
  unfolding process
  process-IsFewer c i o = by_type c.type
    where
      by_type :
          (type : ConnectionType) → process_as type platform c t i ≡ some o → IsFewer o.tables t
      by_type client = unfold process_as in do_client2server-IsFewer c i o
      by_type server = unfold process_as in do_server2client-IsFewer c i o

handle_event-forwarding :
    (platform : Platform) (l : EventLoop) (e : Event)
    → (handle_event platform l e).tables.forwarding ≡ l.tables.forwarding
unfolding handle_event handle_new_connection
handle_event-forwarding platform l e = elim (Bool-cases (is_accept l e)) [
  | inl taken ↦ rw (handle_event, taken) refl
  | inr other ↦ elim (Bool-cases (is_epollin e.events)) [
    | inl read ↦
        rw (handle_event, other, read) (ap (λ t. t.forwarding) (handle_message-tables e.fd l))
    | inr skip ↦ rw (handle_event, other, skip) refl
  ]
]

SerialStep-IsFewer :
    (platform : Platform) (s t : System)
    → SerialStep platform s t
    → IsFewer t.loop.tables s.loop.tables
SerialStep-IsFewer platform s t (grow is) code fd = rw is (omega arith)
SerialStep-IsFewer platform s t (event e closed is) code fd =
    rw (is, handle_event-forwarding platform s.loop e) (omega arith)
SerialStep-IsFewer platform s t (take_on e rest first is) code fd = rw is (omega arith)
SerialStep-IsFewer platform s t (work e front back i o place made is) code fd =
    rw is (process-IsFewer platform s.loop.tables (connection s e) i o made code fd)

-- In every run a server that has left a location's list does not come back.
pub SerialSteps-IsFewer :
    (platform : Platform) (s t : System)
    → SerialSteps platform s t
    → IsFewer t.loop.tables s.loop.tables
SerialSteps-IsFewer platform s t stay code fd = omega arith
SerialSteps-IsFewer platform s u (next {t = t} steps step) code fd = omega (
  arith,
  SerialSteps-IsFewer platform s t steps code fd,
  SerialStep-IsFewer platform t u step code fd,
)
