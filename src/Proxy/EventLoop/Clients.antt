-- ===== src/Proxy/EventLoop/Clients.antt =====
-- `handleNewConnection`, `handleMessage` and the loop over the events of `waitEpollfd`.
use micro_business_server.Base.{
  ◌*◌, ◌==◌, true, List, [], ◌∷◌, none, some, ◌≢◌, inl, inr, ◌≡◌, refl, sym, ◌∙◌, arith,
  if◌then◌else◌, Bool-cases, length,
}
use micro_business_server.Base.Int.{ℤ, int_eq, int_eq_iff}
use micro_business_server.Base.Map.{find, text_key, int_key, find-assign, find-insert}
use micro_business_server.Base.Text.{Bytes, text_eq, text_eq_iff}
use micro_business_server.Proxy.EventLoop.{
  EventLoop, Accepted, Event, Waited, failed, timed_out, ready, client_end, is_epollin, is_accept,
  handle_new_connection, handle_message, handle_event, handle_events, wait_epollfd,
}
use micro_business_server.Proxy.TcpConnection.ClientField.{NoNewline}
use micro_business_server.Proxy.TcpConnection.Fitting.{IsConsistent}
use micro_business_server.Proxy.TcpConnection.Reply.{address, IsRegistered}
use micro_business_server.Proxy.TcpConnection.{Endpoint, Tables, Platform}

-- The kernel gives no number that a connection of the table still has.
abbrev pub IsFresh : EventLoop → Accepted → Type 0
IsFresh l a = find a.fd l.tables.client_conns ≡ none

-- Both calls of `getpeername` have given the same address.
abbrev pub HasPeer : Accepted → Type 0
HasPeer a = a.table_addr ≡ a.peer_addr

module _ (platform : Platform) (a : Accepted) (l : EventLoop) (fresh : IsFresh l a) where
  abbrev after : Tables
  after = (handle_new_connection platform a l).tables

  pub new_conn :
      (fd : ℤ)
      → find fd after.client_conns
        ≡ (if int_eq a.fd fd then some (client_end a) else find fd l.tables.client_conns)
  unfolding handle_new_connection
  new_conn fd = find-insert a.fd fd (client_end a) l.tables.client_conns fresh

module _ (platform : Platform) (a : Accepted) (l : EventLoop) (fresh : IsFresh l a)
    (peer : HasPeer a) where
  new_name :
      (name : Bytes)
      → find name (after platform a l fresh).client_table ≡ (
          if text_eq (address platform (client_end a)) name
          then some a.fd
          else find name l.tables.client_table)
  unfolding handle_new_connection
  new_name name =
      rw peer (find-assign (address platform (client_end a)) name a.fd l.tables.client_table)

  new_conn_self : find a.fd (after platform a l fresh).client_conns ≡ some (client_end a)
  new_conn_self = new_conn platform a l fresh a.fd ∙ rw ((int_eq_iff a.fd a.fd).1 refl)

  -- Every address still leads to a connection with that address.
  known :
      IsConsistent platform l.tables
      → (name : Bytes) (fd : ℤ) → find name (after platform a l fresh).client_table ≡ some fd
      → (e : Endpoint) × (find fd (after platform a l fresh).client_conns ≡ some e)
        × (address platform e ≡ name)
  known h name fd e = elim (Bool-cases (text_eq (address platform (client_end a)) name)) [
    | inl eq ↦
        let is : find name (after platform a l fresh).client_table ≡ some a.fd =
          new_name name ∙ rw eq in
        let same : a.fd ≡ fd = cc in
        (
          client_end a,
          rw (← same) new_conn_self,
          (text_eq_iff (address platform (client_end a)) name).0 eq,
        )
    | inr ne ↦
        let was : find name l.tables.client_table ≡ some fd = sym (new_name name ∙ rw ne) ∙ e in
        let (x, there, named) = h.clients name fd was in
        elim (Bool-cases (int_eq a.fd fd)) [
          | inl eq ↦
              let same : a.fd ≡ fd = (int_eq_iff a.fd fd).0 eq in
              let gone : find fd l.tables.client_conns ≡ none = rw same at fresh in cc
          | inr other ↦ (x, new_conn platform a l fresh fd ∙ rw other there, named)
        ]
  ]

  pub handle_new_connection-IsConsistent :
      IsConsistent platform l.tables → IsConsistent platform (after platform a l fresh)
  unfolding handle_new_connection
  handle_new_connection-IsConsistent h = record {
    servers = h.servers;
    once = h.once;
    clients = known h;
  }

  -- A new connection keeps the tables fitting together, and its client is registered: replies that
  -- name its address reach it.
  pub handle_new_connection-IsRegistered :
      IsConsistent platform l.tables
      → NoNewline (address platform (client_end a))
      → address platform (client_end a) ≢ []
      → IsConsistent platform (after platform a l fresh)
        × IsRegistered platform (after platform a l fresh) (client_end a)
  handle_new_connection-IsRegistered h no_newline ne_nil = (
    handle_new_connection-IsConsistent h,
    record {
      fd = a.fd;
      in_table =
          new_name (address platform (client_end a))
          ∙ rw ((text_eq_iff (address platform (client_end a)) _).1 refl);
      in_conns = new_conn_self;
      is_text = no_newline;
      ne_nil = ne_nil;
    },
  )

-- What the kernel and `inet_ntoa` give for a connection that is taken.
pub record IsAcceptable (platform : Platform) (l : EventLoop) (a : Accepted) : Type 0 where
  pub fresh : IsFresh l a
  pub peer : HasPeer a
  pub is_text : NoNewline (address platform (client_end a))
  pub ne_nil : address platform (client_end a) ≢ []

-- Every connection that is taken among the events is acceptable when its turn comes.
abbrev pub AllAcceptable : Platform → EventLoop → List Event → Type 0
AllAcceptable platform l [] = Unit
AllAcceptable platform l (e ∷ es) =
    (is_accept l e ≡ true → IsAcceptable platform l e.accepted)
    × AllAcceptable platform (handle_event platform l e) es

pub handle_message-tables : (fd : ℤ) (l : EventLoop) → (handle_message fd l).tables ≡ l.tables
unfolding handle_message
handle_message-tables fd l = ground arith

handle_event-IsConsistent :
    (platform : Platform) (l : EventLoop) (e : Event)
    → (is_accept l e ≡ true → IsAcceptable platform l e.accepted)
    → IsConsistent platform l.tables
    → IsConsistent platform (handle_event platform l e).tables
unfolding handle_event
handle_event-IsConsistent platform l e good h = elim (Bool-cases (is_accept l e)) [
  | inl taken ↦
      let g = good taken in
      rw taken
        (handle_new_connection-IsRegistered platform e.accepted l g.fresh g.peer h g.is_text
          g.ne_nil).0
  | inr other ↦ rw other (elim (Bool-cases (is_epollin e.events)) [
    | inl read ↦ rw (read, handle_message-tables e.fd l) h
    | inr skip ↦ rw skip h
  ])
]

handle_events-IsConsistent :
    (platform : Platform) (l : EventLoop) (es : List Event)
    → AllAcceptable platform l es
    → IsConsistent platform l.tables
    → IsConsistent platform (handle_events platform l es).tables
unfolding handle_events
handle_events-IsConsistent platform l [] good h = h
handle_events-IsConsistent platform l (e ∷ es) good h =
    handle_events-IsConsistent platform (handle_event platform l e) es good.1
      (handle_event-IsConsistent platform l e good.0 h)

abbrev pub events_of : Waited → List Event
events_of failed = []
events_of timed_out = []
events_of (ready es) = es

-- The list of events grows when it was filled.
abbrev pub resized : EventLoop → List Event → EventLoop
resized l es = record l {
  evt_list_size = if length es == l.evt_list_size then 2 * length es else l.evt_list_size;
}

-- A round of the event loop, with any events in any order, keeps the tables fitting together,
-- provided that each connection that is accepted has a number that no client in the table has, and one
-- address.
pub wait_epollfd-IsConsistent :
    (platform : Platform) (l : EventLoop) (w : Waited)
    → AllAcceptable platform (resized l (events_of w)) (events_of w)
    → IsConsistent platform l.tables
    → IsConsistent platform (wait_epollfd platform w l).tables
unfolding wait_epollfd
wait_epollfd-IsConsistent platform l failed good h = h
wait_epollfd-IsConsistent platform l timed_out good h = h
wait_epollfd-IsConsistent platform l (ready es) good h =
    handle_events-IsConsistent platform (resized l es) es good h
