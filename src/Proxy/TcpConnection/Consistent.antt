-- ===== src/Proxy/TcpConnection/Consistent.antt =====
-- `process` keeps the tables fitting together and meets no null pointer.
use micro_business_server.Base.{
  List, [], ◌∷◌, ◌++◌, Option, none, some, inl, inr, ◌≡◌, refl, Bool-cases, Option-cases,
}
use micro_business_server.Base.Int.{ℤ}
use micro_business_server.Base.Map.{find, text_key, int_key}
use micro_business_server.Base.Text.{Bytes}
use micro_business_server.Proxy.SocketIo.Reading.{received, stays_open}
use micro_business_server.Proxy.SocketIo.{Incoming}
use micro_business_server.Proxy.TcpConnection.Forwarding.{
  do_client2server-open, do_client2server-closed,
}
use micro_business_server.Proxy.TcpConnection.Reply.{tables_after, do_server2client-route}
use micro_business_server.Proxy.TcpConnection.{
  TcpConnection, Tables, Platform, Outcome, ConnectionType, client, server, HttpCode, bad_request,
  get_request, getline, parse_request_line, forward_to, answer, do_client2server, deliver,
  route_reply, client_field, do_server2client, process_as, process,
}
use micro_business_server.Proxy.TcpConnection.Fitting.{
  IsConsistent, IsOwner, counted, forget_server-IsConsistent, forget_client-IsConsistent,
  add_empty-IsConsistent,
}

-- A call that is made, and tables that fit together behind it.
abbrev pub Succeeds : Platform → Option Outcome → Type 0
Succeeds platform r = (o : Outcome) × (r ≡ some o) × IsConsistent platform o.tables

module _ (platform : Platform) (t : Tables) (h : IsConsistent platform t) where
  forward_to-Succeeds :
      (c : TcpConnection) (message : Bytes) (servers : Option (List ℤ))
      → find c.business_code t.forwarding ≡ servers
      → Succeeds platform (forward_to platform c t message servers)
  unfolding forward_to
  forward_to-Succeeds c message none e =
      (_, refl, add_empty-IsConsistent platform t h c.business_code)
  forward_to-Succeeds c message (some []) e = (_, refl, h)
  forward_to-Succeeds c message (some (fd ∷ fds)) e =
      let (x, there) = h.servers c.business_code (fd ∷ fds) fd e (counted fd fds) in
      rw (forward_to, there) (_, refl, h)

  answer-Succeeds :
      (c : TcpConnection) (code : HttpCode) → Succeeds platform (answer platform c t code)
  unfolding answer
  answer-Succeeds c bad_request = (_, refl, h)
  answer-Succeeds c get_request = forward_to-Succeeds c _ (find c.business_code t.forwarding) refl

  deliver-Succeeds :
      (c : TcpConnection) (name : Bytes) (target : Option ℤ)
      → find name t.client_table ≡ target
      → Succeeds platform (deliver c t target)
  unfolding deliver
  deliver-Succeeds c name none e = (_, refl, h)
  deliver-Succeeds c name (some fd) e =
      let (x, there, named) = h.clients name fd e in rw (deliver, there) (_, refl, h)

  route_reply-Succeeds : (c : TcpConnection) → Succeeds platform (route_reply c t)
  unfolding route_reply
  route_reply-Succeeds c = elim (Option-cases (client_field c.read_buf)) [
    | inl e ↦ rw (route_reply, e) (_, refl, h)
    | inr (name, e) ↦ rw (route_reply, e) (deliver-Succeeds c name (find name t.client_table) refl)
  ]

tables_after-IsConsistent :
    (platform : Platform) (c : TcpConnection) (t : Tables) (i : Incoming)
    → IsConsistent platform t
    → IsConsistent platform (tables_after c t i)
tables_after-IsConsistent platform c t i h = elim (Bool-cases (stays_open i)) [
  | inl e ↦ rw e h
  | inr e ↦ rw e (forget_server-IsConsistent platform t h c.sock_fd)
]

do_client2server-Succeeds :
    (platform : Platform) (c : TcpConnection) (t : Tables) (i : Incoming)
    → IsConsistent platform t
    → IsOwner platform t c
    → Succeeds platform (do_client2server platform c t i)
do_client2server-Succeeds platform c t i h own = elim (Bool-cases (stays_open i)) [
  | inl e ↦
      let c1 : TcpConnection = record c { read_buf = c.read_buf ++ received i } in
      let (d, code) = parse_request_line t.forwarding c1 (getline c1.read_buf) in
      rw (do_client2server-open platform c t i d code e refl) (answer-Succeeds platform t h d code)
  | inr e ↦
      rw (do_client2server-closed platform c t i e)
        (_, refl, forget_client-IsConsistent platform t h c own)
]

do_server2client-Succeeds :
    (platform : Platform) (c : TcpConnection) (t : Tables) (i : Incoming)
    → IsConsistent platform t
    → Succeeds platform (do_server2client c t i)
do_server2client-Succeeds platform c t i h = rw (do_server2client-route c t i) (
    route_reply-Succeeds platform (tables_after c t i) (tables_after-IsConsistent platform c t i h)
      (record c { read_buf = c.read_buf ++ received i }))

-- While the tables fit together, a worker's call on any connection dereferences no null pointer,
-- whatever comes in, and leaves tables that fit together. A connection that is still in the table
-- of clients must be its own entry there.
pub process-IsConsistent :
    (platform : Platform) (c : TcpConnection) (t : Tables) (i : Incoming)
    → IsConsistent platform t
    → IsOwner platform t c
    → (o : Outcome) × (process platform c t i ≡ some o) × IsConsistent platform o.tables
unfolding process
process-IsConsistent platform c t i h own = by_type c.type
  where
    by_type : (type : ConnectionType) → Succeeds platform (process_as type platform c t i)
    by_type client = unfold process_as in do_client2server-Succeeds platform c t i h own
    by_type server = unfold process_as in do_server2client-Succeeds platform c t i h
