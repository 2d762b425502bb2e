-- ===== src/Proxy/System/Abandoned.antt =====
-- A location whose business server has closed its connection.
use micro_business_server.Base.{
  ◌≤◌, true, false, List, [], ◌∷◌, ◌++◌, some, inl, inr, ◌≡◌, refl, sym, ap, ◌∙◌, arith,
  Option-cases,
}
use micro_business_server.Base.Int.{ℤ, int_eq, int_eq_iff}
use micro_business_server.Base.Map.{find, assign, text_key}
use micro_business_server.Base.Text.{Bytes}
use micro_business_server.Proxy.EventLoop.ServerLists.{servers_at, servers_at-some}
use micro_business_server.Proxy.SocketIo.Reading.{received, stays_open}
use micro_business_server.Proxy.SocketIo.{Incoming}
use micro_business_server.Proxy.System.Shrinking.{
  IsFewer, servers_at-forget_server, do_server2client-tables, SerialSteps-IsFewer,
}
use micro_business_server.Proxy.System.{System, SerialSteps, connection, at_outcome}
use micro_business_server.Proxy.TcpConnection.ClientField.{NoNewline}
use micro_business_server.Proxy.TcpConnection.Effects.{process-server}
use micro_business_server.Proxy.TcpConnection.Fitting.{count, counted}
use micro_business_server.Proxy.TcpConnection.Forwarding.{getline_lem, do_client2server-open}
use micro_business_server.Proxy.TcpConnection.RequestLine.{IsRequest, parse_request_line_iff}
use micro_business_server.Proxy.TcpConnection.{
  Endpoint, TcpConnection, Tables, Platform, Outcome, client, server, get_request, forward_to,
  answer, done, not_found, remove_first, do_client2server, process_as, process,
}

-- A list with nobody in it.
nobody-nil : (fds : List ℤ) → ((fd : ℤ) → count fd fds ≤ 0) → fds ≡ []
nobody-nil [] h = refl
nobody-nil (fd ∷ fds) h = absurd (omega (arith, h fd, counted fd fds))

IsFewer-nil :
    (u t : Tables) (code : Bytes)
    → IsFewer u t
    → servers_at code t.forwarding ≡ []
    → servers_at code u.forwarding ≡ []
IsFewer-nil u t code fewer nil =
    nobody-nil (servers_at code u.forwarding) (λ fd. rw nil at (fewer code fd))

module _ (platform : Platform) (t : Tables) where
  -- A request for a location without servers gets 404, and stays in the buffer.
  answer-nobody :
      (c : TcpConnection)
      → servers_at c.business_code t.forwarding ≡ []
      → (u : Tables) × (answer platform c t get_request
          ≡ done c u ((c.sock_fd, not_found platform) ∷ []))
  unfolding answer forward_to
  answer-nobody c nil = elim (Option-cases (find c.business_code t.forwarding)) [
    | inl e ↦ (
      record t { forwarding = assign c.business_code [] t.forwarding },
      rw (answer, e, forward_to) refl,
    )
    | inr (fds, e) ↦
        let is : fds ≡ [] = sym (servers_at-some c.business_code t.forwarding fds e) ∙ nil in
        (t, rw (answer, e, is, forward_to) refl)
  ]

  do_client2server-nobody :
      (c : TcpConnection) (i : Incoming) (raw rest path code : Bytes)
      → stays_open i ≡ true
      → c.read_buf ++ received i ≡ raw ++ b'\n' ∷ rest
      → NoNewline raw
      → IsRequest t.forwarding raw path code
      → servers_at code t.forwarding ≡ []
      → (o : Outcome) × (do_client2server platform c t i ≡ some o)
        × (o.sent ≡ (c.sock_fd, not_found platform) ∷ [])
        × (o.conn.read_buf ≡ raw ++ b'\n' ∷ rest)
  do_client2server-nobody c i raw rest path code open_still m n r nil =
      let c1 : TcpConnection = record c { read_buf = raw ++ b'\n' ∷ rest } in
      let d : TcpConnection = record c1 { path = path; business_code = code } in
      let (u, is) = answer-nobody d nil in
      let read = do_client2server-open platform c t i d get_request open_still (
        rw (m, getline_lem raw rest n)
          ((parse_request_line_iff t.forwarding c1 raw d).1 (r, refl))) in
      (_, read ∙ is, refl, refl)

-- The only server of a location closes its connection, and a worker deals with it. Then in every
-- later state of a serial run, whatever events come and workers do, a request for that location is answered with
-- 404 and stays in its client's buffer: nothing connects to a server again.
pub server_leaves :
    (platform : Platform) (s u : System) (e : Endpoint) (in_hand : List Endpoint) (j i : Incoming)
    (o : Outcome) (c : TcpConnection) (raw rest path code : Bytes)
    → e.type ≡ server
    → stays_open j ≡ false
    → process platform (connection s e) s.loop.tables j ≡ some o
    → servers_at code s.loop.tables.forwarding ≡ e.sock_fd ∷ []
    → SerialSteps platform (at_outcome o in_hand s) u
    → c.type ≡ client
    → stays_open i ≡ true
    → c.read_buf ++ received i ≡ raw ++ b'\n' ∷ rest
    → NoNewline raw
    → IsRequest u.loop.tables.forwarding raw path code
    → (p : Outcome) × (process platform c u.loop.tables i ≡ some p)
      × (p.sent ≡ (c.sock_fd, not_found platform) ∷ [])
      × (p.conn.read_buf ≡ raw ++ b'\n' ∷ rest)
unfolding process process_as remove_first
server_leaves platform s u e in_hand j i o c raw rest path code is_server shut made only steps
      is_client open_still m n r =
    let x : TcpConnection = connection s e in
    let tables =
      do_server2client-tables platform s.loop.tables x j o
        (sym (process-server platform x s.loop.tables j is_server) ∙ made) in
    let self : int_eq e.sock_fd e.sock_fd ≡ true = (int_eq_iff e.sock_fd e.sock_fd).1 refl in
    let gone : servers_at code o.tables.forwarding ≡ [] =
      rw (tables, shut, servers_at-forget_server e.sock_fd s.loop.tables code, only, self) refl in
    let nil =
      IsFewer-nil u.loop.tables o.tables code (SerialSteps-IsFewer platform _ u steps) gone in
    let (p, answered, sent, kept) =
      do_client2server-nobody platform u.loop.tables c i raw rest path code open_still m n r nil in
    (p, ap (λ type. process_as type platform c u.loop.tables i) is_client ∙ answered, sent, kept)
