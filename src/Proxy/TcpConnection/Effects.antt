-- ===== src/Proxy/TcpConnection/Effects.antt =====
-- What a call of `process` can change in the tables, and to whom it can send.
use micro_business_server.Base.{
  List, [], ◌∷◌, ◌++◌, Option, none, some, ◌⊎◌, inl, inr, ◌≡◌, refl, sym, ap, ◌∙◌, Bool-cases,
  Option-cases, All, arith,
}
use micro_business_server.Base.Int.{ℤ, int_eq}
use micro_business_server.Base.Map.{Map, find, erase, text_key, int_key, find-erase}
use micro_business_server.Base.Text.{Bytes}
use micro_business_server.Proxy.SocketIo.Reading.{received, stays_open}
use micro_business_server.Proxy.SocketIo.{Incoming}
use micro_business_server.Proxy.TcpConnection.Forwarding.{
  do_client2server-open, do_client2server-closed, parse_request_line-keeps,
}
use micro_business_server.Proxy.TcpConnection.Reply.{tables_after, do_server2client-route}
use micro_business_server.Proxy.TcpConnection.{
  Endpoint, TcpConnection, Tables, Platform, Outcome, ConnectionType, client, server, HttpCode,
  bad_request, get_request, getline, parse_request_line, forward_to, answer, forget_client,
  do_client2server, deliver, route_reply, client_field, do_server2client, process_as, process, done,
}

-- Every entry of one table is in the other.
abbrev pub IsWithin : Map ℤ Endpoint → Map ℤ Endpoint → Type 0
IsWithin new old = (fd : ℤ) (x : Endpoint) → find fd new ≡ some x → find fd old ≡ some x

erase-IsWithin : (s : ℤ) (m : Map ℤ Endpoint) → IsWithin (erase s m) m
erase-IsWithin s m fd x e = elim (Bool-cases (int_eq s fd)) [
  | inl eq ↦ let gone : find fd (erase s m) ≡ none = find-erase s fd m ∙ rw eq in cc
  | inr ne ↦ sym (find-erase s fd m ∙ rw ne) ∙ e
]

-- A socket that a connection may write to: its own, that of a server, or that of a client.
abbrev pub IsTarget : Tables → Endpoint → ℤ → Type 0
IsTarget t e fd =
    (fd ≡ e.sock_fd)
    ⊎ ((j : ℤ) × (x : Endpoint) × (x.sock_fd ≡ fd)
        × ((find j t.server_conns ≡ some x) ⊎ (find j t.client_conns ≡ some x)))

pub record Effects (e : Endpoint) (t : Tables) (o : Outcome) : Type 0 where
  pub same : o.conn.fixed ≡ e
  pub clients : IsWithin o.tables.client_conns t.client_conns
  pub servers : IsWithin o.tables.server_conns t.server_conns
  pub targets : All (λ message. IsTarget t e message.0) o.sent

module _ (platform : Platform) (t : Tables) where
  -- A call that changes at most the lists of servers.
  pub stays :
      (c : TcpConnection) (e : Endpoint) (u : Tables) (s : List (ℤ × Bytes)) (o : Outcome)
      → c.fixed ≡ e
      → u.client_conns ≡ t.client_conns
      → u.server_conns ≡ t.server_conns
      → All (λ message. IsTarget t e message.0) s
      → done c u s ≡ some o
      → Effects e t o
  stays c e u s o fixed clients servers targets is =
      let same : record { conn = c; tables = u; sent = s } ≡ o = cc in
      rw (← same) (record {
        same = fixed;
        clients = λ fd x there. rw (← clients) there;
        servers = λ fd x there. rw (← servers) there;
        targets = targets;
      })

  forward_to-Effects :
      (c : TcpConnection) (message : Bytes) (servers : Option (List ℤ)) (o : Outcome)
      → forward_to platform c t message servers ≡ some o
      → Effects c.fixed t o
  unfolding forward_to
  forward_to-Effects c message none o e = stays c c.fixed _ _ o refl refl refl (inl refl, tt) e
  forward_to-Effects c message (some []) o e = stays c c.fixed t _ o refl refl refl (inl refl, tt) e
  forward_to-Effects c message (some (fd ∷ fds)) o e =
      elim (Option-cases (find fd t.server_conns)) [
        | inl gone ↦ let crash : none ≡ some o = rw (forward_to, gone) at e in cc
        | inr (x, there) ↦
            stays (record c { read_buf = [] }) c.fixed t ((x.sock_fd, message) ∷ []) o refl refl
              refl (inr (fd, x, refl, inl there), tt) (rw (forward_to, there) at e)
      ]

  answer-Effects :
      (c : TcpConnection) (code : HttpCode) (o : Outcome)
      → answer platform c t code ≡ some o
      → Effects c.fixed t o
  unfolding answer
  answer-Effects c bad_request o e = stays c c.fixed t _ o refl refl refl (inl refl, tt) e
  answer-Effects c get_request o e = forward_to-Effects c _ _ o e

-- What `do_server2client` sends: nothing, or the whole buffer to the client that it names.
pub route_reply-sends :
    (c : TcpConnection) (t : Tables) (o : Outcome)
    → route_reply c t ≡ some o
    → (o.conn.fixed ≡ c.fixed)
      × (o.tables ≡ t)
      × ((o.sent ≡ [])
          ⊎ ((name : Bytes) × (fd : ℤ) × (x : Endpoint) × (client_field c.read_buf ≡ some name)
              × (find name t.client_table ≡ some fd)
              × (find fd t.client_conns ≡ some x)
              × (o.sent ≡ (x.sock_fd, c.read_buf) ∷ [])))
unfolding route_reply deliver
route_reply-sends c t o e = elim (Option-cases (client_field c.read_buf)) [
  | inl nobody ↦ let is : done c t [] ≡ some o = rw (route_reply, nobody) at e in (cc, cc, inl cc)
  | inr (name, named) ↦ elim (Option-cases (find name t.client_table)) [
    | inl gone ↦
        let is : done c t [] ≡ some o = rw (route_reply, named, gone, deliver) at e in
        (cc, cc, inl cc)
    | inr (fd, known) ↦ elim (Option-cases (find fd t.client_conns)) [
      | inl lost ↦
          let crash : none ≡ some o = rw (route_reply, named, known, deliver, lost) at e in cc
      | inr (x, there) ↦
          let is : done (record c { read_buf = [] }) t ((x.sock_fd, c.read_buf) ∷ []) ≡ some o =
            rw (route_reply, named, known, deliver, there) at e in
          (cc, cc, inr (name, fd, x, named, known, there, cc))
    ]
  ]
]

module _ (platform : Platform) (c : TcpConnection) (t : Tables) (i : Incoming) (o : Outcome) where
  do_client2server-Effects : do_client2server platform c t i ≡ some o → Effects c.fixed t o
  do_client2server-Effects e = elim (Bool-cases (stays_open i)) [
    | inl open_still ↦
        let c1 : TcpConnection = record c { read_buf = c.read_buf ++ received i } in
        let (d, code) = parse_request_line t.forwarding c1 (getline c1.read_buf) in
        let keeps = (parse_request_line-keeps t.forwarding c1 (getline c1.read_buf)).0 in
        let made = do_client2server-open platform c t i d code open_still refl in
        rw (← keeps) (answer-Effects platform t d code o (sym made ∙ e))
    | inr shut ↦
        let c1 : TcpConnection = record c { read_buf = c.read_buf ++ received i } in
        let made = do_client2server-closed platform c t i shut in
        let is : record { conn = c1; tables = forget_client platform c t; sent = [] } ≡ o = cc in
        rw (← is) (record {
          same = refl;
          clients = erase-IsWithin c.sock_fd t.client_conns;
          servers = λ fd x there. there;
          targets = tt;
        })
  ]

  -- The tables that a business server's connection works on: without it, if it has closed.
  tables_after-clients : (tables_after c t i).client_conns ≡ t.client_conns
  tables_after-clients = ground arith

  tables_after-IsWithin : IsWithin (tables_after c t i).server_conns t.server_conns
  tables_after-IsWithin = elim (Bool-cases (stays_open i)) [
    | inl e ↦ rw e (λ fd x there. there)
    | inr e ↦ rw e (erase-IsWithin c.sock_fd t.server_conns)
  ]

  do_server2client-Effects : do_server2client c t i ≡ some o → Effects c.fixed t o
  do_server2client-Effects e =
      let c1 : TcpConnection = record c { read_buf = c.read_buf ++ received i } in
      let (fixed, tables, sent) =
        route_reply-sends c1 (tables_after c t i) o (sym (do_server2client-route c t i) ∙ e) in
      record {
        same = fixed;
        clients = λ fd x there. rw (tables, tables_after-clients) at there;
        servers = λ fd x there. tables_after-IsWithin fd x (rw tables at there);
        targets = elim sent [
          | inl nothing ↦ rw nothing tt
          | inr (name, fd, x, named, known, there, is) ↦
              rw is (inr (fd, x, refl, inr (rw tables_after-clients at there)), tt)
        ];
      }

-- A call of `process` adds no connection to the tables, and writes to its own socket or to one of a
-- connection in the tables.
pub process-Effects :
    (platform : Platform) (c : TcpConnection) (t : Tables) (i : Incoming) (o : Outcome)
    → process platform c t i ≡ some o
    → Effects c.fixed t o
unfolding process
process-Effects platform c t i o = by_type c.type
  where
    by_type :
        (type : ConnectionType) → process_as type platform c t i ≡ some o → Effects c.fixed t o
    by_type client = unfold process_as in do_client2server-Effects platform c t i o
    by_type server = unfold process_as in do_server2client-Effects platform c t i o

pub process-server :
    (platform : Platform) (c : TcpConnection) (t : Tables) (i : Incoming)
    → c.type ≡ server
    → process platform c t i ≡ do_server2client c t i
unfolding process process_as
process-server platform c t i is = ap (λ type. process_as type platform c t i) is
