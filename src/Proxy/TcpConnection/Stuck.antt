-- ===== src/Proxy/TcpConnection/Stuck.antt =====
-- A message that is not delivered stays in the buffer, and what that does to the later ones.
use micro_business_server.Base.{
  true, List, [], ◌∷◌, ◌++◌, map, Option, none, some, ◌≡◌, refl, sym, ap, ◌∙◌, All, append_assoc,
  Bool-cases, inl, inr,
}
use micro_business_server.Base.Int.{ℤ}
use micro_business_server.Base.Map.{Map, find, text_key, int_key}
use micro_business_server.Base.Text.{Bytes}
use micro_business_server.Proxy.SocketIo.Reading.{received, stays_open}
use micro_business_server.Proxy.SocketIo.{Incoming}
use micro_business_server.Proxy.TcpConnection.ClientField.{NoNewline, client_field-append}
use micro_business_server.Proxy.TcpConnection.Forwarding.{
  getline_lem, parse_request_line-keeps, do_client2server-open,
}
use micro_business_server.Proxy.TcpConnection.Reply.{
  tables_after, do_server2client-route, route_reply-drops,
}
use micro_business_server.Proxy.TcpConnection.RequestLine.{IsRequest, parse_request_line_iff}
use micro_business_server.Proxy.TcpConnection.{
  TcpConnection, Tables, Platform, Sent, HttpCode, bad_request, get_request, done, answer, getline,
  not_found, client_field, parse_request_line, do_client2server, do_server2client,
}

-- The workers' calls for one connection in turn. Other connections may change the tables between
-- two calls, so each call has its own.
abbrev pub Rounds : Type 0
Rounds = List (Tables × Incoming)

unfoldable pub client_rounds : Platform → TcpConnection → Rounds → Option Sent
client_rounds platform c [] = some []
client_rounds platform c ((t, i) ∷ rounds) = elim (do_client2server platform c t i) [
  | none ↦ none
  | some o ↦ elim (client_rounds platform o.conn rounds) [
    | none ↦ none
    | some later ↦ some (o.sent ++ later)
  ]
]

unfoldable pub server_rounds : TcpConnection → Rounds → Option Sent
server_rounds c [] = some []
server_rounds c ((t, i) ∷ rounds) = elim (do_server2client c t i) [
  | none ↦ none
  | some o ↦ elim (server_rounds o.conn rounds) [
    | none ↦ none
    | some later ↦ some (o.sent ++ later)
  ]
]

-- No path makes a request of the line.
abbrev pub IsRefused : Map Bytes (List ℤ) → Bytes → Type 0
IsRefused table raw = (path code : Bytes) → ¬ IsRequest table raw path code

refused-bad_request :
    (table : Map Bytes (List ℤ)) (c : TcpConnection) (raw : Bytes)
    → IsRefused table raw
    → (code : HttpCode) (d : TcpConnection) → parse_request_line table c raw ≡ (d, code)
    → code ≡ bad_request
refused-bad_request table c raw h bad_request d e = refl
refused-bad_request table c raw h get_request d e =
    absurd (h d.path d.business_code ((parse_request_line_iff table c raw d).0 e).0)

-- A line is refused in every connection if it is in one.
pub bad_request-IsRefused :
    (table : Map Bytes (List ℤ)) (c : TcpConnection) (raw : Bytes)
    → (parse_request_line table c raw).1 ≡ bad_request
    → IsRefused table raw
bad_request-IsRefused table c raw h path code r =
    let d : TcpConnection = record c { path = path; business_code = code } in
    let e = (parse_request_line_iff table c raw d).1 (r, refl) in
    let f : get_request ≡ bad_request = ap (λ p. p.1) (sym e) ∙ h in cc

module _ (platform : Platform) (raw : Bytes) (n : NoNewline raw) where
  -- One call: 404 goes back, and the buffer has grown.
  refused_once :
      (c : TcpConnection) (t : Tables) (i : Incoming) (rest : Bytes)
      → stays_open i ≡ true
      → IsRefused t.forwarding raw
      → c.read_buf ++ received i ≡ raw ++ b'\n' ∷ rest
      → (d : TcpConnection) × (do_client2server platform c t i
          ≡ done d t ((c.sock_fd, not_found platform) ∷ []))
        × (d.fixed ≡ c.fixed)
        × (d.read_buf ≡ raw ++ b'\n' ∷ rest)
  unfolding answer
  refused_once c t i rest o h whole =
      let c1 : TcpConnection = record c { read_buf = c.read_buf ++ received i } in
      let line : getline c1.read_buf ≡ raw = rw whole (getline_lem raw rest n) in
      let d = (parse_request_line t.forwarding c1 raw).0 in
      let code = (parse_request_line t.forwarding c1 raw).1 in
      let (fixed, buffer) = parse_request_line-keeps t.forwarding c1 raw in
      let is_bad : code ≡ bad_request = refused-bad_request t.forwarding c1 raw h code d refl in
      (
        d,
        do_client2server-open platform c t i d code o (rw line)
            ∙ ap (answer platform d t) is_bad
            ∙ ap (λ e. done d t ((e.sock_fd, not_found platform) ∷ [])) fixed,
        fixed,
        buffer ∙ whole,
      )

  abbrev pub Refuses : Tables × Incoming → Type 0
  Refuses r = IsRefused r.0.forwarding raw × (stays_open r.1 ≡ true)

  refused_later :
      (c : TcpConnection) (rest : Bytes) (rounds : Rounds)
      → c.read_buf ≡ raw ++ b'\n' ∷ rest
      → All Refuses rounds
      → client_rounds platform c rounds ≡ some (map (λ r. (c.sock_fd, not_found platform)) rounds)
  unfolding client_rounds
  refused_later c rest [] b h = refl
  refused_later c rest ((t, i) ∷ rounds) b h =
      let whole : c.read_buf ++ received i ≡ raw ++ b'\n' ∷ (rest ++ received i) =
        rw b (append_assoc raw (b'\n' ∷ rest) (received i)) in
      let (d, once, fixed, buffer) = refused_once c t i _ h.0.1 h.0.0 whole in
      let later = refused_later d (rest ++ received i) rounds buffer h.1 in
      rw (client_rounds, once, later)
        (ap
          (λ e.
            some
              ((c.sock_fd, not_found platform) ∷ map (λ r. (e.sock_fd, not_found platform)) rounds))
          fixed)

  -- If the first line in a client's buffer is no request, that message and every later one on the
  -- connection, a correct request too, is answered with 404, and none of them is forwarded.
  pub client_rounds-refused :
      (c : TcpConnection) (t : Tables) (i : Incoming) (rest : Bytes) (rounds : Rounds)
      → c.read_buf ++ received i ≡ raw ++ b'\n' ∷ rest
      → All Refuses ((t, i) ∷ rounds)
      → client_rounds platform c ((t, i) ∷ rounds)
        ≡ some (map (λ r. (c.sock_fd, not_found platform)) ((t, i) ∷ rounds))
  unfolding client_rounds
  client_rounds-refused c t i rest rounds whole h =
      let (d, once, fixed, buffer) = refused_once c t i rest h.0.1 h.0.0 whole in
      let later = refused_later d rest rounds buffer h.1 in
      rw (client_rounds, once, later)
        (ap
          (λ e.
            some
              ((c.sock_fd, not_found platform) ∷ map (λ r. (e.sock_fd, not_found platform)) rounds))
          fixed)

-- What a server has sent for a client that has gone.
module _ (name : Bytes) where
  abbrev pub IsAbsent : Tables × Incoming → Type 0
  IsAbsent r = find name r.0.client_table ≡ none

  same_clients :
      (c : TcpConnection) (t : Tables) (i : Incoming)
      → (tables_after c t i).client_table ≡ t.client_table
  same_clients c t i = elim (Bool-cases (stays_open i)) [ inl e ↦ rw e | inr e ↦ rw e ]

  server_once :
      (c : TcpConnection) (t : Tables) (i : Incoming)
      → client_field (c.read_buf ++ received i) ≡ some name
      → IsAbsent (t, i)
      → do_server2client c t i
        ≡ done (record c { read_buf = c.read_buf ++ received i }) (tables_after c t i) []
  server_once c t i h a =
      do_server2client-route c t i
      ∙ route_reply-drops (record c { read_buf = c.read_buf ++ received i }) (tables_after c t i)
          name h (rw (same_clients c t i) a)

  -- Once the buffer of a server's connection names a client that is in no table, nothing more is sent
  -- from that connection, whatever replies come in, until the client is in the table again.
  pub server_rounds-blocked :
      (c : TcpConnection) (rounds : Rounds)
      → client_field c.read_buf ≡ some name
      → All IsAbsent rounds
      → server_rounds c rounds ≡ some []
  unfolding server_rounds
  server_rounds-blocked c [] h a = refl
  server_rounds-blocked c ((t, i) ∷ rounds) h a =
      let next = client_field-append c.read_buf (received i) name h in
      let c1 : TcpConnection = record c { read_buf = c.read_buf ++ received i } in
      rw (server_rounds, server_once c t i next a.0, server_rounds-blocked c1 rounds next a.1)

  -- The same from the call on that reads such a message.
  pub server_rounds-named :
      (c : TcpConnection) (t : Tables) (i : Incoming) (rounds : Rounds)
      → client_field (c.read_buf ++ received i) ≡ some name
      → All IsAbsent ((t, i) ∷ rounds)
      → server_rounds c ((t, i) ∷ rounds) ≡ some []
  unfolding server_rounds
  server_rounds-named c t i rounds h a =
      let c1 : TcpConnection = record c { read_buf = c.read_buf ++ received i } in
      rw (server_rounds, server_once c t i h a.0, server_rounds-blocked c1 rounds h a.1)
