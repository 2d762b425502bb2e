-- ===== src/Proxy/TcpConnection/Segments.antt =====
-- A message that does not come in whole: a call of `process` takes what is there for a message.
use micro_business_server.Base.{true, [], ◌∷◌, ◌++◌, map, none, some, ◌≡◌, refl, All}
use micro_business_server.Base.Map.{text_key, int_key}
use micro_business_server.Base.Text.{Bytes, codes, find_text}
use micro_business_server.Proxy.SocketIo.Reading.{received, stays_open}
use micro_business_server.Proxy.SocketIo.{Incoming}
use micro_business_server.Proxy.TcpConnection.ClientField.{NoNewline, client_line}
use micro_business_server.Proxy.TcpConnection.Forwarding.{do_client2server-forwards}
use micro_business_server.Proxy.TcpConnection.Merged.{do_server2client-merges}
use micro_business_server.Proxy.TcpConnection.Reply.{
  address, IsRegistered, do_server2client-delivers,
}
use micro_business_server.Proxy.TcpConnection.RoundTrip.{IsServed, forwarded}
use micro_business_server.Proxy.TcpConnection.Stuck.{
  Rounds, Refuses, client_rounds, server_rounds, client_rounds-refused,
}
use micro_business_server.Proxy.TcpConnection.{Endpoint, TcpConnection, Tables, Platform, not_found}

module _ (platform : Platform) where
  -- The first part of a request, with its request line, is passed on. If the rest comes later and
  -- its first line is no request, it does not reach the server: it is answered with 404, and so is
  -- every later message of that client while no location makes a request of that line.
  pub tail_refused :
      (c : TcpConnection) (t : Tables) (i : Incoming) (raw rest : Bytes) (e : Endpoint) (u : Tables)
      (j : Incoming) (line more : Bytes) (rounds : Rounds)
      → IsServed t c i raw rest e
      → (plain : NoNewline line) → received j ≡ line ++ b'\n' ∷ more
      → All (Refuses platform line plain) ((u, j) ∷ rounds)
      → client_rounds platform c ((t, i) ∷ (u, j) ∷ rounds)
        ≡ some (
            (e.sock_fd, forwarded platform c raw rest)
            ∷ map (λ r. (c.sock_fd, not_found platform)) ((u, j) ∷ rounds))
  unfolding client_rounds
  tail_refused c t i raw rest e u j line more rounds r plain tail h =
      let d : TcpConnection = record c { read_buf = []; path = r.path; business_code = r.code } in
      let first =
        do_client2server-forwards platform c t i raw rest r.path r.code r.fd r.fds e r.open_still
          r.message r.first_line r.request r.servers r.connected in
      let later = client_rounds-refused platform line plain d u j more rounds tail h in
      rw (client_rounds, first, later) refl

  -- The first part of a reply, which names a registered client, is delivered to that client. If the
  -- second part comes later and has no text `Client: `, it is delivered to the registered client
  -- that the next reply on that connection names, in front of that reply.
  pub tail_misdirected :
      (s : TcpConnection) (t u : Tables) (i j k : Incoming) (x y : Endpoint)
      (head rest next_head next_rest : Bytes)
      → stays_open i ≡ true
      → s.read_buf ++ received i ≡ head ++ b'\n' ∷ client_line (address platform x) rest
      → find_text (codes "Client: ") head ≡ none
      → IsRegistered platform t x
      → stays_open j ≡ true
      → find_text (codes "Client: ") (received j) ≡ none
      → stays_open k ≡ true
      → received j ++ received k ≡ next_head ++ b'\n' ∷ client_line (address platform y) next_rest
      → find_text (codes "Client: ") next_head ≡ none
      → IsRegistered platform u y
      → server_rounds s ((t, i) ∷ (u, j) ∷ (u, k) ∷ [])
        ≡ some ((x.sock_fd, s.read_buf ++ received i) ∷ (y.sock_fd, received j ++ received k) ∷ [])
  unfolding server_rounds
  tail_misdirected s t u i j k x y head rest next_head next_rest oi whole first rx oj nameless ok
        both next_first ry =
      let d : TcpConnection = record s { read_buf = [] } in
      let delivered = do_server2client-delivers platform s t i x head rest oi whole first rx in
      let (kept, merged) =
        do_server2client-merges platform d u j k y next_head next_rest oj ok nameless both
          next_first ry in
      rw (server_rounds, delivered, kept, merged, whole) refl
