-- ===== src/Proxy/TcpConnection/RoundTrip.antt =====
-- A request and its reply: through `do_client2server`, a business server and `do_server2client`.
use micro_business_server.Base.{true, List, [], ◌∷◌, ◌++◌, none, some, ◌≡◌, ap, ◌∙◌}
use micro_business_server.Base.Int.{ℤ}
use micro_business_server.Base.Map.{find, text_key, int_key}
use micro_business_server.Base.Text.{Bytes, codes, find_text}
use micro_business_server.Proxy.SocketIo.Reading.{received, stays_open}
use micro_business_server.Proxy.SocketIo.{Incoming}
use micro_business_server.Proxy.TcpConnection.ClientField.{
  NoNewline, client_line, client_field-client_line,
}
use micro_business_server.Proxy.TcpConnection.Forwarding.{do_client2server-forwards}
use micro_business_server.Proxy.TcpConnection.Reply.{
  address, IsRegistered, IsReply, do_server2client-delivers,
}
use micro_business_server.Proxy.TcpConnection.RequestLine.{IsRequest}
use micro_business_server.Proxy.TcpConnection.{
  Endpoint, TcpConnection, Tables, Platform, done, client_field, do_client2server, do_server2client,
}

-- A message of a client that is a request, and the server that it goes to.
pub record IsServed (t : Tables) (c : TcpConnection) (i : Incoming) (raw rest : Bytes)
    (e : Endpoint) : Type 0 where
  pub open_still : stays_open i ≡ true
  pub message : c.read_buf ++ received i ≡ raw ++ b'\n' ∷ rest
  pub first_line : NoNewline raw
  pub path : Bytes
  pub code : Bytes
  pub request : IsRequest t.forwarding raw path code
  pub fd : ℤ
  pub fds : List ℤ
  pub servers : find code t.forwarding ≡ some (fd ∷ fds)
  pub connected : find fd t.server_conns ≡ some e

module _ (platform : Platform) where
  abbrev pub forwarded : TcpConnection → Bytes → Bytes → Bytes
  forwarded c raw rest = raw ++ b'\n' ∷ client_line (address platform c.fixed) rest

  name_is :
      (c : TcpConnection) (t : Tables) (raw rest name : Bytes)
      → find_text (codes "Client: ") raw ≡ none
      → IsRegistered platform t c.fixed
      → client_field (forwarded c raw rest) ≡ some name
      → name ≡ address platform c.fixed
  name_is c t raw rest name h r e =
      let read =
        client_field-client_line raw (address platform c.fixed) rest h r.is_text r.ne_nil in
      cc

  -- Let a registered client's request reach a server `e`, and let `e` reply with the `Client` line
  -- that it was sent. The request arrives at `e` with that line added, and the reply arrives at the
  -- client unchanged; both buffers are empty again and the tables are as before.
  pub request_reply :
      (c s : TcpConnection) (t : Tables) (i j : Incoming) (raw rest reply : Bytes) (e : Endpoint)
      → IsRegistered platform t c.fixed
      → (r : IsServed t c i raw rest e) → find_text (codes "Client: ") raw ≡ none
      → s.read_buf ≡ []
      → stays_open j ≡ true
      → received j ≡ reply
      → IsReply (forwarded c raw rest) reply
      → (do_client2server platform c t i
          ≡ done
              (record c { read_buf = []; path = r.path; business_code = r.code })
              t
              ((e.sock_fd, forwarded c raw rest) ∷ []))
        × (do_server2client s t j ≡ done (record s { read_buf = [] }) t ((c.sock_fd, reply) ∷ []))
  request_reply c s t i j raw rest reply e reg r h empty o m p =
      let name = name_is c t raw rest p.name h reg p.named in
      let form : reply ≡ p.head ++ b'\n' ∷ client_line (address platform c.fixed) p.rest =
        p.form ∙ ap (λ n. p.head ++ b'\n' ∷ client_line n p.rest) name in
      (
        do_client2server-forwards platform c t i raw rest r.path r.code r.fd r.fds e r.open_still
            r.message r.first_line r.request r.servers r.connected,
        rw form (
            do_server2client-delivers platform s t j c.fixed p.head p.rest o (rw (empty, m) form)
              p.first reg),
      )
