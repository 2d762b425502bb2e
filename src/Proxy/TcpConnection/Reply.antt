-- ===== src/Proxy/TcpConnection/Reply.antt =====
-- `do_server2client`: a reply goes to the client that its header names.
use micro_business_server.Base.{true, [], ◌∷◌, ◌++◌, none, some, ◌≢◌, ◌≡◌, ◌∙◌, if◌then◌else◌}
use micro_business_server.Base.Int.{ℤ}
use micro_business_server.Base.Map.{find, text_key, int_key}
use micro_business_server.Base.Text.{Bytes, codes, find_text}
use micro_business_server.Proxy.InetAddress.{ip_port}
use micro_business_server.Proxy.SocketIo.Reading.{received, stays_open, readn_lem}
use micro_business_server.Proxy.SocketIo.{Incoming}
use micro_business_server.Proxy.TcpConnection.ClientField.{
  NoNewline, client_line, client_field-client_line,
}
use micro_business_server.Proxy.TcpConnection.{
  Endpoint, TcpConnection, Tables, Platform, done, client_field, deliver, route_reply,
  forget_server, do_server2client,
}

abbrev pub tables_after : TcpConnection → Tables → Incoming → Tables
tables_after c t i = if stays_open i then t else forget_server c.sock_fd t

pub do_server2client-route :
    (c : TcpConnection) (t : Tables) (i : Incoming)
    → do_server2client c t i
      ≡ route_reply (record c { read_buf = c.read_buf ++ received i }) (tables_after c t i)
unfolding do_server2client
do_server2client-route c t i = rw (do_server2client, readn_lem i c.read_buf)

module _ (c : TcpConnection) (t : Tables) (name : Bytes)
    (h : client_field c.read_buf ≡ some name) where
  pub route_reply-delivers :
      (fd : ℤ) (e : Endpoint)
      → find name t.client_table ≡ some fd
      → find fd t.client_conns ≡ some e
      → route_reply c t ≡ done (record c { read_buf = [] }) t ((e.sock_fd, c.read_buf) ∷ [])
  unfolding route_reply deliver
  route_reply-delivers fd e f k = rw (route_reply, h, f, deliver, k)

  pub route_reply-drops : find name t.client_table ≡ none → route_reply c t ≡ done c t []
  unfolding route_reply deliver
  route_reply-drops f = rw (route_reply, h, f, deliver)

module _ (platform : Platform) where
  abbrev pub address : Endpoint → Bytes
  address e = ip_port platform.inet_ntoa e.peer_addr

  -- The tables lead from the client's address to its socket.
  pub record IsRegistered (t : Tables) (e : Endpoint) : Type 0 where
    pub fd : ℤ
    pub in_table : find (address e) t.client_table ≡ some fd
    pub in_conns : find fd t.client_conns ≡ some e
    pub is_text : NoNewline (address e)
    pub ne_nil : address e ≢ []

  -- A reply that stands in the buffer whole and names the client goes to that client unchanged.
  pub do_server2client-delivers :
      (s : TcpConnection) (t : Tables) (i : Incoming) (e : Endpoint) (head rest : Bytes)
      → stays_open i ≡ true
      → s.read_buf ++ received i ≡ head ++ b'\n' ∷ client_line (address e) rest
      → find_text (codes "Client: ") head ≡ none
      → IsRegistered t e
      → do_server2client s t i
        ≡ done
            (record s { read_buf = [] })
            t
            ((e.sock_fd, head ++ b'\n' ∷ client_line (address e) rest) ∷ [])
  do_server2client-delivers s t i e head rest o m h r =
      let named = client_field-client_line head (address e) rest h r.is_text r.ne_nil in
      do_server2client-route s t i
      ∙ rw (o, m)
          (route_reply-delivers
            (record s { read_buf = head ++ b'\n' ∷ client_line (address e) rest }) t (address e)
            named r.fd e r.in_table r.in_conns)

-- What a business server does with the header: its reply to `message` copies the line.
pub record IsReply (message reply : Bytes) : Type 0 where
  pub name : Bytes
  pub named : client_field message ≡ some name
  pub head : Bytes
  pub rest : Bytes
  pub form : reply ≡ head ++ b'\n' ∷ client_line name rest
  pub first : find_text (codes "Client: ") head ≡ none
