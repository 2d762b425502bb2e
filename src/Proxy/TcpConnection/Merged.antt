-- ===== src/Proxy/TcpConnection/Merged.antt =====
-- A reply that names no client.
use micro_business_server.Base.{true, [], ◌∷◌, ◌++◌, none, ◌≡◌, ◌∙◌}
use micro_business_server.Base.Text.{Bytes, codes, find_text}
use micro_business_server.Proxy.SocketIo.Reading.{received, stays_open}
use micro_business_server.Proxy.SocketIo.{Incoming}
use micro_business_server.Proxy.TcpConnection.ClientField.{client_line}
use micro_business_server.Proxy.TcpConnection.Reply.{
  address, IsRegistered, do_server2client-route, do_server2client-delivers,
}
use micro_business_server.Proxy.TcpConnection.{
  Endpoint, TcpConnection, Tables, Platform, done, client_field, route_reply, do_server2client,
}

-- A reply with no `Client: ` in it is kept, and goes to the client of the next reply on that
-- server's connection, in front of what is meant for that client.
pub do_server2client-merges :
    (platform : Platform) (s : TcpConnection) (t : Tables) (i j : Incoming) (e : Endpoint)
    (head rest : Bytes)
    → stays_open i ≡ true
    → stays_open j ≡ true
    → find_text (codes "Client: ") (s.read_buf ++ received i) ≡ none
    → (s.read_buf ++ received i) ++ received j
      ≡ head ++ b'\n' ∷ client_line (address platform e) rest
    → find_text (codes "Client: ") head ≡ none
    → IsRegistered platform t e
    → (do_server2client s t i ≡ done (record s { read_buf = s.read_buf ++ received i }) t [])
      × (do_server2client (record s { read_buf = s.read_buf ++ received i }) t j
          ≡ done
              (record s { read_buf = [] })
              t
              ((e.sock_fd, (s.read_buf ++ received i) ++ received j) ∷ []))
unfolding client_field route_reply
do_server2client-merges platform s t i j e head rest oi oj nameless both first r = (
  do_server2client-route s t i ∙ rw (route_reply, client_field, nameless, oi),
  do_server2client-delivers platform (record s { read_buf = s.read_buf ++ received i }) t j e head
        rest oj both first r
      ∙ rw both,
)
