-- ===== src/Proxy/TcpConnection/Leaving.antt =====
-- A client that closes its connection while replies to it are still to come.
use micro_business_server.Base.{true, false, [], ◌++◌, none, some, ◌≡◌, refl, ◌∙◌}
use micro_business_server.Base.Int.{int_eq_iff}
use micro_business_server.Base.Map.{find, find-erase, text_key, int_key}
use micro_business_server.Base.Text.{text_eq_iff}
use micro_business_server.Proxy.SocketIo.Reading.{received, stays_open}
use micro_business_server.Proxy.SocketIo.{Incoming}
use micro_business_server.Proxy.TcpConnection.Forwarding.{do_client2server-closed}
use micro_business_server.Proxy.TcpConnection.Reply.{
  address, route_reply-drops, do_server2client-route,
}
use micro_business_server.Proxy.TcpConnection.{
  TcpConnection, Tables, Platform, done, client_field, forget_client, do_client2server,
  do_server2client,
}

module _ (platform : Platform) (c : TcpConnection) (t : Tables) where
  gone_name : find (address platform c.fixed) (forget_client platform c t).client_table ≡ none
  gone_name =
      find-erase (address platform c.fixed) (address platform c.fixed) t.client_table
      ∙ rw ((text_eq_iff (address platform c.fixed) _).1 refl)

  gone_conn : find c.sock_fd (forget_client platform c t).client_conns ≡ none
  gone_conn =
      find-erase c.sock_fd c.sock_fd t.client_conns ∙ rw ((int_eq_iff c.sock_fd c.sock_fd).1 refl)

-- When a client has closed its connection nothing is sent, its socket and its address are in no
-- table any more, and a reply that names the address is sent to nobody and stays in the buffer.
pub do_client2server-leaves :
    (platform : Platform) (c s : TcpConnection) (t : Tables) (i j : Incoming)
    → stays_open i ≡ false
    → stays_open j ≡ true
    → client_field (s.read_buf ++ received j) ≡ some (address platform c.fixed)
    → (u : Tables) × (do_client2server platform c t i
        ≡ done (record c { read_buf = c.read_buf ++ received i }) u [])
      × (find c.sock_fd u.client_conns ≡ none)
      × (find (address platform c.fixed) u.client_table ≡ none)
      × (do_server2client s u j ≡ done (record s { read_buf = s.read_buf ++ received j }) u [])
do_client2server-leaves platform c s t i j closed opened named =
    let u : Tables = forget_client platform c t in
    (
      u,
      do_client2server-closed platform c t i closed,
      gone_conn platform c t,
      gone_name platform c t,
      do_server2client-route s u j
          ∙ rw opened (
              route_reply-drops (record s { read_buf = s.read_buf ++ received j }) u
                (address platform c.fixed) named (gone_name platform c t)),
    )
