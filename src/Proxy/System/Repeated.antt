-- ===== src/Proxy/System/Repeated.antt =====
-- A client's socket that is reported twice before a worker has read from it.
use micro_business_server.Base.{[], ◌∷◌, ◌++◌, some, ◌≡◌, refl, ap, ◌∙◌, append_assoc}
use micro_business_server.Base.Int.{ℤ}
use micro_business_server.Base.Map.{find, int_key}
use micro_business_server.Base.Text.{Bytes, find_first}
use micro_business_server.Proxy.EventLoop.{EventLoop, handle_message}
use micro_business_server.Proxy.SocketIo.{Incoming, again}
use micro_business_server.Proxy.TcpConnection.Forwarding.{
  do_client2server-open, do_client2server-forwards,
}
use micro_business_server.Proxy.TcpConnection.RoundTrip.{IsServed, forwarded}
use micro_business_server.Proxy.TcpConnection.{
  Endpoint, TcpConnection, Tables, Platform, done, bad_request, parse_request_line, parse_chopped,
  getline, answer, not_found, do_client2server,
}

abbrev emptied : TcpConnection → TcpConnection
emptied c = record c { read_buf = [] }

-- A connection with nothing in its buffer and nothing to read is answered with 404.
do_client2server-idle :
    (platform : Platform) (c : TcpConnection) (t : Tables)
    → do_client2server platform (emptied c) t again
      ≡ done (emptied c) t ((c.sock_fd, not_found platform) ∷ [])
unfolding answer parse_request_line parse_chopped getline find_first
do_client2server-idle platform c t =
    do_client2server-open platform (emptied c) t again (emptied c) bad_request refl refl

handle_message-client :
    (fd : ℤ) (l : EventLoop) (e : Endpoint)
    → find fd l.tables.client_conns ≡ some e
    → handle_message fd l ≡ record l { requests = l.requests ++ e ∷ [] }
unfolding handle_message
handle_message-client fd l e h = rw (handle_message, h)

-- Two events on a client's socket hand it over twice, even if the first worker then reads the whole
-- request. That one passes the request on; the second finds nothing to read, and the client is
-- answered with 404 to a request that was served.
pub handle_message-repeats :
    (platform : Platform) (l : EventLoop) (c : TcpConnection) (i : Incoming) (raw rest : Bytes)
    (e : Endpoint)
    → find c.sock_fd l.tables.client_conns ≡ some c.fixed
    → (r : IsServed l.tables c i raw rest e)
    → ((handle_message c.sock_fd (handle_message c.sock_fd l)).requests
        ≡ l.requests ++ (c.fixed ∷ c.fixed ∷ []))
      × (do_client2server platform c l.tables i
          ≡ done
              (record c { read_buf = []; path = r.path; business_code = r.code })
              l.tables
              ((e.sock_fd, forwarded platform c raw rest) ∷ []))
      × (do_client2server platform
            (record c { read_buf = []; path = r.path; business_code = r.code })
            l.tables
            again
          ≡ done
              (record c { read_buf = []; path = r.path; business_code = r.code })
              l.tables
              ((c.sock_fd, not_found platform) ∷ []))
handle_message-repeats platform l c i raw rest e there r =
    let once : EventLoop = record l { requests = l.requests ++ c.fixed ∷ [] } in
    let first = handle_message-client c.sock_fd l c.fixed there in
    let second = handle_message-client c.sock_fd once c.fixed there in
    (
      ap (λ k. (handle_message c.sock_fd k).requests) first
          ∙ ap (λ k. k.requests) second
          ∙ append_assoc l.requests (c.fixed ∷ []) (c.fixed ∷ []),
      do_client2server-forwards platform c l.tables i raw rest r.path r.code r.fd r.fds e
          r.open_still r.message r.first_line r.request r.servers r.connected,
      do_client2server-idle platform
          (record c { read_buf = []; path = r.path; business_code = r.code }) l.tables,
    )
