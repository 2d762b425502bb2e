-- ===== src/Trip/Jam.antt =====
-- A reply that names nobody.
use micro_business_server.Base.{List, [], ◌∷◌, ◌++◌, some, ◌≡◌, ◌≢◌, All}
use micro_business_server.Base.Text.{Bytes}
use micro_business_server.Business.FrontEnd.{last_header, FrontEnd, IsHttp}
use micro_business_server.Business.Server.{Mysql, Library}
use micro_business_server.Proxy.InetAddress.Address.{IsDotted}
use micro_business_server.Proxy.SocketIo.Reading.{received}
use micro_business_server.Proxy.SocketIo.{Incoming}
use micro_business_server.Proxy.TcpConnection.ClientField.{NoNewline, client_field-client_line}
use micro_business_server.Proxy.TcpConnection.Reply.{address}
use micro_business_server.Proxy.TcpConnection.Stuck.{
  Rounds, IsAbsent, server_rounds, server_rounds-named,
}
use micro_business_server.Proxy.TcpConnection.{
  Endpoint, TcpConnection, Tables, Platform, done, client_field, do_client2server,
}
use micro_business_server.Trip.Return.{IsHandled, client_key, message, request_passes, reply_names}

module _ (platform : Platform) (f : FrontEnd) (http : IsHttp f)
    (dotted : IsDotted platform.inet_ntoa) {S : Type 0} (mysql : Mysql S) (library : Library) where
  -- A client's request whose last header `Client` is a name of nobody is passed on and handled;
  -- from its reply on nothing is sent to any client from that connection to the business server,
  -- whatever replies to other clients come in, as long as no client has that name.
  pub reply_jams :
      (c s : TcpConnection) (t : Tables) (i j : Incoming) (raw body : Bytes)
      (headers : List (Bytes × Bytes)) (e : Endpoint) (reply name : Bytes) (rounds : Rounds)
      (h : IsHandled platform f http dotted mysql library c s t i j raw body headers e reply)
      → last_header client_key headers (address platform c.fixed) ≡ name
      → NoNewline name
      → name ≢ []
      → All (IsAbsent name) ((t, j) ∷ rounds)
      → (do_client2server platform c t i
          ≡ done
              (record c { read_buf = []; path = h.served.path; business_code = h.served.code })
              t
              ((e.sock_fd, message platform f http dotted c.fixed raw headers body) ∷ []))
        × (server_rounds s ((t, j) ∷ rounds) ≡ some [])
  reply_jams c s t i j raw body headers e reply name rounds h last plain ne absent =
      let (head, rest, text, first) =
        reply_names platform f http dotted mysql library c s t i j raw body headers e reply h name
          last in
      let named : client_field (s.read_buf ++ received j) ≡ some name =
        rw (h.empty, h.whole, text) (client_field-client_line head name rest first plain ne) in
      (
        request_passes platform f http dotted mysql library c s t i j raw body headers e reply h,
        server_rounds-named name s t j rounds named absent,
      )
