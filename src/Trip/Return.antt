-- ===== src/Trip/Return.antt =====
-- Whose reply comes back to whom.
use micro_business_server.Base.{
  ℕ, arith, true, false, List, [], ◌∷◌, none, ◌++◌, ◌≡◌, refl, sym, ◌∙◌, ◌==◌, All,
}
use micro_business_server.Base.Except.{is_blank, is_digit}
use micro_business_server.Base.Search.{find_first-misses}
use micro_business_server.Base.Text.{Bytes, codes, text_eq, find_first, find_text}
use micro_business_server.Business.Answers.{AsksNothing}
use micro_business_server.Business.FrontEnd.{
  header_lines, IsHeader, IsLine, last_header, FrontEnd, IsHttp, trim_value-plain,
}
use micro_business_server.Business.Request.{get_header}
use micro_business_server.Business.Server.{Mysql, Library, HttpResponse, returned, on_request}
use micro_business_server.Proxy.InetAddress.Address.{IsDotted, ip_port-All, ip_port-Lacks}
use micro_business_server.Proxy.SocketIo.Reading.{received, stays_open}
use micro_business_server.Proxy.SocketIo.{Incoming}
use micro_business_server.Proxy.TcpConnection.ClientField.{client_line}
use micro_business_server.Proxy.TcpConnection.Forwarding.{do_client2server-forwards}
use micro_business_server.Proxy.TcpConnection.Reply.{
  address, IsRegistered, do_server2client-delivers,
}
use micro_business_server.Proxy.TcpConnection.RoundTrip.{IsServed}
use micro_business_server.Proxy.TcpConnection.{
  Endpoint, TcpConnection, Tables, Platform, done, do_client2server, do_server2client,
}
use micro_business_server.Trip.Answer.{new_response, on_request-Names, append_to_buffer-Names}

digit-plain : (x : ℕ) → is_digit x ≡ true → is_blank x ≡ false
digit-plain x d = ground arith

abbrev pub client_key : Bytes
client_key = codes "Client"

module _ (platform : Platform) (f : FrontEnd) (http : IsHttp f)
    (dotted : IsDotted platform.inet_ntoa) where
  address-IsHeader : (e : Endpoint) → IsHeader (client_key, address platform e)
  unfolding find_first
  address-IsHeader e =
      let lacks = ip_port-Lacks platform.inet_ntoa dotted in
      record {
        key_no_colon = find_first-misses (λ x. x == b':') client_key refl;
        key_no_newline = find_first-misses (λ x. x == b'\n') client_key refl;
        key_no_return = find_first-misses (λ x. x == b'\r') client_key refl;
        value_no_newline = lacks b'\n' e.peer_addr refl refl refl;
        value_no_return = lacks b'\r' e.peer_addr refl refl refl;
        trimmed = trim_value-plain (address platform e) (
            ip_port-All platform.inet_ntoa dotted (λ x. is_blank x ≡ false) e.peer_addr digit-plain
              refl refl);
      }

  -- The name that the business server finds in a message of the proxy.
  client_read :
      (e : Endpoint) (raw body : Bytes) (headers : List (Bytes × Bytes))
      → IsLine raw
      → All IsHeader headers
      → get_header
          (f.parse_request
            (raw ++ b'\n' ∷ client_line (address platform e) (header_lines headers body)))
          client_key
        ≡ last_header client_key headers (address platform e)
  client_read e raw body headers line all =
      http.reads raw ((client_key, address platform e) ∷ headers) body client_key line
        (address-IsHeader e, all)

  -- What the proxy passes on for a client's request.
  abbrev pub message : Endpoint → Bytes → List (Bytes × Bytes) → Bytes → Bytes
  message e raw headers body =
      raw ++ b'\n' ∷ client_line (address platform e) (header_lines headers body)

  module _ {S : Type 0} (mysql : Mysql S) (library : Library) where
    -- A client's request with these headers reaches a business server, is handled, and the reply
    -- comes back to the proxy.
    pub record IsHandled (c s : TcpConnection) (t : Tables) (i j : Incoming) (raw body : Bytes)
        (headers : List (Bytes × Bytes)) (e : Endpoint) (reply : Bytes) : Type 0 where
      pub served : IsServed t c i raw (header_lines headers body) e
      pub line : IsLine raw
      pub well_formed : All IsHeader headers
      -- The server's connection has nothing left over, and the reply comes in whole.
      pub empty : s.read_buf ≡ []
      pub open_still : stays_open j ≡ true
      pub whole : received j ≡ reply
      -- The handlers return a response, not the untouched one.
      pub asks : ¬ AsksNothing (f.parse_request (message c.fixed raw headers body))
      pub before : S
      pub after : S
      pub response : HttpResponse
      pub handled :
          on_request mysql library
            (f.parse_request (message c.fixed raw headers body))
            new_response
            before
          ≡ (after, returned response)
      pub written : f.append_to_buffer response ≡ reply

    module _ (c s : TcpConnection) (t : Tables) (i j : Incoming) (raw body : Bytes)
        (headers : List (Bytes × Bytes)) (e : Endpoint) (reply : Bytes)
        (h : IsHandled c s t i j raw body headers e reply) where
      -- The proxy's half of it.
      pub request_passes :
          do_client2server platform c t i
          ≡ done
              (record c { read_buf = []; path = h.served.path; business_code = h.served.code })
              t
              ((e.sock_fd, message c.fixed raw headers body) ∷ [])
      request_passes =
          let r = h.served in
          do_client2server-forwards platform c t i raw (header_lines headers body) r.path r.code
            r.fd r.fds e r.open_still r.message r.first_line r.request r.servers r.connected

      -- The server's half: the reply names who the last header `Client` names.
      pub reply_names :
          (name : Bytes)
          → last_header client_key headers (address platform c.fixed) ≡ name
          → (head : Bytes) × (rest : Bytes) × (reply ≡ head ++ b'\n' ∷ client_line name rest)
            × (find_text (codes "Client: ") head ≡ none)
      reply_names name last =
          let read = client_read c.fixed raw body headers h.line h.well_formed ∙ last in
          let names =
            on_request-Names mysql library (f.parse_request (message c.fixed raw headers body))
              h.before h.after h.response h.asks h.handled in
          let (head, rest, form, first) =
            append_to_buffer-Names f http h.response name (rw read at names) in
          (head, rest, sym h.written ∙ form, first)

    module _ (c s : TcpConnection) (t : Tables) (i j : Incoming) (raw body : Bytes)
        (headers : List (Bytes × Bytes)) (e x : Endpoint) (reply : Bytes)
        (h : IsHandled c s t i j raw body headers e reply)
        (registered : IsRegistered platform t x) where
      -- The request goes to the server, and the reply to `x`.
      abbrev pub IsPassed : Type 0
      IsPassed =
          (do_client2server platform c t i
            ≡ done (record c { read_buf = []; path = h.served.path; business_code = h.served.code })
                t ((e.sock_fd, message c.fixed raw headers body) ∷ []))
          × (do_server2client s t j ≡ done (record s { read_buf = [] }) t ((x.sock_fd, reply) ∷ []))

      -- A request whose last header `Client` is the address of a registered client is handled, and
      -- the reply goes to that client, whoever has sent the request: the business server takes the
      -- last header of a name, and the proxy writes its own in front. The front end of the business
      -- server must read and write messages as HTTP has it.
      pub reply_diverted :
          last_header client_key headers (address platform c.fixed) ≡ address platform x → IsPassed
      reply_diverted last =
          let (head, rest, text, first) =
            reply_names c s t i j raw body headers e reply h (address platform x) last in
          let buffer : s.read_buf ++ received j
              ≡ head ++ b'\n' ∷ client_line (address platform x) rest =
            rw (h.empty, h.whole) text in
          (
            request_passes c s t i j raw body headers e reply h,
            rw text (
                do_server2client-delivers platform s t j x head rest h.open_still buffer first
                  registered),
          )

    -- No header of the request is the proxy's.
    abbrev pub NamesNobody : List (Bytes × Bytes) → Type 0
    NamesNobody headers = All (λ header. text_eq header.0 client_key ≡ false) headers

    last_header-NamesNobody :
        (headers : List (Bytes × Bytes)) (before : Bytes)
        → NamesNobody headers
        → last_header client_key headers before ≡ before
    last_header-NamesNobody [] before h = refl
    last_header-NamesNobody (header ∷ headers) before h =
        rw (h.0) (last_header-NamesNobody headers before h.1)

    -- A registered client's request that has no header `Client` of its own goes to a business
    -- server, is handled there, and the reply comes back to that client unchanged, whatever the
    -- handlers find in the database. The front end of the business server must read and write
    -- messages as HTTP has it.
    pub reply_returns :
        (c s : TcpConnection) (t : Tables) (i j : Incoming) (raw body : Bytes)
        (headers : List (Bytes × Bytes)) (e : Endpoint) (reply : Bytes)
        (h : IsHandled c s t i j raw body headers e reply)
        (registered : IsRegistered platform t c.fixed)
        → NamesNobody headers
        → IsPassed c s t i j raw body headers e c.fixed reply h registered
    reply_returns c s t i j raw body headers e reply h registered nobody =
        reply_diverted c s t i j raw body headers e c.fixed reply h registered
          (last_header-NamesNobody headers (address platform c.fixed) nobody)
