-- ===== src/Tests/Jams.antt =====
-- A client that has its reply sent to nobody.
use micro_business_server.Base.{[], ◌∷◌, ◌++◌, refl, some, ◌≡◌, ◌==◌, inl, inr}
use micro_business_server.Base.Int.{pos}
use micro_business_server.Base.Map.{find, assign, text_key, int_key}
use micro_business_server.Base.Search.{find_first-misses}
use micro_business_server.Base.Text.{codes, find_first, find_last}
use micro_business_server.Business.FrontEnd.{header_lines}
use micro_business_server.Business.Request.{get_header, get_query}
use micro_business_server.Business.Server.{do_show, show_result, sucess_handle, on_request}
use micro_business_server.Proxy.InetAddress.{
  ip_port, ip, port, swap_bytes, to_string, to_string_loop,
}
use micro_business_server.Proxy.SocketIo.{again, chunk, c_string}
use micro_business_server.Proxy.TcpConnection.{contains, next_pos, forward_loop, find_forward_path}
use micro_business_server.Tests.HttpFrontEnd.{http, http-IsHttp, scan}
use micro_business_server.Tests.Inputs.{customer, shop, fresh, tables, show_path, show-IsRequest}
use micro_business_server.Tests.Shop.{mysql, library}
use micro_business_server.Tests.Texts.{inet_ntoa-IsDotted}
use micro_business_server.Trip.Return.{IsHandled}
use micro_business_server.Proxy.TcpConnection.{done, do_client2server}
use micro_business_server.Proxy.TcpConnection.Stuck.{server_rounds}
use micro_business_server.Trip.Jam.{reply_jams}
use micro_business_server.Trip.Return.{message}
use micro_business_server.Tests.Trips.{
  platform, line, line-IsLine, host, host-IsHeader, forged, forged-IsHeader, reply_for, shown,
}

-- A request with the address of nobody in a header of its own.
jamming :
    IsHandled platform http http-IsHttp inet_ntoa-IsDotted mysql library
      (fresh customer)
      (fresh shop)
      tables
      (chunk (line ++ b'\n' ∷ header_lines (host ∷ forged ∷ []) []) again)
      (chunk (reply_for (codes "8.0.0.0:7777")) again)
      line
      []
      (host ∷ forged ∷ [])
      shop
      (reply_for (codes "8.0.0.0:7777"))
unfolding ip_port ip port swap_bytes to_string to_string_loop find find_first find_last c_string
    scan get_header get_query on_request do_show show_result sucess_handle assign contains next_pos
    forward_loop find_forward_path
jamming = record {
  served = record {
    open_still = refl;
    message = refl;
    first_line = find_first-misses (λ c. c == b'\n') line refl;
    path = show_path;
    code = codes "/10001/";
    request = show-IsRequest;
    fd = pos 5;
    fds = [];
    servers = refl;
    connected = refl;
  };
  line = line-IsLine;
  well_formed = (host-IsHeader, (forged-IsHeader, tt));
  empty = refl;
  open_still = refl;
  whole = refl;
  asks = λ h. elim h [ inl e ↦ cc | inr e ↦ cc ];
  before = 0;
  after = 1;
  response = shown (codes "8.0.0.0:7777");
  handled = refl;
  written = refl;
}

-- A good reply comes in behind it.
reply_jams_example :
    (do_client2server platform
        (fresh customer)
        tables
        (chunk (line ++ b'\n' ∷ header_lines (host ∷ forged ∷ []) []) again)
      ≡ done
          (record (fresh customer) {
            read_buf = [];
            path = jamming.served.path;
            business_code = jamming.served.code;
          })
          tables
          ((
            shop.sock_fd,
            message platform http http-IsHttp inet_ntoa-IsDotted customer line
                (host ∷ forged ∷ [])
                [],
          )
            ∷ []))
    × (server_rounds (fresh shop) (
          (tables, chunk (reply_for (codes "8.0.0.0:7777")) again)
          ∷ (tables, chunk (reply_for (codes "7.0.0.0:7777")) again)
          ∷ [])
        ≡ some [])
unfolding find find_first
reply_jams_example =
    reply_jams platform http http-IsHttp inet_ntoa-IsDotted mysql library (fresh customer)
      (fresh shop) tables (chunk (line ++ b'\n' ∷ header_lines (host ∷ forged ∷ []) []) again)
      (chunk (reply_for (codes "8.0.0.0:7777")) again) line [] (host ∷ forged ∷ []) shop
      (reply_for (codes "8.0.0.0:7777")) (codes "8.0.0.0:7777")
      ((tables, chunk (reply_for (codes "7.0.0.0:7777")) again) ∷ []) jamming refl
      (find_first-misses (λ c. c == b'\n') (codes "8.0.0.0:7777") refl) (λ e. cc) (refl, (refl, tt))
