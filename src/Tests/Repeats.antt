-- ===== src/Tests/Repeats.antt =====
-- A client's request that the kernel reports twice.
use micro_business_server.Base.{[], ◌∷◌, ◌++◌, ◌≡◌, refl}
use micro_business_server.Base.Int.{pos}
use micro_business_server.Base.Map.{find}
use micro_business_server.Base.Text.{codes}
use micro_business_server.Proxy.Config.{new_parser}
use micro_business_server.Proxy.EventLoop.{EventLoop, new_event_loop, handle_message}
use micro_business_server.Proxy.SocketIo.{again, chunk}
use micro_business_server.Proxy.System.Repeated.{handle_message-repeats}
use micro_business_server.Proxy.TcpConnection.RoundTrip.{forwarded}
use micro_business_server.Proxy.TcpConnection.{do_client2server, done, not_found}
use micro_business_server.Tests.Inputs.{
  platform, customer, shop, fresh, tables, request, parsed_customer, request-IsServed,
}

abbrev pub loop : EventLoop
loop = record (new_event_loop (pos 3) (new_parser (pos 8888) (pos 4) (pos 10))) { tables = tables }

handle_message-repeats_example :
    ((handle_message (pos 9) (handle_message (pos 9) loop)).requests
      ≡ [] ++ (customer ∷ customer ∷ []))
    × (do_client2server platform (fresh customer) tables (chunk request again)
        ≡ done parsed_customer tables (
            (
              pos 5,
              forwarded platform
                  (fresh customer)
                  (codes "GET /10001/show/ HTTP/1.1\r")
                  (codes "Host: a\r\n\r\n"),
            )
            ∷ []))
    × (do_client2server platform parsed_customer tables again
        ≡ done parsed_customer tables ((pos 9, not_found platform) ∷ []))
unfolding find request-IsServed
handle_message-repeats_example =
    handle_message-repeats platform loop (fresh customer) (chunk request again)
      (codes "GET /10001/show/ HTTP/1.1\r") (codes "Host: a\r\n\r\n") shop refl request-IsServed
