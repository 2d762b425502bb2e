-- ===== src/Tests/Races.antt =====
-- A reply to a client that leaves while it is delivered.
use micro_business_server.Base.{some, ◌≡◌, refl}
use micro_business_server.Base.Int.{pos}
use micro_business_server.Base.Map.{find, int_key, text_key}
use micro_business_server.Proxy.EventLoop.{Accepted, client_end}
use micro_business_server.Proxy.InetAddress.{
  ip_port, ip, port, swap_bytes, to_string, to_string_loop,
}
use micro_business_server.Proxy.System.Race.{Racing, RaceSteps, crashed, written}
use micro_business_server.Proxy.System.Race.Misdirected.{both, reply_crashes, reply_misdirected}
use micro_business_server.Proxy.TcpConnection.Reply.{address}
use micro_business_server.Tests.Inputs.{platform, customer}
use micro_business_server.Tests.Repeats.{loop}

reply_crashes_example :
    (u : Racing) × RaceSteps platform
      (address platform customer)
      customer
      (both platform customer loop)
      u
    × (u.reply ≡ crashed)
unfolding ip_port ip port swap_bytes to_string to_string_loop find
reply_crashes_example = reply_crashes platform customer loop refl

-- At 10.0.0.1 too, on another port.
abbrev successor : Accepted
successor = record {
  fd = pos 9;
  local_addr = customer.local_addr;
  peer_addr = record { sin_addr = 7; sin_port = 24863 };
  table_addr = record { sin_addr = 7; sin_port = 24863 };
}

reply_misdirected_example :
    (u : Racing) × RaceSteps platform
      (address platform customer)
      customer
      (both platform customer loop)
      u
    × (u.reply ≡ written (pos 9))
    × (find (pos 9) u.loop.tables.client_conns ≡ some (client_end successor))
unfolding ip_port ip port swap_bytes to_string to_string_loop find
reply_misdirected_example = reply_misdirected platform customer loop successor refl refl
