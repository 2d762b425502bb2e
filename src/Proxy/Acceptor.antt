-- ===== src/Proxy/Acceptor.antt =====
-- proxy_server/tcp/Acceptor.cc and proxy_server/tcp/Socket.cc: the listening socket.
use micro_business_server.Base.{ℕ}
use micro_business_server.Base.Int.{ℤ}
use micro_business_server.Base.Text.{Bytes, codes}
use micro_business_server.Proxy.InetAddress.{InetAddress, new_address}
use micro_business_server.Proxy.SystemCalls.{
  Calls, Kernel, then_call, call_socket, call_setsockopt, call_bind, call_listen, call_accept,
  call_close, call_shutdown_write, so_reuseaddr, so_reuseport,
}

-- The descriptor of `_listensock`, and `_serverAddr`.
pub record Acceptor : Type 0 where
  pub listensock : ℤ
  pub server_addr : InetAddress

abbrev set_reuse_addr : Acceptor → Calls → Calls
set_reuse_addr a = then_call (call_setsockopt a.listensock so_reuseaddr)

abbrev set_reuse_port : Acceptor → Calls → Calls
set_reuse_port a = then_call (call_setsockopt a.listensock so_reuseport)

abbrev bind : Acceptor → Calls → Calls
bind a = then_call (call_bind a.listensock a.server_addr)

abbrev listen : Acceptor → Calls → Calls
listen a = then_call (call_listen a.listensock 128)

-- `ready`: no step looks at the answer of the one before it.
unfoldable pub ready : Acceptor → Calls → Calls
ready a calls = listen a (bind a (set_reuse_port a (set_reuse_addr a calls)))

module _ (kernel : Kernel) where
  -- `Socket::Socket`.
  unfoldable pub new_socket : Calls → ℤ × Calls
  new_socket calls = (kernel calls call_socket, then_call call_socket calls)

  -- The constructor; `inet_addr` is the C library's.
  unfoldable pub new_acceptor : (Bytes → ℕ) → ℕ → Calls → Acceptor × Calls
  new_acceptor inet_addr port calls =
      let (fd, after) = new_socket calls in
      (
        record { listensock = fd; server_addr = new_address inet_addr (codes "0.0.0.0") port },
        after,
      )

  -- `accept` returns what the kernel answers, an error too.
  unfoldable pub accept : Acceptor → Calls → ℤ × Calls
  accept a calls =
      (kernel calls (call_accept a.listensock), then_call (call_accept a.listensock) calls)

-- `Socket::shutdownWrite` and `~Socket`.
abbrev pub shutdown_write : ℤ → Calls → Calls
shutdown_write fd = then_call (call_shutdown_write fd)

abbrev pub close_socket : ℤ → Calls → Calls
close_socket fd = then_call (call_close fd)
