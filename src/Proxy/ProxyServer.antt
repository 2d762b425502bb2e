-- ===== src/Proxy/ProxyServer.antt =====
-- proxy_server/ProxyServer.hpp and proxy_server/TestProxyServer.cc: the parts put together.
pub mod Starting
use micro_business_server.Base.{
  ℕ, zero, suc, ◌+◌, ◌-◌, ◌^◌, ◌%◌, Bool, List, [], Option, ltb, if◌then◌else◌,
}
use micro_business_server.Base.Except.{Result, ok, throw, length_error, ◌>>=◌}
use micro_business_server.Base.Int.{ℤ, to_unsigned}
use micro_business_server.Base.Text.{Bytes}
use micro_business_server.Proxy.Acceptor.{Acceptor, new_acceptor, ready}
use micro_business_server.Proxy.Config.{Parser, parse, new_parser}
use micro_business_server.Proxy.EventLoop.{EventLoop, Network, new_event_loop}
use micro_business_server.Proxy.EventLoop.Looping.{start_loop, unloop}
use micro_business_server.Proxy.SystemCalls.{Calls, Kernel, create_epollfd, add_epoll_read_fd}
use micro_business_server.Proxy.TcpConnection.{Endpoint}
use micro_business_server.Proxy.Threadpool.{Threadpool, started}

-- The two members, the epoll descriptor of the second, and the calls made on the two descriptors.
pub record ProxyServer : Type 0 where
  pub acceptor : Acceptor
  pub efd : ℤ
  pub loop : EventLoop
  pub calls : Calls

-- A server that runs, with its workers.
pub record Started : Type 0 where
  pub proxy : ProxyServer
  pub pool : Threadpool Endpoint

-- The acceptor listens before the loop connects.
abbrev pub readied : ProxyServer → ProxyServer
readied p = record p { calls = ready p.acceptor p.calls }

-- The loop has connected, and the workers have been started; `created` says which threads come to
-- be.
abbrev pub running : (ℕ → Bool) → ProxyServer → EventLoop → Started
running created p l = record {
  proxy = record p { loop = l };
  pool =
      started (to_unsigned 64 p.loop.config.thread_num) (to_unsigned 64 p.loop.config.que_size)
        created;
}

-- `start` up to the first round of the loop.
unfoldable pub start : Network → (ℕ → Bool) → ProxyServer → Result Started
start network created p =
    start_loop network (readied p).loop >>= λ l. ok (running created (readied p) l)

-- `_threads.reserve(_threadNum)`: the size that the vector then has room for. A vector of pointers has
-- at most 2^60 - 1 elements.
unfoldable pub reserve_threads : ℕ → Result ℕ
reserve_threads thread_num =
    if ltb (2 ^ 60 - 1) thread_num then throw length_error else ok thread_num

module _ (kernel : Kernel) (inet_addr : Bytes → ℕ) where
  -- The constructor: the acceptor, and the loop with its epoll descriptor that watches the acceptor.
  -- The thread pool of the loop reserves room for its threads, which throws for too many.
  unfoldable pub new_proxy_server : Parser → Calls → Result ProxyServer
  new_proxy_server config calls =
      let (acceptor, made) =
        new_acceptor kernel inet_addr (to_unsigned 16 config.server.listen) calls in
      let (efd, created) = create_epollfd kernel made in
      reserve_threads (to_unsigned 64 config.thread_num) >>= λ room. ok (record {
        acceptor = acceptor;
        efd = efd;
        loop = new_event_loop acceptor.listensock config;
        calls = add_epoll_read_fd kernel efd acceptor.listensock created;
      })

  -- `test0`, which is all that `main` does; three numbers are whatever the memory held.
  unfoldable pub test0 : Network → (ℕ → Bool) → ℤ → ℤ → ℤ → Option Bytes → Result Started
  test0 network created listen thread_num que_size content =
      parse (new_parser listen thread_num que_size) content >>= λ config.
      new_proxy_server config [] >>= λ p. start network created p

-- `stop`.
abbrev pub stop : ProxyServer → ProxyServer
stop p = record p { loop = unloop p.loop }
