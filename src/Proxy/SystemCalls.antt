-- ===== src/Proxy/SystemCalls.antt =====
-- The system calls of proxy_server/tcp/Socket.cc, tcp/Acceptor.cc and event_loop/EventLoop.cc on
-- the listening socket and the epoll descriptor. The kernel's answers are a parameter.
use micro_business_server.Base.{
  ℕ, ◌+◌, ◌-◌, ◌/◌, ◌%◌, ◌^◌, List, [], ◌∷◌, ◌++◌, ◌==◌, if◌then◌else◌,
}
use micro_business_server.Base.Int.{ℤ, pos, negsuc}
use micro_business_server.Proxy.InetAddress.{InetAddress}

pub data SockOption : Type 0 where
  so_reuseaddr so_reuseport : SockOption

-- The descriptors come first, as in the C calls.
pub data SystemCall : Type 0 where
  call_socket call_epoll_create1 : SystemCall
  call_setsockopt : ℤ → SockOption → SystemCall
  call_bind : ℤ → InetAddress → SystemCall
  call_listen : ℤ → ℕ → SystemCall
  call_accept call_close call_shutdown_write call_getfl : ℤ → SystemCall
  call_setfl : ℤ → ℤ → SystemCall
  -- The epoll descriptor, the watched one, and the events.
  call_epoll_add : ℤ → ℤ → ℕ → SystemCall
  call_epoll_del : ℤ → ℤ → SystemCall

-- The calls made so far, in order.
abbrev pub Calls : Type 0
Calls = List SystemCall

-- What the kernel answers to a call behind the calls so far.
abbrev pub Kernel : Type 0
Kernel = Calls → SystemCall → ℤ

abbrev pub then_call : SystemCall → Calls → Calls
then_call c calls = calls ++ c ∷ []

-- A bit set in an `int`: -(n + 1) has the bits that n has not.
abbrev pub or_bit : ℕ → ℤ → ℤ
or_bit bit (pos n) = if n / bit % 2 == 1 then pos n else pos (n + bit)
or_bit bit (negsuc n) = if n / bit % 2 == 1 then negsuc (n - bit) else negsuc n

-- EPOLLIN, EPOLLET and O_NONBLOCK of Linux.
abbrev pub epollin : ℕ
epollin = 1

abbrev pub epollet : ℕ
epollet = 2 ^ 31

abbrev pub o_nonblock : ℕ
o_nonblock = 2 ^ 11

-- `EPOLLIN | EPOLLET`: different bits.
abbrev pub read_events : ℕ
read_events = epollin + epollet

module _ (kernel : Kernel) where
  -- `setnonblock`: the flags as they were, and the calls.
  unfoldable pub set_nonblock : ℤ → Calls → ℤ × Calls
  set_nonblock fd calls =
      let old_option = kernel calls (call_getfl fd) in
      (
        old_option,
        then_call (call_setfl fd (or_bit o_nonblock old_option)) (then_call (call_getfl fd) calls),
      )

  -- `addEpollReadFd` goes on behind an error.
  unfoldable pub add_epoll_read_fd : ℤ → ℤ → Calls → Calls
  add_epoll_read_fd efd fd calls =
      (set_nonblock fd (then_call (call_epoll_add efd fd read_events) calls)).1

  abbrev pub del_epoll_read_fd : ℤ → ℤ → Calls → Calls
  del_epoll_read_fd efd fd calls = then_call (call_epoll_del efd fd) calls

  -- `createEpollfd` returns what the kernel answers, an error too.
  unfoldable pub create_epollfd : Calls → ℤ × Calls
  create_epollfd calls = (kernel calls call_epoll_create1, then_call call_epoll_create1 calls)
