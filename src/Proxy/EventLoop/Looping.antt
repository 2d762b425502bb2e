-- ===== src/Proxy/EventLoop/Looping.antt =====
-- `EventLoop::loop` and `unloop`.
use micro_business_server.Base.{true, false, List, [], ◌∷◌, if◌then◌else◌}
use micro_business_server.Base.Except.{Result, ok, ◌>>=◌}
use micro_business_server.Base.Map.{int_key}
use micro_business_server.Proxy.EventLoop.{
  EventLoop, Network, Waited, connect_to_business_server, wait_epollfd,
}
use micro_business_server.Proxy.TcpConnection.{Platform}

abbrev pub unloop : EventLoop → EventLoop
unloop l = record l { is_looping = false }

-- The rounds of the loop, on what `epoll_wait` gives in each.
unfoldable pub loop_rounds : Platform → List Waited → EventLoop → EventLoop
loop_rounds platform [] l = l
loop_rounds platform (w ∷ waits) l =
    let rest = loop_rounds platform waits (wait_epollfd platform w l) in
    if l.is_looping then rest else l

-- `loop` up to its first round: the workers start where the servers have been connected.
unfoldable pub start_loop : Network → EventLoop → Result EventLoop
start_loop network l =
    connect_to_business_server network l >>= λ c. ok (record c { is_looping = true })
