-- ===== src/Proxy/System/Draining.antt =====
-- What is waiting and what is in hand can be finished.
use micro_business_server.Base.{List, [], ◌≡◌}
use micro_business_server.Proxy.EventLoop.{EventLoop}
use micro_business_server.Proxy.SocketIo.{Incoming}
use micro_business_server.Proxy.System.Pending.{Sound}
use micro_business_server.Proxy.System.{System, SerialSteps}
use micro_business_server.Proxy.TcpConnection.{Endpoint, Platform}

module _ (platform : Platform) (answers : System → Endpoint → Incoming) (s : System) where
  -- A state with so many requests left and empty hands, behind a run from `s`.
  record Emptied (requests : List Endpoint) : Type 0 where
    state : System
    steps : SerialSteps platform s state
    sound : Sound platform state
    waiting : state.loop.requests ≡ requests
    hands : state.in_hand ≡ []
