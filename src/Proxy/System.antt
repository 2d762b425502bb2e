-- ===== src/Proxy/System.antt =====
-- The proxy as it runs: the event loop of EventLoop.cc and the workers of Threadpool.cc around the
-- tables that they share. The thread of the loop deals with one event at a time; a worker takes a
-- connection from the queue and later runs `process` on it. The steps come in any order, but each one
-- ends before the next begins: these are the serial runs. The code takes no lock around the tables,
-- so its calls can also overlap; Race has single calls on the tables, in any order.
pub mod Pending
pub mod Events
pub mod Running
pub mod Draining
pub mod Repeated
pub mod Shrinking
pub mod Abandoned
pub mod Race
use micro_business_server.Base.{
  ℕ, ◌*◌, Bool, true, false, List, [], ◌∷◌, ◌++◌, none, some, ◌≡◌, ◌⊎◌, if◌then◌else◌, All,
}
use micro_business_server.Base.Int.{ℤ, int_eq}
use micro_business_server.Base.Map.{find, int_key}
use micro_business_server.Base.Text.{Bytes}
use micro_business_server.Proxy.EventLoop.{
  EventLoop, Event, Accepted, is_accept, handle_event, with_tables, minus_one,
}
use micro_business_server.Proxy.EventLoop.Clients.{HasPeer}
use micro_business_server.Proxy.SocketIo.{Incoming}
use micro_business_server.Proxy.TcpConnection.{
  Endpoint, TcpConnection, Platform, Outcome, Sent, process,
}

-- The members of a `TcpConnection` that change.
pub record Memory : Type 0 where
  pub read_buf : Bytes
  pub path : Bytes
  pub business_code : Bytes

-- Connections that are alive have different descriptors, so the memory of each is found by its
-- descriptor. `in_hand` are the connections that workers have taken and not yet processed.
pub record System : Type 0 where
  pub loop : EventLoop
  pub in_hand : List Endpoint
  pub memory : ℤ → Memory
  pub sent : Sent

abbrev pub connection : System → Endpoint → TcpConnection
connection s e = record {
  fixed = e;
  read_buf = (s.memory e.sock_fd).read_buf;
  path = (s.memory e.sock_fd).path;
  business_code = (s.memory e.sock_fd).business_code;
}

abbrev pub put_memory : ℤ → Memory → (ℤ → Memory) → ℤ → Memory
put_memory fd m memory j = if int_eq fd j then m else memory j

abbrev pub no_memory : Memory
no_memory = record { read_buf = []; path = []; business_code = [] }

abbrev pub memory_of : TcpConnection → Memory
memory_of c = record { read_buf = c.read_buf; path = c.path; business_code = c.business_code }

-- A descriptor that no connection holds any more. The kernel gives no other: a connection closes its descriptor when the last pointer to it has gone, which is in a table, in the queue or
-- with a worker.
pub record IsClosed (s : System) (fd : ℤ) : Type 0 where
  pub no_client : find fd s.loop.tables.client_conns ≡ none
  pub no_server : find fd s.loop.tables.server_conns ≡ none
  pub not_waiting : All (λ e. int_eq fd e.sock_fd ≡ false) s.loop.requests
  pub not_in_hand : All (λ e. int_eq fd e.sock_fd ≡ false) s.in_hand

-- A new connection starts with an empty memory. Where the table has one under the descriptor, which
-- is then -1, that one stays and the new one is dropped.
abbrev pub memory_after : Accepted → System → ℤ → Memory
memory_after a s = elim (find a.fd s.loop.tables.client_conns) [
  | none ↦ put_memory a.fd no_memory s.memory
  | some e ↦ s.memory
]

-- One event of `waitEpollfd`.
abbrev pub at_event : Platform → Event → System → System
at_event platform e s = record s {
  loop = handle_event platform s.loop e;
  memory = if is_accept s.loop e then memory_after e.accepted s else s.memory;
}

-- What a call of `process` leaves behind.
abbrev pub at_outcome : Outcome → List Endpoint → System → System
at_outcome o in_hand s = record {
  loop = with_tables s.loop o.tables;
  in_hand = in_hand;
  memory = put_memory o.conn.sock_fd (memory_of o.conn) s.memory;
  sent = s.sent ++ o.sent;
}

-- A step of a serial run. `accept` fails, with -1, or gives a descriptor that nothing holds.
pub data SerialStep (platform : Platform) (s t : System) : Type 0 where
  -- The list of events is made longer.
  grow :
      t ≡ record s { loop = record s.loop { evt_list_size = 2 * s.loop.evt_list_size } }
      → SerialStep platform s t
  event :
      (e : Event)
      → (is_accept s.loop e ≡ true → (e.accepted.fd ≡ minus_one) ⊎ IsClosed s e.accepted.fd)
      → t ≡ at_event platform e s
      → SerialStep platform s t
  take_on :
      (e : Endpoint) (rest : List Endpoint)
      → s.loop.requests ≡ e ∷ rest
      → t ≡ record s { loop = record s.loop { requests = rest }; in_hand = e ∷ s.in_hand }
      → SerialStep platform s t
  work :
      (e : Endpoint) (front back : List Endpoint) (i : Incoming) (o : Outcome)
      → s.in_hand ≡ front ++ e ∷ back
      → process platform (connection s e) s.loop.tables i ≡ some o
      → t ≡ at_outcome o (front ++ back) s
      → SerialStep platform s t

pub data SerialSteps (platform : Platform) (s : System) : System → Type 0 where
  stay : SerialSteps platform s s
  next :
      {t u : System} → SerialSteps platform s t → SerialStep platform t u → SerialSteps platform s u

-- `accept` has given a descriptor that nothing holds, and both calls of `getpeername` the same
-- address.
pub record IsTaken (s : System) (a : Accepted) : Type 0 where
  pub closed : IsClosed s a.fd
  pub peer : HasPeer a

-- Every client that comes in the run is taken.
abbrev pub StepTakes : {platform : Platform} {s t : System} → SerialStep platform s t → Type 0
StepTakes {s = s} (event e given is) = is_accept s.loop e ≡ true → IsTaken s e.accepted
StepTakes _ = Unit

abbrev pub AllTaken : {platform : Platform} {s t : System} → SerialSteps platform s t → Type 0
AllTaken stay = Unit
AllTaken (next steps step) = AllTaken steps × StepTakes step

-- When `connectToBusinessServer` has returned.
abbrev pub at_start : EventLoop → System
at_start l = record { loop = l; in_hand = []; memory = λ fd. no_memory; sent = [] }
