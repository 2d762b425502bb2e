-- ===== src/Proxy/System/Race.antt =====
-- A worker that delivers a reply and a worker whose client has gone, by the single calls on the
-- tables, which no lock protects: the end of `do_server2client` and the start of `do_client2server`.
pub mod Misdirected
use micro_business_server.Base.{[], ◌∷◌, Option, none, some, ◌≡◌}
use micro_business_server.Base.Int.{ℤ, pos, int_eq}
use micro_business_server.Base.Map.{find, assign, erase, text_key, int_key}
use micro_business_server.Base.Text.{Bytes}
use micro_business_server.Proxy.EventLoop.{EventLoop, Accepted, handle_new_connection, with_tables}
use micro_business_server.Proxy.InetAddress.{ip_port}
use micro_business_server.Proxy.TcpConnection.{
  Endpoint, TcpConnection, Tables, Platform, Outcome, done,
}

-- In front of the test of `_clientTable`; behind it; with the descriptor; and how it ends.
-- `crashed`: a null pointer is dereferenced.
pub data Replying : Type 0 where
  looking reading dropped crashed : Replying
  writing written : ℤ → Replying

-- In front of the two erasures, between them, and behind them.
pub data Leaving : Type 0 where
  staying unlisted left : Leaving

-- One call; `_clientTable[client]` puts a 0 at a name that is not there.
unfoldable pub reply_step : Bytes → Replying × Tables → Replying × Tables
reply_step name (looking, t) = elim (find name t.client_table) [
  | none ↦ (dropped, t)
  | some fd ↦ (reading, t)
]
reply_step name (reading, t) = elim (find name t.client_table) [
  | none ↦ (writing (pos 0), record t { client_table = assign name (pos 0) t.client_table })
  | some fd ↦ (writing fd, t)
]
reply_step name (writing fd, t) = elim (find fd t.client_conns) [
  | none ↦ (crashed, t)
  | some e ↦ (written e.sock_fd, t)
]
reply_step name (dropped, t) = (dropped, t)
reply_step name (crashed, t) = (crashed, t)
reply_step name (written fd, t) = (written fd, t)

unfoldable pub leave_step : Platform → Endpoint → Leaving × Tables → Leaving × Tables
leave_step platform e (staying, t) =
    (unlisted, record t { client_conns = erase e.sock_fd t.client_conns })
leave_step platform e (unlisted, t) = (
  left,
  record t { client_table = erase (ip_port platform.inet_ntoa e.peer_addr) t.client_table },
)
leave_step platform e (left, t) = (left, t)

pub record Racing : Type 0 where
  pub loop : EventLoop
  pub reply : Replying
  pub client : Leaving

-- The reply is for `name`, and `e` is the client that leaves.
pub data RaceStep (platform : Platform) (name : Bytes) (e : Endpoint) (s t : Racing) : Type 0 where
  replies :
      (r : Replying) (u : Tables)
      → reply_step name (s.reply, s.loop.tables) ≡ (r, u)
      → t ≡ record s { reply = r; loop = with_tables s.loop u }
      → RaceStep platform name e s t
  leaves :
      (k : Leaving) (u : Tables)
      → leave_step platform e (s.client, s.loop.tables) ≡ (k, u)
      → t ≡ record s { client = k; loop = with_tables s.loop u }
      → RaceStep platform name e s t
  -- A new client, with a descriptor that is free: that of `e` is, once its worker has let go of it.
  accepts :
      (a : Accepted)
      → find a.fd s.loop.tables.client_conns ≡ none
      → s.client ≡ left
      → t ≡ record s { loop = handle_new_connection platform a s.loop }
      → RaceStep platform name e s t

pub data RaceSteps (platform : Platform) (name : Bytes) (e : Endpoint) (s : Racing)
    : Racing → Type 0 where
  stay : RaceSteps platform name e s s
  next :
      {t u : Racing}
      → RaceSteps platform name e s t
      → RaceStep platform name e t u
      → RaceSteps platform name e s u
