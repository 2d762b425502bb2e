-- ===== src/Proxy/EventLoop/Backlog.antt =====
-- `waitEpollfd` and the clients that wait in the queue of the listening socket. The kernel reports
-- a descriptor that was added with EPOLLET once for all that has come to it since the last report.
use micro_business_server.Base.{
  ℕ, ◌/◌, ◌%◌, Bool, true, false, not, ◌||◌, List, [], ◌∷◌, ◌++◌, ◌≡◌, refl, ◌==◌, if◌then◌else◌,
  drop,
}
use micro_business_server.Base.Int.{ℤ, int_eq, int_eq_iff}
use micro_business_server.Proxy.Config.{Parser}
use micro_business_server.Proxy.EventLoop.{
  EventLoop, Event, Accepted, is_accept, handle_event, new_event_loop,
}
use micro_business_server.Proxy.SystemCalls.{
  Calls, Kernel, SystemCall, call_epoll_add, call_getfl, call_setfl, set_nonblock, read_events,
  epollet, add_epoll_read_fd,
}
use micro_business_server.Proxy.TcpConnection.{Platform}

-- The events that a descriptor was last added with.
abbrev pub watched_behind : ℤ → SystemCall → ℕ → ℕ
watched_behind fd (call_epoll_add efd other new) events = if int_eq fd other then new else events
watched_behind fd _ events = events

abbrev pub watched_for : ℤ → Calls → ℕ → ℕ
watched_for fd [] events = events
watched_for fd (c ∷ calls) events = watched_for fd calls (watched_behind fd c events)

pub watched_for-append :
    (fd : ℤ) (front back : Calls) (events : ℕ)
    → watched_for fd (front ++ back) events ≡ watched_for fd back (watched_for fd front events)
watched_for-append fd [] back events = refl
watched_for-append fd (c ∷ front) back events = watched_for-append fd front back _

pub add_epoll_read_fd-watches :
    (kernel : Kernel) (efd fd : ℤ) (calls : Calls) (events : ℕ)
    → watched_for fd (add_epoll_read_fd kernel efd fd calls) events ≡ read_events
unfolding add_epoll_read_fd set_nonblock
add_epoll_read_fd-watches kernel efd fd calls events =
    rw
      (
        watched_for-append fd _ (call_setfl fd _ ∷ []) events,
        watched_for-append fd _ (call_getfl fd ∷ []) events,
        watched_for-append fd calls _ events,
        (int_eq_iff fd fd).1 refl,
      )
      refl

abbrev pub is_edge : ℕ → Bool
is_edge events = events / epollet % 2 == 1

-- The loop, the clients that wait to be accepted, and whether one has come since the last report.
pub record Listening : Type 0 where
  pub loop : EventLoop
  pub events : ℕ
  pub backlog : List Accepted
  pub news : Bool

-- One `accept` takes one client.
abbrev pub backlog_after : EventLoop → Event → List Accepted → List Accepted
backlog_after l e backlog = if is_accept l e then drop 1 backlog else backlog

-- The kernel may report a descriptor: under EPOLLET, where something new has come.
abbrev pub is_reported : Listening → Event → Bool
is_reported s e = not (int_eq e.fd s.loop.acceptor_fd) || (not (is_edge s.events) || s.news)

abbrev pub at_report : Platform → Event → Listening → Listening
at_report platform e s = record {
  loop = handle_event platform s.loop e;
  events = s.events;
  backlog = backlog_after s.loop e s.backlog;
  news = if int_eq e.fd s.loop.acceptor_fd then false else s.news;
}

-- What `accept` returns is the client that has waited longest, or an error where there is none.
abbrev pub IsFirst : Accepted → List Accepted → Type 0
IsFirst a [] = Unit
IsFirst a (b ∷ backlog) = a ≡ b

pub data ListeningStep (platform : Platform) (s t : Listening) : Type 0 where
  -- A client comes.
  arrive :
      (a : Accepted)
      → t ≡ record s { backlog = s.backlog ++ a ∷ []; news = true }
      → ListeningStep platform s t
  -- A round of the loop over the events.
  report :
      (e : Event)
      → is_reported s e ≡ true
      → (is_accept s.loop e ≡ true → IsFirst e.accepted s.backlog)
      → t ≡ at_report platform e s
      → ListeningStep platform s t
  -- The loop connects to the servers, and workers change the tables and take connections.
  elsewhere :
      (l : EventLoop)
      → l.acceptor_fd ≡ s.loop.acceptor_fd
      → t ≡ record s { loop = l }
      → ListeningStep platform s t

pub data ListeningSteps (platform : Platform) (s : Listening) : Listening → Type 0 where
  stay : ListeningSteps platform s s
  next :
      {t u : Listening}
      → ListeningSteps platform s t
      → ListeningStep platform t u
      → ListeningSteps platform s u

-- The acceptor as the constructor of the loop adds it, with no client yet.
abbrev pub listening : Kernel → ℤ → ℤ → Parser → Calls → Listening
listening kernel efd acceptor_fd config calls = record {
  loop = new_event_loop acceptor_fd config;
  events = watched_for acceptor_fd (add_epoll_read_fd kernel efd acceptor_fd calls) 0;
  backlog = [];
  news = false;
}

-- One, where a report is due.
abbrev pub due : Listening → ℕ
due s = if s.news then 1 else 0
