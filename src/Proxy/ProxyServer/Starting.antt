-- ===== src/Proxy/ProxyServer/Starting.antt =====
-- From the configuration file to a server that runs.
use micro_business_server.Base.{
  ℕ, ◌≤◌, ◌^◌, ◌%◌, Bool, true, List, [], ◌∷◌, ◌++◌, some, ◌≡◌, refl, ◌∙◌, arith, All, length,
  append_assoc, ◌&&◌, ltb, if◌then◌else◌,
}
use micro_business_server.Base.Except.{ok, ◌>>=◌}
use micro_business_server.Base.Int.{ℤ, to_unsigned}
use micro_business_server.Base.Map.{Map, find, assign, text_key}
use micro_business_server.Base.Text.{Bytes, codes}
use micro_business_server.Proxy.Config.{Location, Upstream, Parser}
use micro_business_server.Proxy.Config.RoundTrip.{parse-print_site}
use micro_business_server.Proxy.Config.Site.{Site, IsSite, Says, print_site, located, streamed}
use micro_business_server.Proxy.EventLoop.{EventLoop, Network, new_event_loop}
use micro_business_server.Proxy.EventLoop.Backlog.{
  watched_for, watched_for-append, add_epoll_read_fd-watches,
}
use micro_business_server.Proxy.EventLoop.Connected.{
  HasPort, HasScheme, HavePorts, HavePorts-assign, connect_to_business_server-ok,
}
use micro_business_server.Proxy.EventLoop.Looping.{start_loop}
use micro_business_server.Proxy.EventLoop.Plan.{plan, connect_to_business_server-plan}
use micro_business_server.Proxy.EventLoop.ServerLists.{servers_at}
use micro_business_server.Proxy.InetAddress.{port}
use micro_business_server.Proxy.InetAddress.Address.{port-new_address}
use micro_business_server.Proxy.ProxyServer.{
  ProxyServer, Started, reserve_threads, new_proxy_server, start, test0, readied, running,
}
use micro_business_server.Proxy.SystemCalls.{
  Calls, Kernel, create_epollfd, add_epoll_read_fd, read_events, call_listen, call_bind,
  call_setsockopt, so_reuseport,
}
use micro_business_server.Proxy.Acceptor.{Acceptor, ready, new_acceptor}
use micro_business_server.Proxy.TaskQueue.{new_queue}
use micro_business_server.Proxy.Threadpool.{at_test, absent}

-- The upstreams' ports are numbers and the locations' `proxy_pass` is longer than `http:/`.
abbrev pub IsConnectable : Site → Type 0
IsConnectable s = All (λ u. All HasPort u.1) s.upstreams × All (λ l. 7 ≤ length l.1) s.locations

streamed-HavePorts :
    (us : List (Bytes × List (Bytes × Bytes))) (m : Map Bytes Upstream)
    → All (λ u. All HasPort u.1) us
    → HavePorts m
    → HavePorts (streamed us m)
streamed-HavePorts [] m h k = k
streamed-HavePorts ((name, servers) ∷ us) m h k =
    streamed-HavePorts us _ h.1 (HavePorts-assign name servers m h.0 k)

none-HavePorts : HavePorts []
unfolding find
none-HavePorts name = tt

All-assign :
    (k : Bytes) (v : Location) (m : Map Bytes Location)
    → HasScheme (k, v)
    → All HasScheme m
    → All HasScheme (assign k v m)
unfolding assign
All-assign k v [] h a = (h, tt)
All-assign k v ((j, w) ∷ m) h a = ground (arith, All-assign k v m h a.1)

located-HaveSchemes :
    (ls : List (Bytes × Bytes)) (m : Map Bytes Location)
    → All (λ l. 7 ≤ length l.1) ls
    → All HasScheme m
    → All HasScheme (located ls m)
located-HaveSchemes [] m h k = k
located-HaveSchemes ((id, pass) ∷ ls) m h k =
    located-HaveSchemes ls _ h.1 (All-assign id (record { id = id; proxy_pass = pass }) m h.0 k)

ready-watches :
    (a : Acceptor) (fd : ℤ) (calls : Calls)
    → watched_for fd (ready a calls) 0 ≡ watched_for fd calls 0
unfolding ready
ready-watches a fd calls =
    rw
      (
        watched_for-append fd _ (call_listen a.listensock 128 ∷ []) 0,
        watched_for-append fd _ (call_bind a.listensock a.server_addr ∷ []) 0,
        watched_for-append fd _ (call_setsockopt a.listensock so_reuseport ∷ []) 0,
        watched_for-append fd calls _ 0,
      )
      refl

ready-calls :
    (a : Acceptor) (calls : Calls)
    → (made : Calls) × (ready a calls
        ≡ made ++ call_bind a.listensock a.server_addr ∷ call_listen a.listensock 128 ∷ [])
unfolding ready
ready-calls a calls = (_, append_assoc _ (call_bind a.listensock a.server_addr ∷ []) _)

-- What the file `s` asks for was done: the acceptor has the port, and the calls of `bind` with it and
-- of `listen` were made, as was the call that makes epoll watch the acceptor; a worker of each number
-- below the file's is there where its thread was created, and no other; the queue has the room; the
-- loop goes round; and each location has one descriptor for each server of its upstream.
pub record Runs (network : Network) (created : ℕ → Bool) (s : Site) (r : Started) : Type 0 where
  pub bound : port r.proxy.acceptor.server_addr ≡ s.listen % 2 ^ 16
  pub listens :
      (made : Calls) × (r.proxy.calls
        ≡ made
          ++ call_bind r.proxy.acceptor.listensock r.proxy.acceptor.server_addr
            ∷ call_listen r.proxy.acceptor.listensock 128
            ∷ [])
  pub watched : watched_for r.proxy.acceptor.listensock r.proxy.calls 0 ≡ read_events
  pub threads : r.pool.thread_num ≡ s.thread_num
  pub workers :
      (i : ℕ) → r.pool.workers i ≡ (if ltb i s.thread_num && created i then at_test else absent)
  pub room : r.pool.taskque.que_size ≡ s.que_size
  pub looping : r.proxy.loop.is_looping ≡ true
  pub servers :
      (code : Bytes)
      → servers_at code r.proxy.loop.tables.forwarding
        ≡ servers_at code (plan network (streamed s.upstreams []) 0 (located s.locations []) [])

threads_said :
    (s : Site) → IsSite s → (q : Parser) → Says s q → to_unsigned 64 q.thread_num ≡ s.thread_num
threads_said s site q says = rw says.thread_num (omega (arith, site.thread_num))

reserve_threads-ok :
    (s : Site)
    → IsSite s
    → (q : Parser) → Says s q
    → reserve_threads (to_unsigned 64 q.thread_num) ≡ ok s.thread_num
unfolding reserve_threads
reserve_threads-ok s site q says = rw (threads_said s site q says) (ground (arith, site.thread_num))

module _ (kernel : Kernel) (inet_addr : Bytes → ℕ) where
  start-Runs :
      (network : Network) (created : ℕ → Bool) (s : Site) (q : Parser)
      → IsSite s
      → IsConnectable s
      → Says s q
      → (r : Started) × (new_proxy_server kernel inet_addr q [] >>= (λ p. start network created p)
          ≡ ok r)
        × Runs network created s r
  unfolding new_proxy_server reserve_threads start start_loop new_acceptor new_queue
  start-Runs network created s q site connectable says =
      let (acceptor, made) = new_acceptor kernel inet_addr (to_unsigned 16 q.server.listen) [] in
      let (efd, watching) = create_epollfd kernel made in
      let l : EventLoop = new_event_loop acceptor.listensock q in
      let few : reserve_threads (to_unsigned 64 q.thread_num) ≡ ok s.thread_num =
        reserve_threads-ok s site q says in
      let (t, connected) =
        connect_to_business_server-ok network l
          (rw says.upstreams (streamed-HavePorts s.upstreams [] connectable.0 none-HavePorts))
          (rw says.locations (located-HaveSchemes s.locations [] connectable.1 tt)) in
      let p : ProxyServer = readied (record {
        acceptor = acceptor;
        efd = efd;
        loop = l;
        calls = add_epoll_read_fd kernel efd acceptor.listensock watching;
      }) in
      (
        running created p (record t { is_looping = true }),
        rw (few, connected) refl,
        record {
          bound =
              rw says.listen
                (port-new_address inet_addr (codes "0.0.0.0") (s.listen % 2 ^ 16) (omega arith));
          listens = ready-calls p.acceptor _;
          watched =
              ready-watches p.acceptor p.acceptor.listensock _
              ∙ add_epoll_read_fd-watches kernel p.efd p.acceptor.listensock _ 0;
          threads = threads_said s site q says;
          workers = λ i. rw (threads_said s site q says) refl;
          room = rw says.que_size (omega (arith, site.que_size));
          looping = refl;
          servers = λ code.
              connect_to_business_server-plan network l t code connected
              ∙ rw (says.upstreams, says.locations) refl;
        },
      )

  -- A configuration that is written as a file makes the program start, whatever the kernel answers:
  -- the calls that bind the acceptor to the port of the file, as a 16-bit number, that make it
  -- listen and that make epoll watch it have been issued, whether or not they succeed; of the
  -- workers that the file asks for those are there whose threads could be created; the queue has the
  -- file's room; and each location has one descriptor for each server of its upstream, -1 where the
  -- connection failed. The file must be one that can be written, the servers' ports must be numbers,
  -- and no `proxy_pass` may be shorter than `http://`. That memory runs out is left aside.
  pub test0-Runs :
      (network : Network) (created : ℕ → Bool) (s : Site) (listen thread_num que_size : ℤ)
      → IsSite s
      → IsConnectable s
      → (r : Started) × (test0 kernel inet_addr network created listen thread_num que_size
            (some (print_site s))
          ≡ ok r)
        × Runs network created s r
  unfolding test0
  test0-Runs network created s listen thread_num que_size site connectable =
      let (q, read, says) = parse-print_site s listen thread_num que_size site in
      let (r, is, runs) = start-Runs network created s q site connectable says in
      (r, rw read is, runs)
