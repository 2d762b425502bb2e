-- ===== src/Tests/Starts.antt =====
-- A server that starts from a file, and clients that come at the same time.
use micro_business_server.Base.{ℕ, ◌+◌, ◌≤◌, true, [], ◌∷◌, some, ◌≡◌, refl, arith, length}
use micro_business_server.Base.Except.{ok, stoi}
use micro_business_server.Base.Int.{pos}
use micro_business_server.Base.Text.{Bytes}
use micro_business_server.Proxy.Config.Site.{print_site}
use micro_business_server.Proxy.EventLoop.{Accepted}
use micro_business_server.Proxy.EventLoop.Backlog.{
  Listening, listening, at_report, ListeningSteps, stay, next, arrive, report, due,
}
use micro_business_server.Proxy.EventLoop.Lagging.{accept-leaves}
use micro_business_server.Proxy.ProxyServer.{Started, test0}
use micro_business_server.Proxy.ProxyServer.Starting.{IsConnectable, Runs, test0-Runs}
use micro_business_server.Proxy.SystemCalls.{
  Kernel, call_socket, call_epoll_create1, add_epoll_read_fd, set_nonblock,
}
use micro_business_server.Tests.Inputs.{platform}
use micro_business_server.Tests.Loop.{network, config, accepted, knock}
use micro_business_server.Tests.Sites.{site, site-IsSite}

-- The descriptors 3 and 4, and no flag is set.
abbrev kernel : Kernel
kernel calls call_socket = pos 3
kernel calls call_epoll_create1 = pos 4
kernel calls _ = pos 0

-- 127.0.0.1 is not asked for: 0.0.0.0 is.
abbrev inet_addr : Bytes → ℕ
inet_addr text = 0

site-IsConnectable : IsConnectable site
unfolding stoi
site-IsConnectable =
    ((((pos 10002, refl), ((pos 10002, refl), tt)), (tt, tt)), (omega arith, (omega arith, tt)))

test0-Runs_example :
    (r : Started) × (test0 kernel inet_addr network
        (λ _. true)
        (pos 0)
        (pos 0)
        (pos 0)
        (some (print_site site))
      ≡ ok r)
    × Runs network (λ _. true) site r
test0-Runs_example =
    test0-Runs kernel inet_addr network (λ _. true) site (pos 0) (pos 0) (pos 0) site-IsSite
      site-IsConnectable

abbrev neighbour : Accepted
neighbour = record accepted { fd = pos 10 }

abbrev quiet : Listening
quiet = listening kernel (pos 4) (pos 3) config []

-- Two clients come before the first report.
abbrev crowded : Listening
crowded = record quiet { backlog = accepted ∷ neighbour ∷ []; news = true }

crowded-before : ListeningSteps platform quiet crowded
crowded-before = next (next stay (arrive accepted refl)) (arrive neighbour refl)

-- The report is dealt with, and a third client is there.
abbrev reported : Listening
reported = at_report platform knock crowded

abbrev later : Listening
later = record reported { backlog = neighbour ∷ accepted ∷ []; news = true }

crowded-steps : ListeningSteps platform crowded later
unfolding add_epoll_read_fd set_nonblock
crowded-steps = next (next stay (report knock refl (λ _. refl) refl)) (arrive accepted refl)

accept-leaves_example : 1 + due later ≤ length later.backlog
accept-leaves_example =
    accept-leaves platform kernel (pos 4) (pos 3) config [] crowded later 1 crowded-before
      (omega arith) crowded-steps
