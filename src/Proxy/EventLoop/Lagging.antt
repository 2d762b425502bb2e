-- ===== src/Proxy/EventLoop/Lagging.antt =====
-- Clients that come close together: one report and one `accept` for all of them.
use micro_business_server.Base.{
  Bool-cases, ℕ, suc, ◌+◌, ◌≤◌, true, false, [], ◌∷◌, ◌≡◌, refl, ◌∙◌, arith, inl, inr, length,
  length-append, length-drop,
}
use micro_business_server.Base.Int.{ℤ, int_eq}
use micro_business_server.Proxy.Config.{Parser}
use micro_business_server.Proxy.EventLoop.{Event, is_epollin}
use micro_business_server.Proxy.EventLoop.Backlog.{
  add_epoll_read_fd-watches, is_edge, Listening, backlog_after, at_report, is_reported,
  ListeningStep, ListeningSteps, arrive, report, elsewhere, stay, next, listening, due,
}
use micro_business_server.Proxy.SystemCalls.{Calls, Kernel}
use micro_business_server.Proxy.TcpConnection.{Platform}

-- The clients beyond the one that a due report stands for do not get fewer.
abbrev Lags : Listening → Listening → Type 0
Lags s t = (length s.backlog + due t ≤ length t.backlog + due s) × (t.events ≡ s.events)

due_le : (s : Listening) → due s ≤ 1
due_le s = elim (Bool-cases s.news) [ inl e ↦ rw e (omega arith) | inr e ↦ rw e (omega arith) ]

report_lags :
    (platform : Platform) (s : Listening) (e : Event)
    → is_edge s.events ≡ true
    → is_reported s e ≡ true
    → length s.backlog + due (at_report platform e s)
      ≤ length (backlog_after s.loop e s.backlog) + due s
report_lags platform s e edge reported = elim (Bool-cases (int_eq e.fd s.loop.acceptor_fd)) [
  | inl own ↦
      let news : s.news ≡ true = rw (own, edge) at reported in
      rw (own, news)
        (elim (Bool-cases (is_epollin e.events)) [
          | inl p ↦ rw p (omega (arith, length-drop 1 s.backlog))
          | inr n ↦ rw n (omega arith)
        ])
  | inr other ↦ rw other (omega arith)
]

ListeningStep-Lags :
    (platform : Platform) (s t : Listening)
    → is_edge s.events ≡ true
    → ListeningStep platform s t
    → Lags s t
ListeningStep-Lags platform s t edge (arrive a is) =
    rw (is, length-append s.backlog (a ∷ []))
      (elim s.news [ true ↦ omega arith | false ↦ omega arith ], refl)
ListeningStep-Lags platform s t edge (report e reported first is) =
    rw is (report_lags platform s e edge reported, refl)
ListeningStep-Lags platform s t edge (elsewhere l same is) = rw is (omega arith, refl)

ListeningSteps-Lags :
    (platform : Platform) (s t : Listening)
    → is_edge s.events ≡ true
    → ListeningSteps platform s t
    → Lags s t
ListeningSteps-Lags platform s t edge stay = (omega arith, refl)
ListeningSteps-Lags platform s t edge (next {t = m} before step) =
    let (waiting, watched) = ListeningSteps-Lags platform s m edge before in
    let (more, same) = ListeningStep-Lags platform m t (rw watched edge) step in
    (omega (arith, waiting, more), same ∙ watched)

-- Of `k + 1` clients that wait to be accepted at any time, at least `k` clients are waiting ever
-- after, and one more where a report of the listening socket is due, whatever clients come, events
-- are reported and workers do: the constructor adds the socket with EPOLLET, the kernel then reports
-- it once for all that has come since the last report, and a report makes one call of `accept`.
pub accept-leaves :
    (platform : Platform) (kernel : Kernel) (efd acceptor_fd : ℤ) (config : Parser) (calls : Calls)
    (s t : Listening) (k : ℕ)
    → ListeningSteps platform (listening kernel efd acceptor_fd config calls) s
    → suc k ≤ length s.backlog
    → ListeningSteps platform s t
    → k + due t ≤ length t.backlog
accept-leaves platform kernel efd acceptor_fd config calls s t k before many steps =
    let first : Listening = listening kernel efd acceptor_fd config calls in
    let edge : is_edge first.events ≡ true =
      rw (add_epoll_read_fd-watches kernel efd acceptor_fd calls 0) refl in
    let (_, watched) = ListeningSteps-Lags platform first s edge before in
    let (waiting, _) = ListeningSteps-Lags platform s t (rw watched edge) steps in
    omega (arith, waiting, due_le s, many)
