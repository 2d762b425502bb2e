-- ===== src/Proxy/EventLoop/Wiring.antt =====
-- `connectToBusinessServer`: the tables that it builds.
use micro_business_server.Base.{
  ℕ, suc, ◌+◌, ◌≤◌, ◌<◌, [], ◌∷◌, ◌++◌, some, ◌⊎◌, inl, inr, ◌≡◌, refl, sym, ◌∙◌, arith,
  if◌then◌else◌, Bool-cases,
}
use micro_business_server.Base.Except.{ok}
use micro_business_server.Base.Int.{ℤ, pos, int_eq, int_eq_iff}
use micro_business_server.Base.Map.{find, text_key, int_key, find-insert_keeps, find-insert_self}
use micro_business_server.Base.Text.{Bytes, text_eq, text_eq_iff}
use micro_business_server.Proxy.EventLoop.{
  EventLoop, Network, Startup, connect_to_one_business_server, server_end, add_connection,
  clear_location, connect_to_business_server, no_tables,
}
use micro_business_server.Proxy.EventLoop.Keeping.{
  one_more, cleared_at, connect_to_business_server-keeps,
}
use micro_business_server.Proxy.EventLoop.ServerLists.{
  AllConnect, count-append, servers_at, servers_at-some, servers_at-assign, servers_at-push_fd,
}
use micro_business_server.Proxy.TcpConnection.Fitting.{count, IsConsistent}
use micro_business_server.Proxy.TcpConnection.{Endpoint, Tables, Platform}

zero-or-pos : (k : ℕ) → (k ≡ 0) ⊎ (0 < k)
zero-or-pos k = omega arith

module _ (n : Network) (all : AllConnect n) where
  -- The tables after so many calls of `connectToOneBusinessServer`.
  record Wired (calls : ℕ) (t : Tables) : Type 0 where
    servers :
        (code : Bytes) (fd : ℤ)
        → 0 < count fd (servers_at code t.forwarding)
        → (e : Endpoint) × (find fd t.server_conns ≡ some e)
    once : (code : Bytes) (fd : ℤ) → count fd (servers_at code t.forwarding) ≤ 1
    used :
        (code : Bytes) (fd : ℤ)
        → 0 < count fd (servers_at code t.forwarding)
        → (j : ℕ) × (j < calls) × (fd ≡ pos (all.fd j))
    no_clients : t.client_table ≡ []

  module _ (calls : ℕ) (t : Tables) (w : Wired calls t) (location : Bytes) where
    abbrev new : Tables
    new = add_connection location (server_end n calls) t

    sock_fd_is : (server_end n calls).sock_fd ≡ pos (all.fd calls)
    unfolding connect_to_one_business_server
    sock_fd_is = rw (connect_to_one_business_server, all.connects calls)

    -- The new socket is in no list.
    is_new : (code : Bytes) → count (pos (all.fd calls)) (servers_at code t.forwarding) ≡ 0
    is_new code = elim (zero-or-pos (count (pos (all.fd calls)) (servers_at code t.forwarding))) [
      | inl e ↦ e
      | inr h ↦
          let (j, lt, is) = w.used code (pos (all.fd calls)) h in
          let same : all.fd calls ≡ all.fd j = cc in
          absurd (omega (arith, all.distinct calls j same))
    ]

    new_list :
        (code : Bytes)
        → servers_at code new.forwarding ≡ (
            if text_eq location code
            then servers_at location t.forwarding ++ pos (all.fd calls) ∷ []
            else servers_at code t.forwarding)
    unfolding add_connection
    new_list code =
        servers_at-push_fd location code (server_end n calls).sock_fd t.forwarding ∙ rw sock_fd_is

    -- What a list holds behind the call.
    held :
        (code : Bytes) (fd : ℤ)
        → (count fd (servers_at code new.forwarding) ≡ count fd (servers_at code t.forwarding))
          ⊎ ((fd ≡ pos (all.fd calls)) × (count fd (servers_at code new.forwarding) ≡ 1))
    held code fd = elim (Bool-cases (text_eq location code)) [
      | inr ne ↦ inl (rw (new_list code, ne))
      | inl eq ↦
          let same : location ≡ code = (text_eq_iff location code).0 eq in
          let longer : servers_at code new.forwarding
              ≡ servers_at code t.forwarding ++ pos (all.fd calls) ∷ [] =
            new_list code ∙ rw (eq, same) in
          let sum = count-append fd (servers_at code t.forwarding) (pos (all.fd calls) ∷ []) in
          elim (Bool-cases (int_eq (pos (all.fd calls)) fd)) [
            | inl hit ↦
                let is : pos (all.fd calls) ≡ fd = (int_eq_iff (pos (all.fd calls)) fd).0 hit in
                let old : count fd (servers_at code t.forwarding) ≡ 0 = rw (← is) (is_new code) in
                inr (sym is, rw (longer, sum, old, hit) (omega arith))
            | inr miss ↦ inl (rw (longer, sum, miss) (omega arith))
          ]
    ]

    add_connection-Wired : Wired (suc calls) new
    unfolding add_connection
    add_connection-Wired = record {
      servers = λ code fd h. elim (held code fd) [
        | inl e ↦
            let (x, there) = w.servers code fd (rw e at h) in
            (
              x,
              find-insert_keeps (server_end n calls).sock_fd fd (server_end n calls) x
                  t.server_conns there,
            )
        | inr (is, one) ↦
            let (x, there) =
              find-insert_self (server_end n calls).sock_fd (server_end n calls) t.server_conns in
            (x, rw (is, ← sock_fd_is) there)
      ];
      once = λ code fd. elim (held code fd) [
        | inl e ↦ rw e (w.once code fd)
        | inr (is, one) ↦ rw one (omega arith)
      ];
      used = λ code fd h. elim (held code fd) [
        | inl e ↦ let (j, lt, is) = w.used code fd (rw e at h) in (j, omega arith, is)
        | inr (is, one) ↦ (calls, omega arith, is)
      ];
      no_clients = w.no_clients;
    }

  clear_location-Wired :
      (calls : ℕ) (t : Tables) (location : Bytes)
      → Wired calls t
      → Wired calls (clear_location location t)
  clear_location-Wired calls t location w = record {
    servers = λ code fd h. w.servers code fd (grown code fd h);
    once = λ code fd. elim (cleared code) [
      | inl e ↦ rw e (w.once code fd)
      | inr e ↦ rw e (omega arith)
    ];
    used = λ code fd h. w.used code fd (grown code fd h);
    no_clients = w.no_clients;
  }
    where
      cleared :
          (code : Bytes)
          → (servers_at code (clear_location location t).forwarding ≡ servers_at code t.forwarding)
            ⊎ (servers_at code (clear_location location t).forwarding ≡ [])
      cleared code = elim (Bool-cases (text_eq location code)) [
        | inl e ↦ inr (servers_at-assign location code [] t.forwarding ∙ rw e)
        | inr e ↦ inl (servers_at-assign location code [] t.forwarding ∙ rw e)
      ]

      grown :
          (code : Bytes) (fd : ℤ)
          → 0 < count fd (servers_at code (clear_location location t).forwarding)
          → 0 < count fd (servers_at code t.forwarding)
      grown code fd h = elim (cleared code) [
        | inl e ↦ rw e at h
        | inr e ↦ absurd (omega (arith, rw e at h))
      ]

  no_tables-Wired : Wired 0 no_tables
  unfolding servers_at find
  no_tables-Wired = record {
    servers = λ code fd h. absurd (omega arith);
    once = λ code fd. omega arith;
    used = λ code fd h. absurd (omega arith);
    no_clients = refl;
  }

  Wired-IsConsistent :
      (platform : Platform) (calls : ℕ) (t : Tables) → Wired calls t → IsConsistent platform t
  unfolding find
  Wired-IsConsistent platform calls t w = record {
    servers = λ code fds fd e h. w.servers code fd (rw (servers_at-some code t.forwarding fds e) h);
    once = λ code fds fd e. rw (servers_at-some code t.forwarding fds e) at (w.once code fd);
    clients = λ name fd e. absurd (empty name fd (rw w.no_clients at e));
  }
    where
      empty : (name : Bytes) (fd : ℤ) → find name [] ≡ some fd → ⊥
      empty name fd e = cc

-- If every business server accepts its connection, the tables fit together when the event loop
-- starts: every server that a request can be sent to has a connection, and none stands twice in a
-- list.
pub connect_to_business_server-IsConsistent :
    (platform : Platform) (n : Network) (l r : EventLoop)
    → AllConnect n
    → l.tables ≡ no_tables
    → connect_to_business_server n l ≡ ok r
    → IsConsistent platform r.tables
connect_to_business_server-IsConsistent platform n l r all empty h =
    let P : Startup → Type 0 = λ s. Wired n all s.calls s.loop.tables in
    let more : (location : Bytes) (s : Startup) → P s → P (one_more n location s) = λ location s w.
      let z : s.calls + 1 ≡ suc s.calls = omega arith in
      rw z (add_connection-Wired n all s.calls s.loop.tables w location) in
    let clear : (location : Bytes) (s : Startup) → P s → P (cleared_at location s) =
      λ location s w. clear_location-Wired n all s.calls s.loop.tables location w in
    let (s, is, w) =
      connect_to_business_server-keeps n P more clear l r (rw empty (no_tables-Wired n all)) h in
    rw (← is) (Wired-IsConsistent n all platform s.calls s.loop.tables w)
