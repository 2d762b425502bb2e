-- ===== src/Proxy/EventLoop/ServerLists.antt =====
-- The lists of servers in the forwarding table, and the sockets that come to stand in them.
use micro_business_server.Base.{
  ℕ, ◌+◌, List, [], ◌∷◌, ◌++◌, none, some, inl, inr, ◌≡◌, ◌∙◌, arith, if◌then◌else◌, Bool-cases,
  Option-cases,
}
use micro_business_server.Base.Int.{ℤ}
use micro_business_server.Base.Map.{Map, find, assign, text_key, find-assign}
use micro_business_server.Base.Text.{Bytes, text_eq}
use micro_business_server.Proxy.EventLoop.{Network, connected, push_fd}
use micro_business_server.Proxy.TcpConnection.Fitting.{count}

-- Every connection is made, and no two sockets have one number.
pub record AllConnect (n : Network) : Type 0 where
  pub fd : ℕ → ℕ
  pub connects : (k : ℕ) → n.connecting k ≡ connected (fd k)
  pub distinct : (j k : ℕ) → fd j ≡ fd k → j ≡ k

pub count-append : (fd : ℤ) (xs ys : List ℤ) → count fd (xs ++ ys) ≡ count fd xs + count fd ys
count-append fd [] ys = omega arith
count-append fd (x ∷ xs) ys = omega (arith, count-append fd xs ys)

-- The sockets at a location, none if it is not in the table.
unfoldable pub servers_at : Bytes → Map Bytes (List ℤ) → List ℤ
servers_at code table = elim (find code table) [ none ↦ [] | some fds ↦ fds ]

pub servers_at-some :
    (code : Bytes) (table : Map Bytes (List ℤ)) (fds : List ℤ)
    → find code table ≡ some fds
    → servers_at code table ≡ fds
unfolding servers_at
servers_at-some code table fds h = rw (servers_at, h)

pub servers_at-assign :
    (k code : Bytes) (fds : List ℤ) (table : Map Bytes (List ℤ))
    → servers_at code (assign k fds table) ≡ (if text_eq k code then fds else servers_at code table)
unfolding servers_at
servers_at-assign k code fds table = elim (Bool-cases (text_eq k code)) [
  | inl e ↦
      let there : find code (assign k fds table) ≡ some fds = find-assign k code fds table ∙ rw e in
      rw (servers_at, there, e)
  | inr e ↦
      let there : find code (assign k fds table) ≡ find code table =
        find-assign k code fds table ∙ rw e in
      rw (servers_at, there, e)
]

pub servers_at-none :
    (code : Bytes) (table : Map Bytes (List ℤ))
    → find code table ≡ none
    → servers_at code table ≡ []
unfolding servers_at
servers_at-none code table h = rw (servers_at, h)

pub servers_at-push_fd :
    (k code : Bytes) (fd : ℤ) (table : Map Bytes (List ℤ))
    → servers_at code (push_fd k fd table)
      ≡ (if text_eq k code then servers_at k table ++ fd ∷ [] else servers_at code table)
unfolding push_fd
servers_at-push_fd k code fd table = elim (Option-cases (find k table)) [
  | inl e ↦ rw (push_fd, e, servers_at-none k table e) (servers_at-assign k code (fd ∷ []) table)
  | inr (fds, e) ↦
      rw (push_fd, e, servers_at-some k table fds e)
        (servers_at-assign k code (fds ++ fd ∷ []) table)
]
