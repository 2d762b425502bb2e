-- ===== src/Proxy/System/Pending.antt =====
-- What every state of a run has in common: the tables fit together, they find a connection under
-- its own descriptor, and no connection that is still to be processed is mistaken for another one.
use micro_business_server.Base.{
  List, [], ◌∷◌, ◌++◌, none, some, inl, inr, ◌≡◌, All, Option-cases, All-append, All-split,
}
use micro_business_server.Base.Int.{ℤ}
use micro_business_server.Base.Map.{Map, find, int_key}
use micro_business_server.Proxy.SocketIo.{Incoming}
use micro_business_server.Proxy.System.{System, connection, at_outcome}
use micro_business_server.Proxy.TcpConnection.Consistent.{process-IsConsistent}
use micro_business_server.Proxy.TcpConnection.Fitting.{IsConsistent}
use micro_business_server.Proxy.TcpConnection.Effects.{IsWithin, process-Effects}
use micro_business_server.Proxy.TcpConnection.{Endpoint, Platform, Outcome, process}

-- The client at a pending connection's descriptor, if there is one, is that connection.
abbrev pub Owns : Map ℤ Endpoint → Endpoint → Type 0
Owns clients e = (x : Endpoint) → find e.sock_fd clients ≡ some x → x ≡ e

-- A table finds a connection under its own descriptor.
abbrev pub IsKeyed : Map ℤ Endpoint → Type 0
IsKeyed m = (fd : ℤ) (x : Endpoint) → find fd m ≡ some x → x.sock_fd ≡ fd

pub record Sound (platform : Platform) (s : System) : Type 0 where
  pub consistent : IsConsistent platform s.loop.tables
  pub client_keys : IsKeyed s.loop.tables.client_conns
  pub server_keys : IsKeyed s.loop.tables.server_conns
  -- No descriptor belongs to a server and to a client.
  pub apart :
      (fd : ℤ) (x : Endpoint)
      → find fd s.loop.tables.server_conns ≡ some x
      → find fd s.loop.tables.client_conns ≡ none
  pub waiting : All (Owns s.loop.tables.client_conns) s.loop.requests
  pub held : All (Owns s.loop.tables.client_conns) s.in_hand

-- Fewer clients are mistaken even less.
Owns-fewer :
    (new old : Map ℤ Endpoint) (es : List Endpoint)
    → IsWithin new old
    → All (Owns old) es
    → All (Owns new) es
Owns-fewer new old [] h k = tt
Owns-fewer new old (e ∷ es) h k =
    (λ x there. k.0 x (h e.sock_fd x there), Owns-fewer new old es h k.1)

within-none :
    (new old : Map ℤ Endpoint) (fd : ℤ) → IsWithin new old → find fd old ≡ none → find fd new ≡ none
within-none new old fd h e = elim (Option-cases (find fd new)) [
  | inl gone ↦ gone
  | inr (x, there) ↦ let was = h fd x there in cc
]

module _ (platform : Platform) (s : System) (h : Sound platform s) where
  pub work-Sound :
      (e : Endpoint) (front back : List Endpoint) (i : Incoming) (o : Outcome)
      → s.in_hand ≡ front ++ e ∷ back
      → process platform (connection s e) s.loop.tables i ≡ some o
      → Sound platform (at_outcome o (front ++ back) s)
  work-Sound e front back i o is made =
      let effects = process-Effects platform (connection s e) s.loop.tables i o made in
      let owns = Owns s.loop.tables.client_conns in
      let (before, after) = All-split owns front (e ∷ back) (rw is at h.held) in
      let (p, succeeds, consistent) =
        process-IsConsistent platform (connection s e) s.loop.tables i h.consistent after.0 in
      let same : p ≡ o = cc in
      record {
        consistent = rw same at consistent;
        client_keys = λ fd x there. h.client_keys fd x (effects.clients fd x there);
        server_keys = λ fd x there. h.server_keys fd x (effects.servers fd x there);
        apart = λ fd x there.
            within-none _ s.loop.tables.client_conns fd effects.clients
              (h.apart fd x (effects.servers fd x there));
        waiting = Owns-fewer _ s.loop.tables.client_conns s.loop.requests effects.clients h.waiting;
        held =
            Owns-fewer _ s.loop.tables.client_conns (front ++ back) effects.clients
              (All-append owns front back before after.1);
      }

  pub take_on-Sound :
      (e : Endpoint) (rest : List Endpoint)
      → s.loop.requests ≡ e ∷ rest
      → Sound platform
          (record s { loop = record s.loop { requests = rest }; in_hand = e ∷ s.in_hand })
  take_on-Sound e rest is =
      let owned : All (Owns s.loop.tables.client_conns) (e ∷ rest) = rw is at h.waiting in
      record {
        consistent = h.consistent;
        client_keys = h.client_keys;
        server_keys = h.server_keys;
        apart = h.apart;
        waiting = owned.1;
        held = (owned.0, h.held);
      }
