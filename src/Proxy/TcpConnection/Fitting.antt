-- ===== src/Proxy/TcpConnection/Fitting.antt =====
-- How the four tables fit together, and what keeps them so.
use micro_business_server.Base.{
  ℕ, ◌+◌, ◌≤◌, ◌<◌, true, false, List, [], ◌∷◌, Option, none, some, ◌⊎◌, inl, inr, ◌≡◌, refl, sym,
  ap, ◌∙◌, arith, if◌then◌else◌, Bool-cases,
}
use mathlib.Core.Option
use micro_business_server.Base.Int.{ℤ, int_eq, int_eq_iff}
use micro_business_server.Base.Map.{
  Map, find, assign, erase, text_key, int_key, find-assign, find-erase, find-map,
}
use micro_business_server.Base.Text.{Bytes, text_eq, text_eq_iff}
use micro_business_server.Proxy.TcpConnection.Reply.{address}
use micro_business_server.Proxy.TcpConnection.{
  Endpoint, TcpConnection, Tables, Platform, forget_client, remove_first, forget_server,
}

-- How often a socket stands in a list.
abbrev pub count : ℤ → List ℤ → ℕ
count fd [] = 0
count fd (x ∷ xs) = (if int_eq x fd then 1 else 0) + count fd xs

module _ (platform : Platform) where
  pub record IsConsistent (t : Tables) : Type 0 where
    -- Every server that requests are sent to has a connection.
    pub servers :
        (code : Bytes) (fds : List ℤ) (fd : ℤ)
        → find code t.forwarding ≡ some fds
        → 0 < count fd fds
        → (e : Endpoint) × (find fd t.server_conns ≡ some e)
    -- No server stands twice in a list.
    pub once :
        (code : Bytes) (fds : List ℤ) (fd : ℤ)
        → find code t.forwarding ≡ some fds
        → count fd fds ≤ 1
    -- Every client's address leads to a connection with that address.
    pub clients :
        (name : Bytes) (fd : ℤ)
        → find name t.client_table ≡ some fd
        → (e : Endpoint) × (find fd t.client_conns ≡ some e) × (address platform e ≡ name)

  -- A client's own entry, as long as it is there.
  abbrev pub IsOwner : Tables → TcpConnection → Type 0
  IsOwner t c = (e : Endpoint) → find c.sock_fd t.client_conns ≡ some e → e ≡ c.fixed

pub count-remove_first_self :
    (fd : ℤ) (fds : List ℤ) → count fd fds ≤ 1 → count fd (remove_first fd fds) ≡ 0
unfolding remove_first
count-remove_first_self fd [] h = refl
count-remove_first_self fd (x ∷ xs) h = elim (Bool-cases (int_eq x fd)) [
  | inl e ↦ ground arith
  | inr e ↦ ground (arith, count-remove_first_self fd xs)
]

pub count-remove_first-le : (fd k : ℤ) (fds : List ℤ) → count k (remove_first fd fds) ≤ count k fds
unfolding remove_first
count-remove_first-le fd k [] = omega arith
count-remove_first-le fd k (x ∷ xs) = ground (arith, count-remove_first-le fd k xs)

pub counted : (fd : ℤ) (fds : List ℤ) → 0 < count fd (fd ∷ fds)
counted fd fds = let e = (int_eq_iff fd fd).1 refl in rw e (omega arith)

map-some :
    {A B : Type 0} (f : A → B) (o : Option A) (b : B)
    → Option.map f o ≡ some b
    → (a : A) × (o ≡ some a) × (b ≡ f a)
map-some f none b h = cc
map-some f (some a) b h = (a, refl, cc)

-- A list of servers behind `forget_server` comes from one before it.
old_list :
    (s : ℤ) (t : Tables) (code : Bytes) (fds : List ℤ)
    → find code (forget_server s t).forwarding ≡ some fds
    → (old : List ℤ) × (find code t.forwarding ≡ some old) × (fds ≡ remove_first s old)
old_list s t code fds e =
    map-some (remove_first s) (find code t.forwarding) fds
      (sym (find-map (remove_first s) code t.forwarding) ∙ e)

find-erase_ne :
    {V : Type 0} (s fd : ℤ) (m : Map ℤ V) → int_eq s fd ≡ false → find fd (erase s m) ≡ find fd m
find-erase_ne s fd m ne = find-erase s fd m ∙ rw ne

module _ (platform : Platform) (t : Tables) (h : IsConsistent platform t) where
  pub forget_server-IsConsistent : (s : ℤ) → IsConsistent platform (forget_server s t)
  forget_server-IsConsistent s = record {
    servers = λ code fds fd e pos.
        let (old, was, is) = old_list s t code fds e in
        elim (Bool-cases (int_eq s fd)) [
          | inl eq ↦ absurd (gone code fd old was (rw is at pos) eq)
          | inr ne ↦
              let fewer = count-remove_first-le s fd old in
              let before : 0 < count fd old = omega (arith, rw is at pos) in
              let (x, there) = h.servers code old fd was before in
              (x, find-erase_ne s fd t.server_conns ne ∙ there)
        ];
    once = λ code fds fd e.
        let (old, was, is) = old_list s t code fds e in
        rw is (omega (arith, count-remove_first-le s fd old, h.once code old fd was));
    clients = h.clients;
  }
    where
      gone :
          (code : Bytes) (fd : ℤ) (old : List ℤ)
          → find code t.forwarding ≡ some old
          → 0 < count fd (remove_first s old)
          → int_eq s fd ≡ true
          → ⊥
      gone code fd old was pos eq =
          let same : s ≡ fd = (int_eq_iff s fd).0 eq in
          let none_left = count-remove_first_self fd old (h.once code old fd was) in
          omega (arith, none_left, rw same at pos)

  client_left :
      (c : TcpConnection)
      → IsOwner platform t c
      → (name : Bytes) (fd : ℤ)
      → ((text_eq (address platform c.fixed) name ≡ true)
          ⊎ (text_eq (address platform c.fixed) name ≡ false))
      → find name (forget_client platform c t).client_table ≡ some fd
      → (e : Endpoint) × (find fd (forget_client platform c t).client_conns ≡ some e)
        × (address platform e ≡ name)
  client_left c own name fd (inl eq) e =
      let erased = find-erase (address platform c.fixed) name t.client_table in
      let gone : find name (forget_client platform c t).client_table ≡ none = erased ∙ rw eq in cc
  client_left c own name fd (inr ne) e =
      let was : find name t.client_table ≡ some fd =
        sym (find-erase (address platform c.fixed) name t.client_table ∙ rw ne) ∙ e in
      let (x, there, named) = h.clients name fd was in
      elim (Bool-cases (int_eq c.sock_fd fd)) [
        | inl eq ↦
            let same : c.sock_fd ≡ fd = (int_eq_iff c.sock_fd fd).0 eq in
            let mine : x ≡ c.fixed = own x (rw same there) in
            let renamed : address platform c.fixed ≡ name =
              ap (address platform) (sym mine) ∙ named in
            let hit = (text_eq_iff (address platform c.fixed) name).1 renamed in cc
        | inr other ↦ (x, find-erase_ne c.sock_fd fd t.client_conns other ∙ there, named)
      ]

  pub forget_client-IsConsistent :
      (c : TcpConnection)
      → IsOwner platform t c
      → IsConsistent platform (forget_client platform c t)
  forget_client-IsConsistent c own = record {
    servers = h.servers;
    once = h.once;
    clients = λ name fd e.
        client_left c own name fd (Bool-cases (text_eq (address platform c.fixed) name)) e;
  }

  pub add_empty-IsConsistent :
      (code : Bytes) → IsConsistent platform (record t { forwarding = assign code [] t.forwarding })
  add_empty-IsConsistent code = record {
    servers = λ k fds fd e pos. elim (listed k fds e) [
      | inl old ↦ h.servers k fds fd old pos
      | inr is ↦ absurd (omega (arith, rw is at pos))
    ];
    once = λ k fds fd e. elim (listed k fds e) [
      | inl old ↦ h.once k fds fd old
      | inr is ↦ rw is (omega arith)
    ];
    clients = h.clients;
  }
    where
      listed :
          (k : Bytes) (fds : List ℤ)
          → find k (assign code [] t.forwarding) ≡ some fds
          → (find k t.forwarding ≡ some fds) ⊎ (fds ≡ [])
      listed k fds e = elim (Bool-cases (text_eq code k)) [
        | inl eq ↦
            let is : find k (assign code [] t.forwarding) ≡ some [] =
              find-assign code k [] t.forwarding ∙ rw eq in
            inr cc
        | inr ne ↦ inl (sym (find-assign code k [] t.forwarding ∙ rw ne) ∙ e)
      ]
