-- ===== src/Business/Pool/Accounting.antt =====
-- Every connection is in the pool or with one user, as long as users give back what they took; and
-- what becomes of this with the temporaries of the handlers.
use micro_business_server.Base.{
  ℕ, zero, suc, ◌+◌, false, List, [], ◌∷◌, ◌++◌, Option, none, some, ◌≡◌, refl, sym, ap, ◌∙◌, arith,
  ◌==◌, if◌then◌else◌, length, ◌↔◌, append-nil,
}
use micro_business_server.Business.Pool.{
  ConnectionPool, new_pool, wait, blocks, undefined, got, take_back, get_connection,
  release_connection, init, with_temporary, close_all, destroy,
}

-- How often a connection stands in a list.
pub times : ℕ → List ℕ → ℕ
times c [] = 0
times c (x ∷ xs) = (if x == c then 1 else 0) + times c xs

times-middle :
    (c x : ℕ) (before after : List ℕ)
    → times c (before ++ x ∷ after) ≡ times c (x ∷ (before ++ after))
unfolding times
times-middle c x [] after = refl
times-middle c x (y ∷ before) after = omega (arith, times-middle c x before after)

-- The pool and the connections that users have.
pub record Usage : Type 0 where
  pub pool : ConnectionPool
  pub held : List ℕ

pub data Step (s t : Usage) : Type 0 where
  gets :
      (conn : ℕ) (pool : ConnectionPool)
      → get_connection false s.pool ≡ got conn pool
      → t ≡ record { pool = pool; held = conn ∷ s.held }
      → Step s t
  gives :
      (conn : ℕ) (before after : List ℕ)
      → s.held ≡ before ++ conn ∷ after
      → t ≡ record { pool = release_connection conn s.pool; held = before ++ after }
      → Step s t

pub data Steps (s : Usage) : Usage → Type 0 where
  start : Steps s s
  then_step : {t u : Usage} → Steps s t → Step t u → Steps s u

-- The semaphore counts the list, and no connection is lost or doubled.
record Inv (made : List ℕ) (s : Usage) : Type 0 where
  counted : s.pool.reserve ≡ length s.pool.conn_list
  kept : (c : ℕ) → times c s.pool.conn_list + times c s.held ≡ times c made

init-counted :
    (made : List (Option ℕ)) (pool : ConnectionPool)
    → pool.reserve ≡ length pool.conn_list
    → (init made pool).0.reserve ≡ length (init made pool).0.conn_list
unfolding init release_connection
init-counted [] pool h = h
init-counted (none ∷ made) pool h = h
init-counted (some conn ∷ made) pool h =
    init-counted made (release_connection conn pool) (omega (arith, h))

pub get_connection-got :
    (s : ConnectionPool) (conn : ℕ) (pool : ConnectionPool)
    → get_connection false s ≡ got conn pool
    → (s.conn_list ≡ conn ∷ pool.conn_list) × (s.reserve ≡ suc pool.reserve)
unfolding get_connection wait take_back
get_connection-got s conn pool h = ground arith

Step-Inv : (made : List ℕ) (s t : Usage) → Step s t → Inv made s → Inv made t
unfolding times release_connection
Step-Inv made s t (gets conn pool e is) h =
    let (list, reserve) = get_connection-got s.pool conn pool e in
    rw is (record {
      counted =
          let before : s.pool.reserve ≡ length (conn ∷ pool.conn_list) =
            h.counted ∙ ap length list in
          omega (arith, before, reserve);
      kept = λ c.
          let before : times c (conn ∷ pool.conn_list) + times c s.held ≡ times c made =
            ap (λ l. times c l + times c s.held) (sym list) ∙ h.kept c in
          omega (arith, before);
    })
Step-Inv made s t (gives conn before after e is) h = rw is (record {
  counted = omega (arith, h.counted);
  kept = λ c.
      let split : times c s.held ≡ times c (conn ∷ (before ++ after)) =
        ap (times c) e ∙ times-middle c conn before after in
      omega (arith, split, h.kept c);
})

Steps-Inv : (made : List ℕ) (s t : Usage) → Steps s t → Inv made s → Inv made t
Steps-Inv made s u start h = h
Steps-Inv made s u (then_step {t} run step) h = Step-Inv made t u step (Steps-Inv made s t run h)

-- The state behind `init`.
abbrev pub opened : List (Option ℕ) → Usage
opened answers = record { pool = (init answers new_pool).0; held = [] }

get_connection-blocks :
    (s : ConnectionPool)
    → s.reserve ≡ length s.conn_list
    → ((get_connection false s ≡ blocks) ↔ (s.conn_list ≡ []))
      × ¬ (get_connection false s ≡ undefined)
unfolding get_connection wait take_back
get_connection-blocks s h = by_parts s.conn_list s.reserve h
  where
    by_parts :
        (conns : List ℕ) (reserve : ℕ)
        → reserve ≡ length conns
        → ((get_connection false (record { conn_list = conns; reserve = reserve }) ≡ blocks)
            ↔ (conns ≡ []))
          × ¬ (get_connection false (record { conn_list = conns; reserve = reserve }) ≡ undefined)
    by_parts [] zero h = (((λ e. refl), (λ e. refl)), (λ e. cc))
    by_parts [] (suc reserve) h = absurd (omega (arith, h))
    by_parts (conn ∷ conns) zero h = absurd (omega (arith, h))
    by_parts (conn ∷ conns) (suc reserve) h = (((λ e. cc), (λ e. cc)), (λ e. cc))

-- Whatever connections `init` could make, and in whatever order users take connections and give
-- back what they have: every connection that was made is in the pool or with users, as often as it
-- was made; the next call of `GetConnection` blocks exactly if none is in the pool, and never reads
-- an empty list.
pub opened-accounts :
    (answers : List (Option ℕ)) (s : Usage)
    → Steps (opened answers) s
    → ((c : ℕ)
        → times c s.pool.conn_list + times c s.held ≡ times c (opened answers).pool.conn_list)
      × ((get_connection false s.pool ≡ blocks) ↔ (s.pool.conn_list ≡ []))
      × ¬ (get_connection false s.pool ≡ undefined)
unfolding times
opened-accounts answers s run =
    let first : Inv (opened answers).pool.conn_list (opened answers) = record {
      counted = init-counted answers new_pool refl;
      kept = λ c. omega arith;
    } in
    let h = Steps-Inv (opened answers).pool.conn_list (opened answers) s run first in
    let (iff, never) = get_connection-blocks s.pool h.counted in (h.kept, iff, never)

-- With the temporaries of the handlers, requests that come one after the other while none has
-- finished all use one connection: the second gets what the first is still using.
pub with_temporary-shares :
    (pool rest : ConnectionPool) (conn : ℕ)
    → with_temporary false pool ≡ got conn rest
    → with_temporary false rest ≡ got conn rest
unfolding with_temporary get_connection wait take_back release_connection
with_temporary-shares pool rest conn h = by_parts pool.conn_list pool.reserve h
  where
    by_parts :
        (conns : List ℕ) (reserve : ℕ)
        → with_temporary false (record { conn_list = conns; reserve = reserve }) ≡ got conn rest
        → with_temporary false rest ≡ got conn rest
    by_parts conns zero h = cc
    by_parts [] (suc reserve) h = cc
    by_parts (c ∷ conns) (suc reserve) h =
        let is : record { conn_list = c ∷ conns; reserve = reserve + 1 } ≡ rest = cc in
        let one : reserve + 1 ≡ suc reserve = omega arith in
        ap (with_temporary false) (sym is)
        ∙ ap (λ k. with_temporary false (record { conn_list = c ∷ conns; reserve = k })) one
        ∙ h

times-close_all : (c : ℕ) (conns : List ℕ) → times c (close_all conns) ≡ times c conns
unfolding close_all times
times-close_all c [] = refl
times-close_all c (conn ∷ conns) =
    times-middle c conn (close_all conns) []
    ∙ rw (append-nil (close_all conns)) (omega (arith, times-close_all c conns))

-- The destructor closes what is in the pool, and each connection as often as it was made, but for
-- those that a user still has: these are never closed.
pub destroy-closes :
    (answers : List (Option ℕ)) (s : Usage)
    → Steps (opened answers) s
    → ((destroy s.pool).1.conn_list ≡ [])
      × ((c : ℕ)
          → times c (destroy s.pool).0 + times c s.held ≡ times c (opened answers).pool.conn_list)
unfolding destroy
destroy-closes answers s run =
    let (kept, iff, never) = opened-accounts answers s run in
    (refl, λ c. omega (arith, times-close_all c s.pool.conn_list, kept c))
