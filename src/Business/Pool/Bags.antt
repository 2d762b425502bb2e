-- ===== src/Business/Pool/Bags.antt =====
-- What the pool promises, whichever connection it gives: two bags, of the connections that are free
-- and of those that users have.
use mathlib.Core.List.{perm_middle}
use mathlib.Core.Quot.{sound}
use mathlib.Mathlib.Data.Multiset.Defs.{Multiset, of_list}
use mathlib.Mathlib.Data.Multiset.ZeroCons.{cons}
use micro_business_server.Base.{true, false, ◌∷◌, List, [], ℕ, Option, ◌≡◌, refl, ap, ◌∙◌, ◌↔◌}
use micro_business_server.Business.Pool.Accounting.{
  Usage, Step, Steps, gets, gives, start, then_step, opened, opened-accounts, get_connection-got,
}
use micro_business_server.Business.Pool.{
  ConnectionPool, wait, take_back, get_connection, release_connection, blocks, undefined,
}

pub record Bags : Type 0 where
  pub free : Multiset ℕ
  pub lent : Multiset ℕ

abbrev pub bags : Usage → Bags
bags s = record { free = of_list s.pool.conn_list; lent = of_list s.held }

-- A connection goes to a user, or comes back.
pub data Lending (v w : Bags) : Type 0 where
  lends : (c : ℕ) → v.free ≡ cons c w.free → w.lent ≡ cons c v.lent → Lending v w
  regains : (c : ℕ) → v.lent ≡ cons c w.lent → w.free ≡ cons c v.free → Lending v w

pub data Lendings (v : Bags) : Bags → Type 0 where
  none_yet : Lendings v v
  then_lending : {w x : Bags} → Lendings v w → Lending w x → Lendings v x

Step-Lending : (s t : Usage) → Step s t → Lending (bags s) (bags t)
unfolding release_connection
Step-Lending s t (gets conn pool e is) =
    lends conn (rw is (ap of_list (get_connection-got s.pool conn pool e).0)) (rw is refl)
Step-Lending s t (gives conn before after e is) =
    regains conn (ap of_list e ∙ rw is (sound (perm_middle before after))) (rw is refl)

get_connection-interrupted :
    (s : ConnectionPool)
    → ((get_connection true s ≡ undefined) ↔ (s.conn_list ≡ []))
      × ¬ (get_connection true s ≡ blocks)
unfolding get_connection wait take_back
get_connection-interrupted s = by_list s.conn_list s.reserve
  where
    by_list :
        (conns : List ℕ) (reserve : ℕ)
        → ((get_connection true (record { conn_list = conns; reserve = reserve }) ≡ undefined)
            ↔ (conns ≡ []))
          × ¬ (get_connection true (record { conn_list = conns; reserve = reserve }) ≡ blocks)
    by_list [] reserve = (((λ _. refl), (λ _. refl)), (λ h. cc))
    by_list (x ∷ xs) reserve = (((λ h. cc), (λ h. cc)), (λ h. cc))

Steps-Lendings : (s t : Usage) → Steps s t → Lendings (bags s) (bags t)
Steps-Lendings s t start = none_yet
Steps-Lendings s u (then_step {t} run step) =
    then_lending (Steps-Lendings s t run) (Step-Lending t u step)

-- Of users whose calls of the pool come one at a time, each behind the end of the one before it, and
-- with no wait of the semaphore interrupted so far: whatever connections `init` could make, and in
-- whatever order users take connections and give back what they have, each call lends one connection
-- out of the bag of free ones or regains one out of the bag of lent ones, whichever it is. The next
-- call of `GetConnection` blocks exactly if the list of the pool is empty, and never reads an empty
-- list, as long as its own wait is not interrupted; if it is, the call reads an empty list exactly if
-- the list is empty, and never blocks.
pub opened-refines :
    (answers : List (Option ℕ)) (s : Usage)
    → Steps (opened answers) s
    → Lendings (bags (opened answers)) (bags s)
      × ((get_connection false s.pool ≡ blocks) ↔ (s.pool.conn_list ≡ []))
      × ¬ (get_connection false s.pool ≡ undefined)
      × ((get_connection true s.pool ≡ undefined) ↔ (s.pool.conn_list ≡ []))
      × ¬ (get_connection true s.pool ≡ blocks)
opened-refines answers s run =
    let (kept, iff, never) = opened-accounts answers s run in
    let (empty, waits) = get_connection-interrupted s.pool in
    (Steps-Lendings (opened answers) s run, iff, never, empty, waits)
