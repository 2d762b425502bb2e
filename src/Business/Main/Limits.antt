-- ===== src/Business/Main/Limits.antt =====
-- How many users can have a connection at a time.
use micro_business_server.Base.{
  ℕ, zero, suc, ◌+◌, ◌≤◌, false, List, [], ◌∷◌, Option, none, some, ◌≡◌, refl, ◌∙◌, arith, length,
  length-append, ◌↔◌, Option-cases, inl, inr,
}
use micro_business_server.Base.Int.{ℤ, pos}
use micro_business_server.Base.Text.{Bytes}
use micro_business_server.Business.Main.{rounds_of, rounds, main}
use micro_business_server.Business.Options.{new_config, last_value, parse_arg_lem}
use micro_business_server.Business.Pool.{
  ConnectionPool, new_pool, init, release_connection, get_connection, blocks,
}
use micro_business_server.Business.Pool.Accounting.{
  Usage, Step, Steps, gets, gives, start, then_step, opened, opened-accounts, get_connection-got,
}

-- How many of the first `n` connections are made before the first that is not.
unfoldable pub lead : ℕ → (ℕ → Option ℕ) → ℕ
lead zero answers = 0
lead (suc n) answers = elim (answers 0) [
  | none ↦ 0
  | some conn ↦ suc (lead n (λ i. answers (suc i)))
]

init-lead :
    (n : ℕ) (answers : ℕ → Option ℕ) (pool : ConnectionPool)
    → length (init (rounds n answers) pool).0.conn_list ≡ lead n answers + length pool.conn_list
unfolding init rounds release_connection lead
init-lead zero answers pool = omega arith
init-lead (suc n) answers pool = elim (Option-cases (answers 0)) [
  | inl e ↦ rw (lead, e) (omega arith)
  | inr (conn, e) ↦
      let rest = init-lead n (λ i. answers (suc i)) (release_connection conn pool) in
      rw (lead, e) (omega (arith, rest))
]

total : Usage → ℕ
total s = length s.pool.conn_list + length s.held

Step-total : (s t : Usage) → Step s t → total t ≡ total s
unfolding release_connection total
Step-total s t (gets conn pool e is) =
    let (list, reserve) = get_connection-got s.pool conn pool e in rw (is, list) (omega arith)
Step-total s t (gives conn before after e is) =
    rw (is, e, length-append before (conn ∷ after), length-append before after) (omega arith)

Steps-total : (s t : Usage) → Steps s t → total t ≡ total s
Steps-total s u start = refl
Steps-total s u (then_step {t} run step) = Step-total t u step ∙ Steps-total s t run

nil_iff : (xs : List ℕ) → (xs ≡ []) ↔ (length xs ≡ 0)
nil_iff [] = (λ _. refl, λ _. refl)
nil_iff (x ∷ xs) = (λ e. cc, λ e. absurd (omega arith))

module _ (atoi : Bytes → ℤ) where
  -- The server opens as many connections as the last option `-s` says, 8 where there is none, or
  -- stops at the first that cannot be made and goes on with the ones before it. However users then
  -- take connections and give them back, one call at a time and with no wait interrupted, no more of
  -- them than that have one, and the next call of `GetConnection` blocks exactly when so many have
  -- one: always, if the first could not be made.
  pub main-limits :
      (opts : List (ℕ × Bytes)) (answers : ℕ → Option ℕ) (s : Usage)
      → Steps (record { pool = (main atoi opts answers).pool; held = [] }) s
      → let most : ℕ = lead (rounds_of (last_value atoi b's' opts (pos 8))) answers in
        (length s.held ≤ most) × ((get_connection false s.pool ≡ blocks) ↔ (length s.held ≡ most))
  unfolding main total
  main-limits opts answers s run =
      let made : List (Option ℕ) = rounds (rounds_of (last_value atoi b's' opts (pos 8))) answers in
      let config = parse_arg_lem atoi opts new_config in
      let from_opened : Steps (opened made) s = rw (main, config) at run in
      let (kept, (is_empty, is_blocked), never) = opened-accounts made s from_opened in
      let whole = Steps-total (opened made) s from_opened in
      let first = init-lead (rounds_of (last_value atoi b's' opts (pos 8))) answers new_pool in
      let (to_zero, to_nil) = nil_iff s.pool.conn_list in
      (
        omega (arith, whole, first),
        (
          (λ b. omega (arith, whole, first, to_zero (is_empty b))),
          (λ all. is_blocked (to_nil (omega (arith, whole, first, all)))),
        ),
      )
