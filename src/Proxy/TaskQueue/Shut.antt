-- ===== src/Proxy/TaskQueue/Shut.antt =====
-- The queue once `wakeup` has cleared `_flag`.
use micro_business_server.Base.{
  true, false, List, [], ◌∷◌, ◌++◌, ◌≡◌, refl, sym, ◌∙◌, append_assoc, append-nil,
}
use micro_business_server.Proxy.TaskQueue.{
  State, Step, Steps, start, then_step, push_lock, push_full, push_wait, push_again, push_store,
  pop_lock, pop_empty, pop_wait, pop_again, pop_pass, pop_take, pop_null, wakeup_flag,
  wakeup_notify, spurious,
}

module _ {ℓ} {A : Type ℓ} where
  -- What a shut queue keeps.
  abbrev Keeps : State A → State A → Type ℓ
  Keeps s t =
      (t.flag ≡ false)
      × (t.taken ≡ s.taken)
      × ((rest : List A) × (t.que ≡ s.que ++ rest) × (t.stored ≡ s.stored ++ rest))

  same-Keeps :
      (s t : State A)
      → s.flag ≡ false
      → t.flag ≡ s.flag
      → t.taken ≡ s.taken
      → t.que ≡ s.que
      → t.stored ≡ s.stored
      → Keeps s t
  same-Keeps s t shut f g h k =
      (f ∙ shut, g, ([], h ∙ sym (append-nil s.que), k ∙ sym (append-nil s.stored)))

  Step-Keeps : (s t : State A) → Step s t → s.flag ≡ false → Keeps s t
  Step-Keeps s t (push_lock i e at_i free is) shut =
      same-Keeps s t shut (rw is refl) (rw is refl) (rw is refl) (rw is refl)
  Step-Keeps s t (push_full i e at_i is_full is) shut =
      same-Keeps s t shut (rw is refl) (rw is refl) (rw is refl) (rw is refl)
  Step-Keeps s t (push_wait i e at_i is) shut =
      same-Keeps s t shut (rw is refl) (rw is refl) (rw is refl) (rw is refl)
  Step-Keeps s t (push_again i e at_i free is) shut =
      same-Keeps s t shut (rw is refl) (rw is refl) (rw is refl) (rw is refl)
  Step-Keeps s t (push_store i e threads at_i room w is) shut =
      rw is (shut, refl, (e ∷ [], refl, refl))
  Step-Keeps s t (pop_lock i at_i free is) shut =
      same-Keeps s t shut (rw is refl) (rw is refl) (rw is refl) (rw is refl)
  Step-Keeps s t (pop_empty i at_i is_empty is) shut =
      absurd (let no : false ≡ true = rw shut at is_empty in cc)
  Step-Keeps s t (pop_wait i at_i is) shut =
      same-Keeps s t shut (rw is refl) (rw is refl) (rw is refl) (rw is refl)
  Step-Keeps s t (pop_again i at_i free is) shut =
      same-Keeps s t shut (rw is refl) (rw is refl) (rw is refl) (rw is refl)
  Step-Keeps s t (pop_pass i at_i ready is) shut =
      same-Keeps s t shut (rw is refl) (rw is refl) (rw is refl) (rw is refl)
  Step-Keeps s t (pop_take i e rest threads at_i up front w is) shut = absurd cc
  Step-Keeps s t (pop_null i at_i down is) shut =
      same-Keeps s t shut (rw is refl) (rw is refl) (rw is refl) (rw is refl)
  Step-Keeps s t (wakeup_flag is) shut =
      same-Keeps s t shut (rw is (sym shut)) (rw is refl) (rw is refl) (rw is refl)
  Step-Keeps s t (wakeup_notify down is) shut =
      same-Keeps s t shut (rw is refl) (rw is refl) (rw is refl) (rw is refl)
  Step-Keeps s t (spurious i is) shut =
      same-Keeps s t shut (rw is refl) (rw is refl) (rw is refl) (rw is refl)

  -- Once `wakeup` has cleared the flag, no run takes a task any more: what the queue holds stays in
  -- it, and a `push` can still add to it.
  pub Steps-shut : (s t : State A) → Steps s t → s.flag ≡ false → Keeps s t
  Steps-shut s u start shut = same-Keeps s s shut refl refl refl refl
  Steps-shut s u (then_step {t} run step) shut =
      let (down, took, (xs, q, st)) = Steps-shut s t run shut in
      let (down2, took2, (ys, q2, st2)) = Step-Keeps t u step down in
      (
        down2,
        took2 ∙ took,
        (xs ++ ys, q2 ∙ rw q (append_assoc s.que xs ys), st2 ∙ rw st (append_assoc s.stored xs ys)),
      )
