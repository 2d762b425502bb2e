-- ===== src/Base/Map.antt =====
-- `std::map`: pairs in the order of the keys. The laws of `find` need no order.
use mathlib.Core.Path.{◌≡◌, refl, sym, ◌∙◌, ap}
use mathlib.Core.Logic.{◌↔◌}
use mathlib.Core.Bool.{Bool, true}
use mathlib.Core.Option.{Option, none, some}
use mathlib.Core.List.{List, [], ◌∷◌, map}
use mathlib.Core.Option
use mathlib.Core.Logic.{inl, inr}
use native.Mathlib.Omega.{arith}
use micro_business_server.Base.Tests.{if◌then◌else◌, Bool-cases, Option-cases}
use micro_business_server.Base.Text.{Bytes, text_eq, text_lt, text_eq_iff}
use micro_business_server.Base.Int.{ℤ, int_eq, int_lt, int_eq_iff}

-- What a key type offers.
pub record Key {ℓ} (K : Type ℓ) : Type ℓ where
  pub beq : K → K → Bool
  pub blt : K → K → Bool
  pub beq_iff : (a b : K) → (beq a b ≡ true) ↔ (a ≡ b)

instance abbrev pub text_key : Key Bytes
text_key = record { beq = text_eq; blt = text_lt; beq_iff = text_eq_iff }

instance abbrev pub int_key : Key ℤ
int_key = record { beq = int_eq; blt = int_lt; beq_iff = int_eq_iff }

abbrev pub Map {ℓ κ} : Type ℓ → Type κ → Type (ℓ ⊔ κ)
Map K V = List (K × V)

module _ {ℓ κ} {K : Type ℓ} {V : Type κ} ⦃o : Key K⦄ where
  -- `find`, and `at` on a key that is there.
  unfoldable pub find : K → Map K V → Option V
  find k [] = none
  find k ((j, v) ∷ m) = if o.beq j k then some v else find k m

  -- `m[k] = v`.
  unfoldable pub assign : K → V → Map K V → Map K V
  assign k v [] = (k, v) ∷ []
  assign k v ((j, w) ∷ m) =
      if o.beq j k
      then (k, v) ∷ m
      else if o.blt k j
      then (k, v) ∷ (j, w) ∷ m
      else (j, w) ∷ assign k v m

  -- `m.erase(k)`.
  unfoldable pub erase : K → Map K V → Map K V
  erase k [] = []
  erase k ((j, v) ∷ m) = if o.beq j k then erase k m else (j, v) ∷ erase k m

  pub find-assign :
      (k j : K) (v : V) (m : Map K V)
      → find j (assign k v m) ≡ (if o.beq k j then some v else find j m)
  unfolding find assign
  find-assign k j v [] = refl
  find-assign k j v ((i, w) ∷ m) =
      ground (arith, o.beq_iff k j, o.beq_iff i k, o.beq_iff i j, find-assign k j v m)

  pub find-erase :
      (k j : K) (m : Map K V) → find j (erase k m) ≡ (if o.beq k j then none else find j m)
  unfolding find erase
  find-erase k j [] = ground arith
  find-erase k j ((i, w) ∷ m) =
      ground (arith, o.beq_iff k j, o.beq_iff i k, o.beq_iff i j, find-erase k j m)

  -- `m.insert({k, v})` leaves an entry that is there.
  unfoldable pub insert : K → V → Map K V → Map K V
  insert k v m = elim (find k m) [ none ↦ assign k v m | some w ↦ m ]

  pub find-insert :
      (k j : K) (v : V) (m : Map K V)
      → find k m ≡ none
      → find j (insert k v m) ≡ (if o.beq k j then some v else find j m)
  unfolding insert
  find-insert k j v m h = rw (insert, h) (find-assign k j v m)

module _ {ℓ κ} {K : Type ℓ} {V : Type κ} ⦃o : Key K⦄ where
  -- What is there stays there.
  pub find-insert_keeps :
      (k j : K) (v w : V) (m : Map K V) → find j m ≡ some w → find j (insert k v m) ≡ some w
  unfolding insert
  find-insert_keeps k j v w m h = elim (Option-cases (find k m)) [
    | inl e ↦ elim (Bool-cases (o.beq k j)) [
      | inl eq ↦
          let same : k ≡ j = (o.beq_iff k j).0 eq in let gone : find j m ≡ none = rw same at e in cc
      | inr ne ↦ find-insert k j v m e ∙ rw ne h
    ]
    | inr (x, e) ↦ rw (insert, e) h
  ]

  pub find-insert_self : (k : K) (v : V) (m : Map K V) → (w : V) × (find k (insert k v m) ≡ some w)
  unfolding insert
  find-insert_self k v m = elim (Option-cases (find k m)) [
    | inl e ↦ (v, find-insert k k v m e ∙ rw ((o.beq_iff k k).1 refl))
    | inr (x, e) ↦ (x, rw (insert, e) e)
  ]

pub find-map {ℓ κ ν} :
    {K : Type ℓ} {V : Type κ} {W : Type ν} ⦃o : Key K⦄ (f : V → W) (k : K) (m : Map K V)
    → find k (map (λ entry. (entry.0, f entry.1)) m) ≡ Option.map f (find k m)
unfolding find
find-map f k [] = refl
find-map ⦃o⦄ f k ((j, v) ∷ m) = elim (Bool-cases (o.beq j k)) [
  | inl e ↦ rw (find, e)
  | inr e ↦ rw (find, e) (find-map f k m)
]

-- The second of two assignments counts.
pub assign-assign {ℓ κ} :
    {K : Type ℓ} {V : Type κ} ⦃o : Key K⦄ (k : K) (v w : V) (m : Map K V)
    → assign k v (assign k w m) ≡ assign k v m
unfolding assign
assign-assign ⦃o⦄ k v w [] = let same = (o.beq_iff k k).1 refl in rw (assign, same)
assign-assign ⦃o⦄ k v w ((j, x) ∷ m) =
    let same = (o.beq_iff k k).1 refl in
    elim (Bool-cases (o.beq j k)) [
      | inl e ↦ rw (assign, e, same)
      | inr e ↦ elim (Bool-cases (o.blt k j)) [
        | inl less ↦ rw (assign, e, less, same)
        | inr more ↦
            let first : assign k w ((j, x) ∷ m) ≡ (j, x) ∷ assign k w m = rw (assign, e, more) in
            let second : assign k v ((j, x) ∷ assign k w m) ≡ (j, x) ∷ assign k v (assign k w m) =
              rw (assign, e, more) in
            let direct : assign k v ((j, x) ∷ m) ≡ (j, x) ∷ assign k v m = rw (assign, e, more) in
            ap (assign k v) first ∙ second ∙ ap (◌∷◌ (j, x)) (assign-assign k v w m) ∙ sym direct
      ]
    ]
