-- ===== src/Proxy/Config/Words.antt =====
-- The loops over the words of a line, and the words that a round leaves.
use micro_business_server.Base.{
  ℕ, zero, suc, ◌≤◌, List, [], ◌∷◌, ◌≡◌, refl, arith, length, inl, inr, ◌⊎◌, ◌≢◌, ap, ◌∙◌,
}
use micro_business_server.Base.Except.{Result, ok, throw, Exception, out_of_fuel, stoi}
use micro_business_server.Base.Text.{Bytes}
use micro_business_server.Proxy.Config.{
  Parser, LineStatus, Round, next, stop, behind, word_loop, server_round, location_round,
  upstream_round, words, parse_server, next_word, parse_location, parse_upstream,
}

-- A round leaves no more words than it was given.
abbrev pub Shrinks : (Parser → Bytes → List Bytes → Result Round) → Type 0
Shrinks round =
    (p q : Parser) (w : Bytes) (ws rest : List Bytes)
    → round p w ws ≡ ok (next q rest)
    → length rest ≤ length ws

behind_le : (ws : List Bytes) → length (behind ws) ≤ length ws
behind_le [] = omega arith
behind_le (w ∷ ws) = omega arith

location_round-Shrinks : Shrinks location_round
unfolding location_round
location_round-Shrinks p q w ws rest h = ground (arith, behind_le ws)

upstream_round-Shrinks : Shrinks upstream_round
unfolding upstream_round
upstream_round-Shrinks p q w ws rest h = ground (arith, behind_le ws)

server_round-Shrinks : Shrinks server_round
unfolding server_round
server_round-Shrinks p q w ws rest h = ground (arith, behind_le ws)

-- A result that is the end of the code's loop and not of the fuel.
abbrev pub Finished {ℓ} : {A : Type ℓ} → Result A → Type ℓ
Finished r = r ≢ throw out_of_fuel

abbrev Finishing : (Parser → Bytes → List Bytes → Result Round) → Type 0
Finishing round = (p : Parser) (w : Bytes) (ws : List Bytes) → Finished (round p w ws)

stoi-Finished : (s : Bytes) → Finished (stoi s)
unfolding stoi
stoi-Finished [] h = cc
stoi-Finished (c ∷ s) h = ground (arith, stoi-Finished s)

server_round-Finished : Finishing server_round
unfolding server_round
server_round-Finished p w ws h = ground (arith, stoi-Finished (next_word w ws))

location_round-Finished : Finishing location_round
unfolding location_round
location_round-Finished p w ws h = ground arith

upstream_round-Finished : Finishing upstream_round
unfolding upstream_round
upstream_round-Finished p w ws h = ground arith

module _ (round : Parser → Bytes → List Bytes → Result Round) (shrinks : Shrinks round) where
  outcome :
      (r : Result Round)
      → ((e : Exception) × (r ≡ throw e))
        ⊎ (((q : Parser) × (status : LineStatus) × (r ≡ ok (stop q status)))
            ⊎ ((q : Parser) × (rest : List Bytes) × (r ≡ ok (next q rest))))
  outcome (throw e) = inl (e, refl)
  outcome (ok (stop q status)) = inr (inl (q, status, refl))
  outcome (ok (next q rest)) = inr (inr (q, rest, refl))

  word_loop-steady :
      (fuel more : ℕ) (p : Parser) (ws : List Bytes)
      → length ws ≤ fuel
      → length ws ≤ more
      → word_loop round fuel p ws ≡ word_loop round more p ws
  unfolding word_loop
  word_loop-steady fuel more p [] h k = refl
  word_loop-steady zero more p (w ∷ ws) h k = absurd (omega arith)
  word_loop-steady (suc fuel) zero p (w ∷ ws) h k = absurd (omega arith)
  word_loop-steady (suc fuel) (suc more) p (w ∷ ws) h k = elim (outcome (round p w ws)) [
    | inl (e, is) ↦ rw (word_loop, is)
    | inr (inl (q, status, is)) ↦ rw (word_loop, is)
    | inr (inr (q, rest, is)) ↦
        let le = shrinks p q w ws rest is in
        rw (word_loop, is)
          (word_loop-steady fuel more q rest (omega (arith, le)) (omega (arith, le)))
  ]

  word_loop-Finished :
      (finishing : Finishing round) (fuel : ℕ) (p : Parser) (ws : List Bytes)
      → length ws ≤ fuel
      → Finished (word_loop round fuel p ws)
  unfolding word_loop
  word_loop-Finished finishing fuel p [] h = λ spent. cc
  word_loop-Finished finishing zero p (w ∷ ws) h = absurd (omega arith)
  word_loop-Finished finishing (suc fuel) p (w ∷ ws) h = elim (outcome (round p w ws)) [
    | inl (e, is) ↦
        rw (word_loop, is)
          (λ spent. let same : e ≡ out_of_fuel = cc in finishing p w ws (is ∙ ap throw same))
    | inr (inl (q, status, is)) ↦ rw (word_loop, is) (λ spent. cc)
    | inr (inr (q, rest, is)) ↦
        let le = shrinks p q w ws rest is in
        rw (word_loop, is) (word_loop-Finished finishing fuel q rest (omega (arith, le)))
  ]

-- `parse_server`, `parse_location` and `parse_upstream` come to the end of their loops on every
-- line: none of them ends because the fuel is spent, and with any fuel that is at least the number
-- of words of the line the loop has the same result.
pub word_loop-ends :
    (p : Parser) (line : Bytes) (fuel : ℕ)
    → length (words line) ≤ fuel
    → Finished (parse_server p line)
      × Finished (parse_location p line)
      × Finished (parse_upstream p line)
      × (word_loop server_round fuel p (words line) ≡ parse_server p line)
      × (word_loop location_round fuel p (words line) ≡ parse_location p line)
      × (word_loop upstream_round fuel p (words line) ≡ parse_upstream p line)
unfolding parse_server parse_location parse_upstream
word_loop-ends p line fuel h =
    let n = length (words line) in
    let ws = words line in
    (
      word_loop-Finished server_round server_round-Shrinks server_round-Finished n p ws
          (omega arith),
      word_loop-Finished location_round location_round-Shrinks location_round-Finished n p ws
          (omega arith),
      word_loop-Finished upstream_round upstream_round-Shrinks upstream_round-Finished n p ws
          (omega arith),
      word_loop-steady server_round server_round-Shrinks fuel n p ws h (omega arith),
      word_loop-steady location_round location_round-Shrinks fuel n p ws h (omega arith),
      word_loop-steady upstream_round upstream_round-Shrinks fuel n p ws h (omega arith),
    )
