-- ===== src/Proxy/SocketIo/Writing.antt =====
-- `writen`: what reaches the kernel.
use micro_business_server.Base.{
  ℕ, zero, suc, ◌+◌, ◌-◌, ◌≤◌, List, [], ◌∷◌, ◌++◌, some, ◌≡◌, refl, ap, arith, length, take, drop,
  length-drop, length-take, length-append, append_assoc, sym, ◌∙◌, none, inl, inr, Option-cases,
}
use micro_business_server.Base.Text.{Bytes}
use micro_business_server.Proxy.SocketIo.{Written, wrote, interrupted, broken, writen_loop, writen}

-- No call fails but by a signal, and none takes more bytes than it is given.
abbrev pub IsWorking : List Written → ℕ → Type 0
IsWorking [] left = Unit
IsWorking (interrupted ∷ answers) left = IsWorking answers left
IsWorking (broken ∷ answers) left = ⊥
IsWorking (wrote ret ∷ answers) left = (ret ≤ left) × IsWorking answers (left - ret)

-- The bytes that the calls take together.
abbrev pub counts : List Written → ℕ
counts [] = 0
counts (wrote ret ∷ answers) = ret + counts answers
counts (_ ∷ answers) = counts answers

take-drop : (n : ℕ) (p : Bytes) → take n p ++ drop n p ≡ p
take-drop zero p = refl
take-drop (suc n) [] = refl
take-drop (suc n) (x ∷ p) = ap (◌∷◌ x) (take-drop n p)

writen_loop-sends :
    (answers : List Written) (p : Bytes) (len left : ℕ)
    → left ≡ length p
    → IsWorking answers left
    → left ≤ counts answers
    → writen_loop answers p len left ≡ some (p, len)
unfolding writen_loop
writen_loop-sends answers [] len zero is w h = refl
writen_loop-sends answers (x ∷ p) len zero is w h = absurd (omega arith)
writen_loop-sends answers [] len (suc left) is w h = absurd (omega arith)
writen_loop-sends [] (x ∷ p) len (suc left) is w h = absurd (omega arith)
writen_loop-sends (interrupted ∷ answers) (x ∷ p) len (suc left) is w h =
    writen_loop-sends answers (x ∷ p) len (suc left) is w h
writen_loop-sends (broken ∷ answers) (x ∷ p) len (suc left) is w h = absurd w
writen_loop-sends (wrote ret ∷ answers) (x ∷ p) len (suc left) is w h =
    let rest : suc left - ret ≡ length (drop ret (x ∷ p)) =
      omega (arith, is, length-drop ret (x ∷ p)) in
    let later =
      writen_loop-sends answers (drop ret (x ∷ p)) len (suc left - ret) rest w.1
        (omega (arith, h)) in
    rw (writen_loop, later, take-drop ret (x ∷ p))

-- When no call fails but by a signal, and the calls take as many bytes as there are, the loop ends:
-- the kernel has taken exactly the text, in its order, and the result is its length.
pub writen-sends :
    (answers : List Written) (buff : Bytes)
    → IsWorking answers (length buff)
    → length buff ≤ counts answers
    → writen answers buff ≡ some (buff, length buff)
unfolding writen
writen-sends answers buff w h = writen_loop-sends answers buff (length buff) (length buff) refl w h

-- No call takes more bytes than it is given.
abbrev pub IsBounded : List Written → ℕ → Type 0
IsBounded [] left = Unit
IsBounded (interrupted ∷ answers) left = IsBounded answers left
IsBounded (broken ∷ answers) left = Unit
IsBounded (wrote ret ∷ answers) left = (ret ≤ left) × IsBounded answers (left - ret)

-- What has gone out and what has not, and how the result counts it.
abbrev IsCut : Bytes → ℕ → Bytes → ℕ → Type 0
IsCut p done out result = (lost : Bytes) × (p ≡ out ++ lost) × (result ≡ done + length out)

writen_loop-IsCut :
    (answers : List Written) (p : Bytes) (len left : ℕ) (out : Bytes) (result : ℕ)
    → left ≡ length p
    → left ≤ len
    → IsBounded answers left
    → writen_loop answers p len left ≡ some (out, result)
    → IsCut p (len - left) out result
unfolding writen_loop
writen_loop-IsCut answers p len zero out result is le b h =
    let none_out : [] ≡ out = cc in
    let whole : len ≡ result = cc in
    (p, rw (← none_out) refl, omega (arith, whole, ap length none_out))
writen_loop-IsCut [] p len (suc left) out result is le b h = cc
writen_loop-IsCut (interrupted ∷ answers) p len (suc left) out result is le b h =
    writen_loop-IsCut answers p len (suc left) out result is le b h
writen_loop-IsCut (broken ∷ answers) p len (suc left) out result is le b h =
    let none_out : [] ≡ out = cc in
    let part : len - suc left ≡ result = cc in
    (p, rw (← none_out) refl, omega (arith, part, ap length none_out))
writen_loop-IsCut (wrote ret ∷ answers) p len (suc left) out result is le b h =
    let later = writen_loop answers (drop ret p) len (suc left - ret) in
    elim (Option-cases later) [
      | inl e ↦ let crash : none ≡ some (out, result) = rw (writen_loop, e) at h in cc
      | inr ((o, r), e) ↦
          let (lost, parts, counted) =
            writen_loop-IsCut answers (drop ret p) len (suc left - ret) o r
              (omega (arith, is, length-drop ret p)) (omega arith) b.1 e in
          let same : some (take ret p ++ o, r) ≡ some (out, result) = rw (writen_loop, e) at h in
          let out_is : take ret p ++ o ≡ out = cc in
          let result_is : r ≡ result = cc in
          (
            lost,
            sym (take-drop ret p)
                ∙ ap (◌++◌ (take ret p)) parts
                ∙ sym (append_assoc (take ret p) o lost)
                ∙ ap (λ x. x ++ lost) out_is,
            omega (
              arith,
              counted,
              result_is,
              ap length (sym out_is),
              length-append (take ret p) o,
              length-take ret p (omega (arith, is, b.0)),
              b.0,
            ),
          )
    ]

-- Whenever the loop ends, the kernel has taken the front of the text, and the result is how much of
-- it: what is behind that, after a call that failed, is lost.
pub writen-cut :
    (answers : List Written) (buff out : Bytes) (result : ℕ)
    → IsBounded answers (length buff)
    → writen answers buff ≡ some (out, result)
    → (lost : Bytes) × (buff ≡ out ++ lost) × (result ≡ length out)
unfolding writen
writen-cut answers buff out result b h =
    let (lost, parts, counted) =
      writen_loop-IsCut answers buff (length buff) (length buff) out result refl (omega arith) b
        h in
    (lost, parts, omega (arith, counted))
