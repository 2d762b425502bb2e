-- ===== src/Proxy/Config/Spaced.antt =====
-- Words with blanks between them, and the words that are read from such a line.
use micro_business_server.Base.{
  ℕ, Bool, true, false, not, ◌||◌, List, [], ◌∷◌, ◌++◌, ◌≡◌, ◌≢◌, refl, ap, ◌∙◌, arith, All,
  append_assoc, append-nil,
}
use micro_business_server.Base.Except.{is_blank}
use micro_business_server.Base.Text.{Bytes}
use micro_business_server.Proxy.Config.{is_comment, words_from, words}

-- A byte of a word: no blank, and no byte that starts a comment.
abbrev pub is_plain : ℕ → Bool
is_plain c = not (is_blank c || is_comment c)

pub record IsWord (w : Bytes) : Type 0 where
  pub ne_nil : w ≢ []
  pub plain : All (λ c. is_plain c ≡ true) w

-- Words with one blank between them.
abbrev pub spaced : Bytes → List Bytes → Bytes
spaced w [] = w
spaced w (v ∷ ws) = w ++ b' ' ∷ spaced v ws

words_from-blank :
    (word w : Bytes) (s : Bytes)
    → All (λ c. is_plain c ≡ true) w
    → (word ++ w) ≢ []
    → words_from word (w ++ b' ' ∷ s) ≡ (word ++ w) ∷ words_from [] s
unfolding words_from
words_from-blank [] [] s h ne = absurd (ne refl)
words_from-blank [] (c ∷ w) s h ne =
    let blank : is_blank c ≡ false = ground (arith, h.0) in
    rw (words_from, blank) (words_from-blank (c ∷ []) w s h.1 (λ e. cc))
words_from-blank (x ∷ word) [] s h ne = rw (append-nil word)
words_from-blank (x ∷ word) (c ∷ w) s h ne =
    let blank : is_blank c ≡ false = ground (arith, h.0) in
    rw (words_from, blank)
      (words_from-blank (x ∷ word ++ c ∷ []) w s h.1 (λ e. cc)
        ∙ ap (λ t. (x ∷ t) ∷ words_from [] s) (append_assoc word (c ∷ []) w))

words_from-end :
    (word w : Bytes)
    → All (λ c. is_plain c ≡ true) w
    → (word ++ w) ≢ []
    → words_from word w ≡ (word ++ w) ∷ []
unfolding words_from
words_from-end [] [] h ne = absurd (ne refl)
words_from-end [] (c ∷ w) h ne =
    let blank : is_blank c ≡ false = ground (arith, h.0) in
    rw (words_from, blank) (words_from-end (c ∷ []) w h.1 (λ e. cc))
words_from-end (x ∷ word) [] h ne = rw (append-nil word)
words_from-end (x ∷ word) (c ∷ w) h ne =
    let blank : is_blank c ≡ false = ground (arith, h.0) in
    rw (words_from, blank)
      (words_from-end (x ∷ word ++ c ∷ []) w h.1 (λ e. cc)
        ∙ ap (λ t. (x ∷ t) ∷ []) (append_assoc word (c ∷ []) w))

-- The words of a line are the words that it was written from.
pub words-spaced :
    (w : Bytes) (ws : List Bytes) → IsWord w → All IsWord ws → words (spaced w ws) ≡ w ∷ ws
unfolding words
words-spaced w [] h all = words_from-end [] w h.plain h.ne_nil
words-spaced w (v ∷ ws) h all =
    words_from-blank [] w (spaced v ws) h.plain h.ne_nil
    ∙ ap (◌∷◌ w) (words-spaced v ws all.0 all.1)
