-- ===== src/Proxy/Config/Trimming.antt =====
-- What `trim` does to a line that is written from words.
use micro_business_server.Base.{
  ℕ, zero, suc, ◌+◌, ◌-◌, Bool, true, false, not, ◌||◌, List, [], ◌∷◌, ◌++◌, none, some, ◌≡◌, ◌≢◌,
  refl, sym, ap, ◌∙◌, arith, ◌==◌, length, All, All-append, append-nil,
}
use micro_business_server.Base.Positions.{take-front, take_whole}
use micro_business_server.Base.Search.{find_first-append}
use micro_business_server.Base.Text.{Bytes, find_first, find_last, at}
use micro_business_server.Proxy.Config.{is_trimmed, is_comment, trim_from, trim}
use micro_business_server.Proxy.Config.Spaced.{is_plain, IsWord, spaced}

-- The bytes of a line: they start no comment and end no line.
abbrev pub IsInside : ℕ → Type 0
IsInside c = (is_comment c ≡ false) × ((c == b'\n') ≡ false)

word-IsInside : (w : Bytes) → All (λ c. is_plain c ≡ true) w → All IsInside w
word-IsInside [] h = tt
word-IsInside (c ∷ w) h = ((ground (arith, h.0), ground (arith, h.0)), word-IsInside w h.1)

pub spaced-IsInside :
    (w : Bytes) (ws : List Bytes) → IsWord w → All IsWord ws → All IsInside (spaced w ws)
spaced-IsInside w [] h all = word-IsInside w h.plain
spaced-IsInside w (v ∷ ws) h all =
    All-append IsInside w (b' ' ∷ spaced v ws) (word-IsInside w h.plain)
      ((refl, refl), spaced-IsInside v ws all.0 all.1)

no_comment : (s : Bytes) → All IsInside s → All (λ c. is_comment c ≡ false) s
no_comment [] h = tt
no_comment (c ∷ s) h = (h.0.0, no_comment s h.1)

find_first-none : (p : ℕ → Bool) (s : Bytes) → All (λ c. p c ≡ false) s → find_first p s ≡ none
unfolding find_first
find_first-none p [] h = refl
find_first-none p (c ∷ s) h = rw (h.0, find_first-none p s h.1)

-- A line starts with a byte of a word.
starts_plain :
    (w : Bytes) (ws : List Bytes) (t : Bytes)
    → IsWord w
    → find_first (λ c. not (is_trimmed c)) (spaced w ws ++ t) ≡ some 0
unfolding find_first
starts_plain [] ws t h = absurd (h.ne_nil refl)
starts_plain (c ∷ w) [] t h =
    let keeps : is_trimmed c ≡ false = ground (arith, h.plain.0) in rw (find_first, keeps)
starts_plain (c ∷ w) (v ∷ ws) t h =
    let keeps : is_trimmed c ≡ false = ground (arith, h.plain.0) in rw (find_first, keeps)

-- `trim` takes the semicolon away, with all that is behind it.
pub trim-ended :
    (w : Bytes) (ws : List Bytes) (t : Bytes)
    → IsWord w
    → All IsWord ws
    → trim (spaced w ws ++ b';' ∷ t) ≡ spaced w ws
unfolding trim trim_from
trim-ended w ws t h all =
    let note =
      find_first-append is_comment (spaced w ws) b';' t (no_comment _ (spaced-IsInside w ws h all))
        refl in
    rw (trim, starts_plain w ws (b';' ∷ t) h, trim_from, note)
      (take-front (spaced w ws) (b';' ∷ t) (length (spaced w ws) - 0) (omega arith))

-- The last byte passes.
abbrev EndsWith : (ℕ → Bool) → Bytes → Type 0
EndsWith p [] = ⊥
EndsWith p (c ∷ []) = p c ≡ true
EndsWith p (c ∷ d ∷ s) = EndsWith p (d ∷ s)

at-EndsWith : (p : ℕ → Bool) (s : Bytes) (n : ℕ) → length s ≡ suc n → EndsWith p s → at p s n ≡ true
at-EndsWith p [] n e h = absurd h
at-EndsWith p (c ∷ []) zero e h = h
at-EndsWith p (c ∷ []) (suc n) e h = absurd (omega (arith, e))
at-EndsWith p (c ∷ d ∷ s) zero e h = absurd (omega (arith, e))
at-EndsWith p (c ∷ d ∷ s) (suc n) e h = at-EndsWith p (d ∷ s) n (omega (arith, e)) h

EndsWith-append : (p : ℕ → Bool) (s t : Bytes) → EndsWith p t → EndsWith p (s ++ t)
EndsWith-append p [] t h = h
EndsWith-append p (c ∷ []) [] h = absurd h
EndsWith-append p (c ∷ []) (d ∷ t) h = h
EndsWith-append p (c ∷ d ∷ s) t h = EndsWith-append p (d ∷ s) t h

abbrev is_end : ℕ → Bool
is_end c = not (is_trimmed c || c == b'#')

word-EndsWith : (w : Bytes) → w ≢ [] → All (λ c. is_plain c ≡ true) w → EndsWith is_end w
word-EndsWith [] ne h = absurd (ne refl)
word-EndsWith (c ∷ []) ne h = ground (arith, h.0)
word-EndsWith (c ∷ d ∷ w) ne h = word-EndsWith (d ∷ w) (λ e. cc) h.1

spaced-EndsWith :
    (w : Bytes) (ws : List Bytes) → IsWord w → All IsWord ws → EndsWith is_end (spaced w ws)
spaced-EndsWith w [] h all = word-EndsWith w h.ne_nil h.plain
spaced-EndsWith w (v ∷ ws) h all =
    EndsWith-append is_end w (b' ' ∷ spaced v ws)
      (EndsWith-append is_end (b' ' ∷ []) (spaced v ws) (spaced-EndsWith v ws all.0 all.1))

find_last-here : (p : ℕ → Bool) (s : Bytes) (i : ℕ) → at p s i ≡ true → find_last p s i ≡ some i
unfolding find_last
find_last-here p s zero h = rw h
find_last-here p s (suc i) h = rw h

long : (s : Bytes) → EndsWith is_end s → length s ≡ suc (length s - 1)
long [] h = absurd h
long (c ∷ s) h = omega arith

-- A line without a comment is left as it is.
pub trim-spaced :
    (w : Bytes) (ws : List Bytes) → IsWord w → All IsWord ws → trim (spaced w ws) ≡ spaced w ws
unfolding trim trim_from
trim-spaced w ws h all =
    let s = spaced w ws in
    let starts : find_first (λ c. not (is_trimmed c)) s ≡ some 0 =
      ap (find_first (λ c. not (is_trimmed c))) (sym (append-nil s)) ∙ starts_plain w ws [] h in
    let note = find_first-none is_comment s (no_comment s (spaced-IsInside w ws h all)) in
    let last = find_last-here is_end s (length s - 1) (
      at-EndsWith is_end s (length s - 1) (long s (spaced-EndsWith w ws h all))
        (spaced-EndsWith w ws h all)) in
    rw (trim, starts, trim_from, note, last) (take_whole (length s - 1 - 0 + 1) s (omega arith))
