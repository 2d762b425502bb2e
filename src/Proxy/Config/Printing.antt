-- ===== src/Proxy/Config/Printing.antt =====
-- Lines of a configuration file that are written from words, and how they are read.
use micro_business_server.Base.{
  Bool, false, List, [], ◌∷◌, ◌++◌, ◌≡◌, refl, ap, ◌∙◌, ◌==◌, if◌then◌else◌, All, map, Bool-cases,
  inl, inr, All-append, append_assoc, append-nil,
}
use micro_business_server.Base.Text.{Bytes}
use micro_business_server.Proxy.Config.{trim, lines_from}
use micro_business_server.Proxy.Config.Spaced.{IsWord, spaced}
use micro_business_server.Proxy.Config.Trimming.{IsInside, spaced-IsInside, trim-ended, trim-spaced}

-- A line that is written: its words, and whether a semicolon ends it.
pub record Line : Type 0 where
  pub first : Bytes
  pub others : List Bytes
  pub ended : Bool

abbrev pub line_text : Line → Bytes
line_text l = spaced l.first l.others ++ (if l.ended then b';' ∷ [] else [])

abbrev pub print_lines : List Line → Bytes
print_lines [] = []
print_lines (l ∷ ls) = line_text l ++ b'\n' ∷ print_lines ls

pub record IsLine (l : Line) : Type 0 where
  pub first : IsWord l.first
  pub others : All IsWord l.others

pub trim-line_text : (l : Line) → IsLine l → trim (line_text l) ≡ spaced l.first l.others
trim-line_text l h = elim (Bool-cases l.ended) [
  | inl e ↦ rw e (trim-ended l.first l.others [] h.first h.others)
  | inr e ↦
      rw (e, append-nil (spaced l.first l.others)) (trim-spaced l.first l.others h.first h.others)
]

lines_from-line :
    (line w s : Bytes)
    → All (λ c. (c == b'\n') ≡ false) w
    → lines_from line (w ++ b'\n' ∷ s) ≡ (line ++ w) ∷ lines_from [] s
unfolding lines_from
lines_from-line [] [] s h = refl
lines_from-line (x ∷ line) [] s h = rw (append-nil line)
lines_from-line [] (c ∷ w) s h = rw (lines_from, h.0) (lines_from-line (c ∷ []) w s h.1)
lines_from-line (x ∷ line) (c ∷ w) s h =
    rw (lines_from, h.0)
      (lines_from-line (x ∷ line ++ c ∷ []) w s h.1
        ∙ ap (λ t. (x ∷ t) ∷ lines_from [] s) (append_assoc line (c ∷ []) w))

no_newline : (s : Bytes) → All IsInside s → All (λ c. (c == b'\n') ≡ false) s
no_newline [] h = tt
no_newline (c ∷ s) h = (h.0.1, no_newline s h.1)

line_text-one : (l : Line) → IsLine l → All (λ c. (c == b'\n') ≡ false) (line_text l)
line_text-one l h =
    All-append (λ c. (c == b'\n') ≡ false) (spaced l.first l.others)
      (if l.ended then b';' ∷ [] else [])
      (no_newline _ (spaced-IsInside l.first l.others h.first h.others))
      (elim (Bool-cases l.ended) [ inl e ↦ rw e (refl, tt) | inr e ↦ rw e tt ])

-- The lines of the text are the lines that it was written from.
pub lines_from-print_lines :
    (ls : List Line) → All IsLine ls → lines_from [] (print_lines ls) ≡ map line_text ls
lines_from-print_lines [] h = unfold lines_from in refl
lines_from-print_lines (l ∷ ls) h =
    lines_from-line [] (line_text l) (print_lines ls) (line_text-one l h.0)
    ∙ ap (◌∷◌ (line_text l)) (lines_from-print_lines ls h.1)
