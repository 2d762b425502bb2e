-- ===== src/Proxy/Config/Text.antt =====
-- proxy_server/config.h: the lines of the file, `trim`, and the words of a line.
use micro_business_server.Base.{
  ℕ, ◌+◌, ◌-◌, Bool, not, ◌||◌, List, [], ◌∷◌, ◌++◌, none, some, ◌==◌, if◌then◌else◌, length, drop,
}
use micro_business_server.Base.Except.{is_blank}
use micro_business_server.Base.Map.{text_key}
use micro_business_server.Base.Text.{Bytes, find_first, find_last, substr}

-- " \t\n\r"
abbrev pub is_trimmed : ℕ → Bool
is_trimmed c = c == 32 || c == 9 || c == 10 || c == 13

abbrev pub is_comment : ℕ → Bool
is_comment c = c == b'#' || c == b';'

-- The part of `trim` behind the search for `first`.
unfoldable pub trim_from : Bytes → ℕ → Bytes
trim_from str first = elim (find_first is_comment str) [
  | some note ↦ substr str first (note - first)
  | none ↦ elim (find_last (λ c. not (is_trimmed c || c == b'#')) str (length str - 1)) [
    | some last ↦ substr str first (last - first + 1)
    | none ↦ drop first str
  ]
]

unfoldable pub trim : Bytes → Bytes
trim str = elim (find_first (λ c. not (is_trimmed c)) str) [
  | none ↦ []
  | some first ↦ trim_from str first
]

-- The words of a line. The first argument is the word that is being read.
unfoldable pub words_from : Bytes → Bytes → List Bytes
words_from [] [] = []
words_from (x ∷ word) [] = (x ∷ word) ∷ []
words_from [] (c ∷ s) = words_from (if is_blank c then [] else c ∷ []) s
words_from (x ∷ word) (c ∷ s) =
    let last = words_from [] s in
    let more = words_from (x ∷ word ++ c ∷ []) s in if is_blank c then (x ∷ word) ∷ last else more

unfoldable pub words : Bytes → List Bytes
words s = words_from [] s

-- `iss >> word`: at the end of the stream the variable keeps its value.
abbrev pub next_word : Bytes → List Bytes → Bytes
next_word word [] = word
next_word word (w ∷ ws) = w

abbrev pub behind : List Bytes → List Bytes
behind [] = []
behind (w ∷ ws) = ws

-- The lines that `getline` reads; a last line without its end counts if it is not empty.
unfoldable pub lines_from : Bytes → Bytes → List Bytes
lines_from [] [] = []
lines_from (x ∷ line) [] = (x ∷ line) ∷ []
lines_from line (c ∷ s) =
    let ended = lines_from [] s in
    let longer = lines_from (line ++ c ∷ []) s in if c == b'\n' then line ∷ ended else longer
