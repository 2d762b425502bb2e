-- ===== src/Proxy/Config/Reading.antt =====
-- Parsing of written lines, block by block.
use micro_business_server.Base.{
  suc, false, List, [], ◌∷◌, ◌++◌, ◌≡◌, refl, ap, ◌∙◌, arith, ◌==◌, length, All, All-append, map,
}
use micro_business_server.Base.Except.{Result, ok, ◌>>=◌}
use micro_business_server.Base.Map.{text_key}
use micro_business_server.Base.Text.{Bytes}
use micro_business_server.Proxy.Config.Printing.{Line, IsLine, line_text, trim-line_text}
use micro_business_server.Proxy.Config.Spaced.{IsWord, spaced, words-spaced}
use micro_business_server.Proxy.Config.{
  Parser, Reading, ConfigCode, begain, in_server, in_location, in_upstream, line_ok, word_loop,
  server_round, location_round, upstream_round, parse_server, parse_location, parse_upstream,
  parse_begain, parse_switch, parse_trimmed, parse_lines, with_status, words, words,
}

-- The `switch` on the words of a line.
abbrev pub switch_words : ConfigCode → Parser → Bytes → Bytes → List Bytes → Result Reading
switch_words begain p word w ws = parse_begain p w ws
switch_words in_server p word w ws =
    word_loop server_round (suc (length ws)) p (w ∷ ws) >>= with_status word
switch_words in_location p word w ws =
    word_loop location_round (suc (length ws)) p (w ∷ ws) >>= with_status word
switch_words in_upstream p word w ws =
    word_loop upstream_round (suc (length ws)) p (w ∷ ws) >>= with_status word

parse_switch-words :
    (code : ConfigCode) (p : Parser) (word line w : Bytes) (ws : List Bytes)
    → words line ≡ w ∷ ws
    → parse_switch code p word line ≡ switch_words code p word w ws
unfolding parse_switch parse_server parse_location parse_upstream
parse_switch-words begain p word line w ws h = rw (parse_switch, h)
parse_switch-words in_server p word line w ws h = rw (parse_switch, parse_server, h)
parse_switch-words in_location p word line w ws h = rw (parse_switch, parse_location, h)
parse_switch-words in_upstream p word line w ws h = rw (parse_switch, parse_upstream, h)

parse_trimmed-spaced :
    (p : Parser) (word w : Bytes) (ws : List Bytes)
    → IsWord w
    → parse_trimmed p word (spaced w ws) ≡ parse_switch p.check_state p word (spaced w ws)
unfolding parse_trimmed
parse_trimmed-spaced p word [] ws h = absurd (h.ne_nil refl)
parse_trimmed-spaced p word (c ∷ w) [] h =
    let other : (c == b'#') ≡ false = ground (arith, h.plain.0) in rw (parse_trimmed, other)
parse_trimmed-spaced p word (c ∷ w) (v ∷ ws) h =
    let other : (c == b'#') ≡ false = ground (arith, h.plain.0) in rw (parse_trimmed, other)

-- From one state the lines lead to another, whatever stands behind them.
abbrev pub Leads : Parser → List Line → Parser → Type 0
Leads p ls q =
    (word : Bytes) (more : List Bytes)
    → (v : Bytes) × (parse_lines p word (map line_text ls ++ more) ≡ parse_lines q v more)

abbrev pub Reads : Parser → List Line → Parser → Type 0
Reads p ls q = All IsLine ls × Leads p ls q

-- The state with no bad line so far.
abbrev pub good : Parser → Parser
good p = record p { line_state = line_ok }

line-Leads :
    (p q : Parser) (l : Line)
    → IsLine l
    → ((word : Bytes)
        → (v : Bytes) × (switch_words p.check_state (good p) word l.first l.others ≡ ok (q, v)))
    → Leads (good p) (l ∷ []) q
unfolding parse_lines
line-Leads p q l h switch word more =
    let (v, is) = switch word in
    (
      v,
      rw (
        parse_lines,
        trim-line_text l h,
        parse_trimmed-spaced (good p) word l.first l.others h.first,
        parse_switch-words p.check_state (good p) word (spaced l.first l.others) l.first l.others
            (words-spaced l.first l.others h.first h.others),
        is,
      ),
    )

pub Reads-line :
    (p q : Parser) (l : Line)
    → IsLine l
    → ((word : Bytes)
        → (v : Bytes) × (switch_words p.check_state (good p) word l.first l.others ≡ ok (q, v)))
    → Reads (good p) (l ∷ []) q
Reads-line p q l h switch = ((h, tt), line-Leads p q l h switch)

append-Leads :
    (p q r : Parser) (ls ms : List Line) → Leads p ls q → Leads q ms r → Leads p (ls ++ ms) r
append-Leads p q r ls ms h k word more =
    let (v, one) = h word (map line_text ms ++ more) in
    let (u, two) = k v more in (u, rest ls ms more word ∙ one ∙ two)
  where
    split :
        (ls ms : List Line) (more : List Bytes)
        → map line_text (ls ++ ms) ++ more ≡ map line_text ls ++ (map line_text ms ++ more)
    split [] ms more = refl
    split (l ∷ ls) ms more = ap (◌∷◌ (line_text l)) (split ls ms more)

    rest :
        (ls ms : List Line) (more : List Bytes) (word : Bytes)
        → parse_lines p word (map line_text (ls ++ ms) ++ more)
          ≡ parse_lines p word (map line_text ls ++ (map line_text ms ++ more))
    rest ls ms more word = ap (parse_lines p word) (split ls ms more)

pub Reads-append :
    (p q r : Parser) (ls ms : List Line) → Reads p ls q → Reads q ms r → Reads p (ls ++ ms) r
Reads-append p q r ls ms h k = (All-append IsLine ls ms h.0 k.0, append-Leads p q r ls ms h.1 k.1)
