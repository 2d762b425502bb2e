-- ===== src/Proxy/Config.antt =====
-- proxy_server/config.h: the parser of the proxy's configuration file.
-- A string stream that is only read by `>>` into strings is the list of the words left in it.
pub mod Words
pub mod Accepted
pub mod Spaced
pub mod Trimming
pub mod Printing
pub mod Reading
pub mod States
pub mod Entries
pub mod UpstreamEntries
pub mod Site
pub mod BlockEntries
pub mod RoundTrip
mod Types
mod Text
mod Blocks
use micro_business_server.Base.{
  ℕ, zero, suc, ◌+◌, ◌-◌, Bool, true, false, not, ◌||◌, List, [], ◌∷◌, ◌++◌, Option, none, some,
  ◌==◌, if◌then◌else◌, length, take, drop,
}
use micro_business_server.Base.Except.{Result, ok, throw, runtime_error, ◌>>=◌, is_blank, stoi}
use micro_business_server.Base.Int.{ℤ}
use micro_business_server.Base.Map.{Map, find, insert, assign, text_key}
use micro_business_server.Base.Text.{Bytes, codes, text_eq, find_first, find_last, substr}
pub use micro_business_server.Proxy.Config.Types.{
  ConfigCode, LineStatus, Location, Server, Upstream, Parser, new_parser, begain, in_server,
  in_upstream, in_location, line_ok, line_bad,
}
pub use micro_business_server.Proxy.Config.Text.{is_trimmed, is_comment, next_word, behind}
unfoldable pub use micro_business_server.Proxy.Config.Text.{
  trim_from, trim, words_from, words, lines_from,
}
pub use micro_business_server.Proxy.Config.Blocks.{
  Round, fail, next, stop, is_colon, push_server, add_server,
}
unfoldable pub use micro_business_server.Proxy.Config.Blocks.{
  parse_bracket, word_loop, server_round, location_round, upstream_round, parse_server,
  parse_location, parse_upstream,
}

-- The variable `word` of `parse` lives as long as the call, so a round has it as a result.
abbrev pub Reading : Type 0
Reading = Parser × Bytes

abbrev open_upstream : Parser → List Bytes → Parser
open_upstream p ws =
    let name = next_word [] ws in
    record p {
      check_state = in_upstream;
      cur_upstream = name;
      upstreams = insert name (record { name = name; servers = [] }) p.upstreams;
      upstream_left_bracket = (parse_bracket (behind ws) p.upstream_left_bracket).0;
    }

-- `case BEGAIN`, on the first word of the line and the words behind it.
unfoldable pub parse_begain : Parser → Bytes → List Bytes → Result Reading
parse_begain p word ws =
    if text_eq word (codes "threadNum")
    then (stoi (next_word word ws) >>= λ n. ok (record p { thread_num = n }, next_word word ws))
    else if text_eq word (codes "queSize")
    then (stoi (next_word word ws) >>= λ n. ok (record p { que_size = n }, next_word word ws))
    else if text_eq word (codes "server")
    then ok (
      record p {
        check_state = in_server;
        server_left_bracket = (parse_bracket ws p.server_left_bracket).0;
      },
      word,
    )
    else if text_eq word (codes "upstream")
    then ok (open_upstream p ws, word)
    else fail (codes "expected server or upstream block")

abbrev pub with_status : Bytes → Parser × LineStatus → Result Reading
with_status word (p, status) = ok (record p { line_state = status }, word)

-- The `switch`, on a trimmed line.
unfoldable pub parse_switch : ConfigCode → Parser → Bytes → Bytes → Result Reading
parse_switch begain p word line = parse_begain p (next_word word (words line)) (behind (words line))
parse_switch in_server p word line = parse_server p line >>= with_status word
parse_switch in_location p word line = parse_location p line >>= with_status word
parse_switch in_upstream p word line = parse_upstream p line >>= with_status word

-- A round of the loop over the lines. A line that is empty, or starts with `#`, is passed over.
unfoldable pub parse_trimmed : Parser → Bytes → Bytes → Result Reading
parse_trimmed p word [] = ok (p, word)
parse_trimmed p word (c ∷ line) =
    if c == b'#' then ok (p, word) else parse_switch p.check_state p word (c ∷ line)

abbrev is_line_ok : LineStatus → Bool
is_line_ok line_ok = true
is_line_ok line_bad = false

unfoldable pub parse_lines : Parser → Bytes → List Bytes → Result Parser
parse_lines p word [] = ok p
parse_lines p word (line ∷ lines) =
    if is_line_ok p.line_state
    then (parse_trimmed p word (trim line) >>= λ r. parse_lines r.0 r.1 lines)
    else ok p

abbrev pub finished : Parser → Result Parser
finished p = elim p.line_state [
  | line_bad ↦ fail (codes "Unexpected end of configuration file")
  | line_ok ↦ elim p.check_state [
    | begain ↦ ok p
    | _ ↦ fail (codes "Unexpected end of configuration file")
  ]
]

-- `none`: the file cannot be opened, and no line is read.
unfoldable pub parse : Parser → Option Bytes → Result Parser
parse p none = finished p
parse p (some content) = parse_lines p [] (lines_from [] content) >>= λ q. finished q
