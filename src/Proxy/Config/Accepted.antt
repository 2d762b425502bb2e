-- ===== src/Proxy/Config/Accepted.antt =====
-- What `parse` accepts.
use micro_business_server.Base.{[], Option, none, some, ◌≡◌, arith}
use micro_business_server.Base.Except.{ok, first_value}
use micro_business_server.Base.Text.{Bytes}
use micro_business_server.Proxy.Config.{
  Parser, parse, parse_lines, finished, lines_from, begain, line_ok,
}

finished-ok :
    (p q : Parser)
    → finished p ≡ ok q
    → (p ≡ q) × (p.check_state ≡ begain) × (p.line_state ≡ line_ok)
finished-ok p q h = ground arith

-- The state behind the last line of the file; of a file that cannot be opened, the first state.
abbrev pub IsRead : Parser → Parser → Option Bytes → Type 0
IsRead p q none = p ≡ q
IsRead p q (some content) = parse_lines p [] (lines_from [] content) ≡ ok q

-- A file that is accepted ends outside every block, with no bad line: the state is the one behind
-- its last line. Where a file that cannot be opened is accepted, the parser is as it was.
pub parse-accepts :
    (p q : Parser) (file : Option Bytes)
    → parse p file ≡ ok q
    → (q.check_state ≡ begain) × (q.line_state ≡ line_ok) × IsRead p q file
unfolding parse
parse-accepts p q none h =
    let (same, state, line) = finished-ok p q h in (rw same at state, rw same at line, same)
parse-accepts p q (some content) h =
    let (r, done, here) = first_value finished (parse_lines p [] (lines_from [] content)) h in
    let (same, state, line) = finished-ok r q done in
    (rw same at state, rw same at line, rw same at here)
