-- ===== src/Proxy/Config/Blocks.antt =====
-- proxy_server/config.h: a line inside a block: `parse_server`, `parse_location`, `parse_upstream`.
use micro_business_server.Base.{
  ℕ, zero, suc, ◌+◌, Bool, true, false, not, List, [], ◌∷◌, ◌++◌, none, some, ◌==◌, if◌then◌else◌,
  length, take, drop,
}
use micro_business_server.Base.Except.{Result, ok, throw, runtime_error, out_of_fuel, ◌>>=◌, stoi}
use micro_business_server.Base.Map.{find, insert, assign, text_key}
use micro_business_server.Base.Text.{Bytes, codes, text_eq, find_first}
use micro_business_server.Proxy.Config.Types.{
  LineStatus, Location, Upstream, Parser, begain, in_server, in_location, line_ok, line_bad,
}
use micro_business_server.Proxy.Config.Text.{words, next_word, behind}

-- `parse_bracket`: the flag and the result, which no caller uses.
unfoldable pub parse_bracket : List Bytes → Bool → Bool × LineStatus
parse_bracket [] bracket = (bracket, line_ok)
parse_bracket (word ∷ ws) bracket =
    if text_eq word (codes "{") then (true, line_ok) else (bracket, line_bad)

-- How a round of a `while (iss >> word)` loop ends: the next round, with the words left, or the
-- loop's exit by `break` or `return`.
pub data Round : Type 0 where
  next : Parser → List Bytes → Round
  stop : Parser → LineStatus → Round

-- A loop over the words of a line. With words left and no fuel it has not come to its end.
unfoldable pub word_loop :
    (Parser → Bytes → List Bytes → Result Round)
    → ℕ
    → Parser
    → List Bytes
    → Result (Parser × LineStatus)
word_loop round fuel p [] = ok (p, line_ok)
word_loop round zero p (w ∷ ws) = throw out_of_fuel
word_loop round (suc fuel) p (w ∷ ws) = round p w ws >>= λ r. elim r [
  | next q rest ↦ word_loop round fuel q rest
  | stop q status ↦ ok (q, status)
]

abbrev pub fail {ℓ} : {A : Type ℓ} → Bytes → Result A
fail message = throw (runtime_error message)

abbrev open_location : Parser → List Bytes → Parser
open_location p ws =
    let id = next_word [] ws in
    record p {
      check_state = in_location;
      cur_location = id;
      server = record p.server {
        locations = insert id (record { id = id; proxy_pass = [] }) p.server.locations;
      };
      location_left_bracket = (parse_bracket (behind ws) p.location_left_bracket).0;
    }

unfoldable pub server_round : Parser → Bytes → List Bytes → Result Round
server_round p word ws =
    if not p.server_left_bracket
    then (if text_eq word (codes "{")
        then ok (next (record p { server_left_bracket = true }) ws)
        else fail (codes "Expected '{' after 'server' "))
    else if text_eq word (codes "server_name")
    then ok (
        next
          (record p {
            server = record p.server { server_name = next_word p.server.server_name ws };
          })
          (behind ws))
    else if text_eq word (codes "listen")
    then (stoi (next_word word ws) >>= λ listen.
        ok (next (record p { server = record p.server { listen = listen } }) (behind ws)))
    else if text_eq word (codes "location")
    then ok (stop (open_location p ws) line_ok)
    else if text_eq word (codes "}")
    then ok (next (record p { server_left_bracket = false; check_state = begain }) ws)
    else ok (stop p line_bad)

-- `server.locations[curLocation].proxy_pass`, which makes a location where there is none.
abbrev set_proxy_pass : Parser → List Bytes → Parser
set_proxy_pass p ws =
    let old : Location = elim (find p.cur_location p.server.locations) [
      | none ↦ record { id = []; proxy_pass = [] }
      | some loc ↦ loc
    ] in
    record p {
      server = record p.server {
        locations =
            assign p.cur_location (record old { proxy_pass = next_word old.proxy_pass ws })
              p.server.locations;
      };
    }

unfoldable pub location_round : Parser → Bytes → List Bytes → Result Round
location_round p word ws =
    if not p.location_left_bracket
    then (if text_eq word (codes "{")
        then ok (next (record p { location_left_bracket = true }) ws)
        else fail (codes "Expected '{' after 'location' name"))
    else if text_eq word (codes "proxy_pass")
    then ok (next (set_proxy_pass p ws) (behind ws))
    else if text_eq word (codes "}")
    then ok (next (record p { location_left_bracket = false; check_state = in_server }) ws)
    else ok (stop p line_bad)

-- `upstreams[curUpstream].servers.push_back({ip, port})`.
abbrev pub push_server : Parser → Bytes → Bytes → Parser
push_server p ip port =
    let old : Upstream = elim (find p.cur_upstream p.upstreams) [
      | none ↦ record { name = []; servers = [] }
      | some stream ↦ stream
    ] in
    record p {
      upstreams =
          assign p.cur_upstream (record old { servers = old.servers ++ (ip, port) ∷ [] })
            p.upstreams;
    }

abbrev pub is_colon : ℕ → Bool
is_colon c = c == b':'

abbrev pub add_server : Parser → Bytes → List Bytes → Round
add_server p ip_port ws = elim (find_first is_colon ip_port) [
  | none ↦ stop p line_bad
  | some i ↦ next (push_server p (take i ip_port) (drop (i + 1) ip_port)) (behind ws)
]

unfoldable pub upstream_round : Parser → Bytes → List Bytes → Result Round
upstream_round p word ws =
    if not p.upstream_left_bracket
    then (if text_eq word (codes "{")
        then ok (next (record p { upstream_left_bracket = true }) ws)
        else fail (codes "Expected '{' after 'upstream' name"))
    else if text_eq word (codes "server")
    then ok (add_server p (next_word [] ws) ws)
    else if text_eq word (codes "}")
    then ok (next (record p { upstream_left_bracket = false; check_state = begain }) ws)
    else ok (stop p line_bad)

abbrev parse_words :
    (Parser → Bytes → List Bytes → Result Round) → Parser → Bytes → Result (Parser × LineStatus)
parse_words round p line = word_loop round (length (words line)) p (words line)

unfoldable pub parse_server : Parser → Bytes → Result (Parser × LineStatus)
parse_server = parse_words server_round

unfoldable pub parse_location : Parser → Bytes → Result (Parser × LineStatus)
parse_location = parse_words location_round

unfoldable pub parse_upstream : Parser → Bytes → Result (Parser × LineStatus)
parse_upstream = parse_words upstream_round
