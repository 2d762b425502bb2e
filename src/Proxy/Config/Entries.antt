-- ===== src/Proxy/Config/Entries.antt =====
-- Each kind of line, written and parsed.
use micro_business_server.Base.{ℕ, ◌^◌, ◌<◌, [], ◌∷◌, some, ◌≡◌, refl}
use micro_business_server.Base.Int.{pos}
use micro_business_server.Base.Map.{find, insert, assign, text_key}
use micro_business_server.Base.Text.{Bytes, codes}
use micro_business_server.Proxy.Config.Spaced.{IsWord}
use micro_business_server.Proxy.Config.Reading.{Reads, Reads-line}
use micro_business_server.Proxy.Config.{
  Parser, Location, word_loop, server_round, location_round, upstream_round, parse_begain,
  parse_bracket,
}
use micro_business_server.Proxy.InetAddress.Decimal.{stoi-to_string}
use micro_business_server.Proxy.InetAddress.{to_string}
use micro_business_server.Proxy.Config.States.{
  fixed-IsWord, to_string-IsWord, setting, opening, closing, outside, within_server,
  within_location, within_upstream, with_locations, closing-IsLine, server_opening,
}

pub listen-Reads :
    (p : Parser) (n : ℕ)
    → n < 2 ^ 31
    → Reads
        (within_server p)
        (setting (codes "listen") (to_string n) ∷ [])
        (within_server (record p { server = record p.server { listen = pos n } }))
unfolding word_loop server_round
listen-Reads p n lt =
    Reads-line (within_server p)
      (within_server (record p { server = record p.server { listen = pos n } }))
      (setting (codes "listen") (to_string n))
      (record { first = fixed-IsWord b'l' (codes "isten") refl; others = (to_string-IsWord n, tt) })
      (λ word. (word, rw (word_loop, server_round, stoi-to_string n lt)))

pub server_name-Reads :
    (p : Parser) (name : Bytes)
    → IsWord name
    → Reads
        (within_server p)
        (setting (codes "server_name") name ∷ [])
        (within_server (record p { server = record p.server { server_name = name } }))
unfolding word_loop server_round
server_name-Reads p name h =
    Reads-line (within_server p)
      (within_server (record p { server = record p.server { server_name = name } }))
      (setting (codes "server_name") name)
      (record { first = fixed-IsWord b's' (codes "erver_name") refl; others = (h, tt) })
      (λ word. (word, refl))

pub location-Reads :
    (p : Parser) (id : Bytes)
    → IsWord id
    → Reads (within_server p) (opening (codes "location") id ∷ []) (
        within_location
          (record (with_locations
            (insert id (record { id = id; proxy_pass = [] }) p.server.locations)
            p) { cur_location = id }))
unfolding word_loop server_round parse_bracket
location-Reads p id h =
    Reads-line (within_server p) _ (opening (codes "location") id)
      (record {
        first = fixed-IsWord b'l' (codes "ocation") refl;
        others = (h, (fixed-IsWord b'{' [] refl, tt));
      })
      (λ word. (word, refl))

pub proxy_pass-Reads :
    (p : Parser) (old : Location) (pass : Bytes)
    → IsWord pass
    → find p.cur_location p.server.locations ≡ some old
    → Reads (within_location p) (setting (codes "proxy_pass") pass ∷ []) (
        within_location (
          with_locations
            (assign p.cur_location (record old { proxy_pass = pass }) p.server.locations)
            p))
unfolding word_loop location_round
proxy_pass-Reads p old pass h there =
    Reads-line (within_location p) _ (setting (codes "proxy_pass") pass)
      (record { first = fixed-IsWord b'p' (codes "roxy_pass") refl; others = (h, tt) })
      (λ word. (word, rw (word_loop, location_round, there)))

pub close_location-Reads : (p : Parser) → Reads (within_location p) (closing ∷ []) (within_server p)
unfolding word_loop location_round
close_location-Reads p =
    Reads-line (within_location p) _ closing closing-IsLine (λ word. (word, refl))

pub close_server-Reads : (p : Parser) → Reads (within_server p) (closing ∷ []) (outside p)
unfolding word_loop server_round
close_server-Reads p = Reads-line (within_server p) _ closing closing-IsLine (λ word. (word, refl))

pub close_upstream-Reads : (p : Parser) → Reads (within_upstream p) (closing ∷ []) (outside p)
unfolding word_loop upstream_round
close_upstream-Reads p =
    Reads-line (within_upstream p) _ closing closing-IsLine (λ word. (word, refl))

pub thread_num-Reads :
    (p : Parser) (n : ℕ)
    → n < 2 ^ 31
    → Reads
        (outside p)
        (setting (codes "threadNum") (to_string n) ∷ [])
        (outside (record p { thread_num = pos n }))
unfolding parse_begain
thread_num-Reads p n lt =
    Reads-line (outside p) (outside (record p { thread_num = pos n }))
      (setting (codes "threadNum") (to_string n))
      (record {
        first = fixed-IsWord b't' (codes "hreadNum") refl;
        others = (to_string-IsWord n, tt);
      })
      (λ word. (to_string n, rw (parse_begain, stoi-to_string n lt)))

pub que_size-Reads :
    (p : Parser) (n : ℕ)
    → n < 2 ^ 31
    → Reads
        (outside p)
        (setting (codes "queSize") (to_string n) ∷ [])
        (outside (record p { que_size = pos n }))
unfolding parse_begain
que_size-Reads p n lt =
    Reads-line (outside p) (outside (record p { que_size = pos n }))
      (setting (codes "queSize") (to_string n))
      (record {
        first = fixed-IsWord b'q' (codes "ueSize") refl;
        others = (to_string-IsWord n, tt);
      })
      (λ word. (to_string n, rw (parse_begain, stoi-to_string n lt)))

pub open_server-Reads : (p : Parser) → Reads (outside p) (server_opening ∷ []) (within_server p)
unfolding parse_begain parse_bracket
open_server-Reads p =
    Reads-line (outside p) (within_server p) server_opening
      (record {
        first = fixed-IsWord b's' (codes "erver") refl;
        others = (fixed-IsWord b'{' [] refl, tt);
      })
      (λ word. (codes "server", refl))

pub open_upstream-Reads :
    (p : Parser) (name : Bytes)
    → IsWord name
    → Reads (outside p) (opening (codes "upstream") name ∷ []) (
        within_upstream (record p {
          cur_upstream = name;
          upstreams = insert name (record { name = name; servers = [] }) p.upstreams;
        }))
unfolding parse_begain parse_bracket
open_upstream-Reads p name h =
    Reads-line (outside p) _ (opening (codes "upstream") name)
      (record {
        first = fixed-IsWord b'u' (codes "pstream") refl;
        others = (h, (fixed-IsWord b'{' [] refl, tt));
      })
      (λ word. (codes "upstream", refl))
