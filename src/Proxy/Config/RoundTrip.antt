-- ===== src/Proxy/Config/RoundTrip.antt =====
-- A whole configuration that is written as a file and read back.
use micro_business_server.Base.{List, [], ◌∷◌, ◌++◌, some, ◌≡◌, refl, sym, ap, ◌∙◌, map, append-nil}
use micro_business_server.Base.Except.{ok}
use micro_business_server.Base.Int.{ℤ, pos}
use micro_business_server.Base.Map.{text_key}
use micro_business_server.Base.Text.{codes}
use micro_business_server.Proxy.Config.Entries.{
  listen-Reads, server_name-Reads, close_server-Reads, thread_num-Reads, que_size-Reads,
  open_server-Reads,
}
use micro_business_server.Proxy.Config.States.{
  setting, closing, server_opening, outside, within_server, with_locations,
}
use micro_business_server.Proxy.Config.Printing.{Line, line_text, lines_from-print_lines}
use micro_business_server.Proxy.Config.Reading.{Reads, Reads-append}
use micro_business_server.Proxy.Config.{Parser, parse_lines, parse, new_parser, lines_from}
use micro_business_server.Proxy.InetAddress.{to_string}
use micro_business_server.Proxy.Config.Site.{
  Site, locations_lines, upstreams_lines, located, streamed, site_lines, print_site, IsSite, Says,
}
use micro_business_server.Proxy.Config.BlockEntries.{
  with_upstreams, locations_lines-Reads, upstreams_lines-Reads,
}

site_lines-Reads :
    (s : Site) (p : Parser)
    → IsSite s
    → p.server.locations ≡ []
    → p.upstreams ≡ []
    → (q : Parser) × Reads (outside p) (site_lines s) (outside q) × Says s q
site_lines-Reads s p h no_locations no_upstreams =
    let p1 : Parser = record p { thread_num = pos s.thread_num } in
    let p2 : Parser = record p1 { que_size = pos s.que_size } in
    let p3 : Parser = record p2 { server = record p2.server { listen = pos s.listen } } in
    let p4 : Parser = record p3 { server = record p3.server { server_name = s.server_name } } in
    let (c, with_locations_read) =
      locations_lines-Reads s.locations p4 (rw no_locations h.locations) in
    let p5 : Parser = record (with_locations (located s.locations p4.server.locations) p4) {
      cur_location = c;
    } in
    let (d, with_upstreams_read) =
      upstreams_lines-Reads s.upstreams p5 (rw no_upstreams h.upstreams) in
    let q : Parser = record (with_upstreams (streamed s.upstreams p5.upstreams) p5) {
      cur_upstream = d;
    } in
    let tail : List Line = closing ∷ upstreams_lines s.upstreams in
    let body : List Line = locations_lines s.locations ++ tail in
    let named : List Line = setting (codes "server_name") s.server_name ∷ body in
    let block : List Line = setting (codes "listen") (to_string s.listen) ∷ named in
    let rest : List Line = server_opening ∷ block in
    let numbers : List Line = setting (codes "queSize") (to_string s.que_size) ∷ rest in
    let closed =
      Reads-append (within_server p5) (outside p5) (outside q) (closing ∷ [])
        (upstreams_lines s.upstreams) (close_server-Reads p5) with_upstreams_read in
    let from_locations =
      Reads-append (within_server p4) (within_server p5) (outside q) (locations_lines s.locations)
        tail with_locations_read closed in
    let from_name =
      Reads-append (within_server p3) (within_server p4) (outside q)
        (setting (codes "server_name") s.server_name ∷ []) body
        (server_name-Reads p3 s.server_name h.server_name) from_locations in
    let from_listen =
      Reads-append (within_server p2) (within_server p3) (outside q)
        (setting (codes "listen") (to_string s.listen) ∷ []) named
        (listen-Reads p2 s.listen h.listen) from_name in
    let from_server =
      Reads-append (outside p2) (within_server p2) (outside q) (server_opening ∷ []) block
        (open_server-Reads p2) from_listen in
    let from_size =
      Reads-append (outside p1) (outside p2) (outside q)
        (setting (codes "queSize") (to_string s.que_size) ∷ []) rest
        (que_size-Reads p1 s.que_size h.que_size) from_server in
    (
      q,
      Reads-append (outside p) (outside p1) (outside q)
          (setting (codes "threadNum") (to_string s.thread_num) ∷ []) numbers
          (thread_num-Reads p s.thread_num h.thread_num) from_size,
      record {
        thread_num = refl;
        que_size = refl;
        listen = refl;
        server_name = refl;
        locations = rw no_locations refl;
        upstreams = rw no_upstreams refl;
      },
    )

-- A configuration that is written as a file is accepted, and the parser then holds the numbers, the
-- server with its locations, and the upstreams with their servers that were written. The names must
-- be words without a comment sign, the numbers must fit an `int`, no location or upstream may be
-- named twice, and an address of a server has its first colon in front of the port.
pub parse-print_site :
    (s : Site) (listen thread_num que_size : ℤ)
    → IsSite s
    → (q : Parser) × (parse (new_parser listen thread_num que_size) (some (print_site s)) ≡ ok q)
      × Says s q
unfolding parse parse_lines print_site
parse-print_site s listen thread_num que_size h =
    let p = new_parser listen thread_num que_size in
    let (q, (lines, leads), says) = site_lines-Reads s p h refl refl in
    let (v, is) = leads [] [] in
    let read : parse_lines p [] (lines_from [] (print_site s)) ≡ ok (outside q) =
      ap (parse_lines p []) (
        lines_from-print_lines (site_lines s) lines
        ∙ sym (append-nil (map line_text (site_lines s))))
      ∙ is in
    (
      outside q,
      rw (parse, read),
      record {
        thread_num = says.thread_num;
        que_size = says.que_size;
        listen = says.listen;
        server_name = says.server_name;
        locations = says.locations;
        upstreams = says.upstreams;
      },
    )
