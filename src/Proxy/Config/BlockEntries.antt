-- ===== src/Proxy/Config/BlockEntries.antt =====
-- Whole blocks, written and parsed.
use micro_business_server.Base.{
  List, [], ◌∷◌, ◌++◌, none, some, ◌≡◌, refl, ◌∙◌, All, append_assoc, append-nil,
}
use micro_business_server.Base.Map.{
  Map, find, insert, assign, text_key, find-assign, find-insert, assign-assign,
}
use micro_business_server.Base.Text.{Bytes, codes, text_eq_iff}
use micro_business_server.Proxy.Config.Entries.{
  location-Reads, proxy_pass-Reads, close_location-Reads, close_upstream-Reads, open_upstream-Reads,
}
use micro_business_server.Proxy.Config.States.{
  setting, opening, closing, outside, within_server, within_location, within_upstream,
  with_locations, IsAddress, address_text,
}
use micro_business_server.Proxy.Config.UpstreamEntries.{server-Reads}
use micro_business_server.Proxy.Config.Spaced.{IsWord}
use micro_business_server.Proxy.Config.Reading.{Reads, Reads-append}
use micro_business_server.Proxy.Config.{Parser, Location, Upstream}
use micro_business_server.Proxy.Config.Site.{
  location_lines, locations_lines, servers_lines, upstreams_lines, located, streamed, AreLocations,
  AreUpstreams,
}

found_new :
    {V : Type 0} (k : Bytes) (v : V) (m : Map Bytes V)
    → find k m ≡ none
    → find k (insert k v m) ≡ some v
found_new k v m h = find-insert k k v m h ∙ rw ((text_eq_iff k k).1 refl)

assign_new :
    {V : Type 0} (k : Bytes) (v w : V) (m : Map Bytes V)
    → find k m ≡ none
    → assign k v (insert k w m) ≡ assign k v m
unfolding insert
assign_new k v w m h = rw (insert, h) (assign-assign k v w m)

pub location_lines-Reads :
    (p : Parser) (id pass : Bytes)
    → IsWord id
    → IsWord pass
    → find id p.server.locations ≡ none
    → Reads (within_server p) (location_lines (id, pass)) (
        within_server
          (record (with_locations
            (assign id (record { id = id; proxy_pass = pass }) p.server.locations)
            p) { cur_location = id }))
location_lines-Reads p id pass h k new =
    let w : Location = record { id = id; proxy_pass = [] } in
    let v : Location = record { id = id; proxy_pass = pass } in
    let m = p.server.locations in
    let p1 : Parser = record (with_locations (insert id w m) p) { cur_location = id } in
    let p2 : Parser = with_locations (assign id v (insert id w m)) p1 in
    let read : Reads (within_server p) (location_lines (id, pass)) (within_server p2) =
      Reads-append (within_server p) (within_location p1) (within_server p2)
        (opening (codes "location") id ∷ []) (setting (codes "proxy_pass") pass ∷ closing ∷ [])
        (location-Reads p id h)
        (Reads-append (within_location p1) (within_location p2) (within_server p2)
          (setting (codes "proxy_pass") pass ∷ []) (closing ∷ [])
          (proxy_pass-Reads p1 w pass k (found_new id w m new)) (close_location-Reads p2)) in
    rw (assign_new id v w m new) at read

pub nothing-Reads : (p : Parser) → Reads p [] p
nothing-Reads p = (tt, λ word more. (word, refl))

pub locations_lines-Reads :
    (ls : List (Bytes × Bytes)) (p : Parser)
    → AreLocations ls p.server.locations
    → (c : Bytes) × Reads (within_server p) (locations_lines ls) (
        within_server
          (record (with_locations (located ls p.server.locations) p) { cur_location = c }))
locations_lines-Reads [] p h = (p.cur_location, nothing-Reads (within_server p))
locations_lines-Reads ((id, pass) ∷ ls) p h =
    let v : Location = record { id = id; proxy_pass = pass } in
    let p1 : Parser = record (with_locations (assign id v p.server.locations) p) {
      cur_location = id;
    } in
    let (c, later) = locations_lines-Reads ls p1 h.1 in
    (
      c,
      Reads-append (within_server p) (within_server p1) _ (location_lines (id, pass))
          (locations_lines ls) (location_lines-Reads p id pass h.0.0 h.0.1 h.0.2) later,
    )

abbrev pub with_upstreams : Map Bytes Upstream → Parser → Parser
with_upstreams m p = record p { upstreams = m }

pub servers_lines-Reads :
    (ss : List (Bytes × Bytes)) (p : Parser) (u : Upstream) (m : Map Bytes Upstream)
    → All IsAddress ss
    → Reads (within_upstream (with_upstreams (assign p.cur_upstream u m) p)) (servers_lines ss) (
        within_upstream
          (with_upstreams (assign p.cur_upstream (record u { servers = u.servers ++ ss }) m) p))
servers_lines-Reads [] p u m h =
    rw (append-nil u.servers)
      (nothing-Reads (within_upstream (with_upstreams (assign p.cur_upstream u m) p)))
servers_lines-Reads ((ip, port) ∷ ss) p u m h =
    let u1 : Upstream = record u { servers = u.servers ++ (ip, port) ∷ [] } in
    let k = p.cur_upstream in
    let there : find k (assign k u m) ≡ some u =
      find-assign k k u m ∙ rw ((text_eq_iff k k).1 refl) in
    let one = server-Reads (with_upstreams (assign k u m) p) u ip port h.0 there in
    let first : Reads (within_upstream (with_upstreams (assign k u m) p))
        (setting (codes "server") (address_text (ip, port)) ∷ [])
        (within_upstream (with_upstreams (assign k u1 m) p)) =
      rw (assign-assign k u1 u m) at one in
    let all_of =
      Reads-append _ (within_upstream (with_upstreams (assign k u1 m) p)) _
        (setting (codes "server") (address_text (ip, port)) ∷ []) (servers_lines ss) first
        (servers_lines-Reads ss p u1 m h.1) in
    rw (append_assoc u.servers ((ip, port) ∷ []) ss) at all_of

insert_new :
    {V : Type 0} (k : Bytes) (w : V) (m : Map Bytes V)
    → find k m ≡ none
    → insert k w m ≡ assign k w m
unfolding insert
insert_new k w m h = rw (insert, h)

pub upstreams_lines-Reads :
    (us : List (Bytes × List (Bytes × Bytes))) (p : Parser)
    → AreUpstreams us p.upstreams
    → (c : Bytes) × Reads
        (outside p)
        (upstreams_lines us)
        (outside (record (with_upstreams (streamed us p.upstreams) p) { cur_upstream = c }))
upstreams_lines-Reads [] p h = (p.cur_upstream, nothing-Reads (outside p))
upstreams_lines-Reads ((name, ss) ∷ us) p h =
    let w : Upstream = record { name = name; servers = [] } in
    let v : Upstream = record { name = name; servers = ss } in
    let m = p.upstreams in
    let q : Parser = record p { cur_upstream = name } in
    let p1 : Parser = with_upstreams (assign name w m) q in
    let p2 : Parser = with_upstreams (assign name v m) q in
    let first : Reads (outside p) (opening (codes "upstream") name ∷ []) (within_upstream p1) =
      rw (insert_new name w m h.0.2) at (open_upstream-Reads p name h.0.0) in
    let block =
      Reads-append (within_upstream p1) (within_upstream p2) (outside p2) (servers_lines ss)
        (closing ∷ []) (servers_lines-Reads ss q w m h.0.1) (close_upstream-Reads p2) in
    let (c, later) = upstreams_lines-Reads us p2 h.1 in
    (
      c,
      Reads-append (outside p) (outside p2) _
          (opening (codes "upstream") name ∷ (servers_lines ss ++ closing ∷ []))
          (upstreams_lines us)
          (Reads-append (outside p) (within_upstream p1) (outside p2)
            (opening (codes "upstream") name ∷ []) (servers_lines ss ++ closing ∷ []) first block)
          later,
    )
