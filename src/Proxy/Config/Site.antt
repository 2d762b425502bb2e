-- ===== src/Proxy/Config/Site.antt =====
-- What a configuration file says, and the file that says it.
use micro_business_server.Base.{ℕ, ◌^◌, ◌<◌, List, [], ◌∷◌, ◌++◌, none, ◌≡◌, All}
use micro_business_server.Base.Int.{pos}
use micro_business_server.Base.Map.{Map, find, assign, text_key}
use micro_business_server.Base.Text.{Bytes, codes}
use micro_business_server.Proxy.Config.States.{
  setting, opening, closing, server_opening, IsAddress, address_text,
}
use micro_business_server.Proxy.Config.Printing.{Line, print_lines}
use micro_business_server.Proxy.Config.Spaced.{IsWord}
use micro_business_server.Proxy.Config.{Parser, Location, Upstream}
use micro_business_server.Proxy.InetAddress.{to_string}

-- What a configuration file says.
pub record Site : Type 0 where
  pub thread_num : ℕ
  pub que_size : ℕ
  pub listen : ℕ
  pub server_name : Bytes
  -- Each with its `proxy_pass`.
  pub locations : List (Bytes × Bytes)
  pub upstreams : List (Bytes × List (Bytes × Bytes))

abbrev pub location_lines : Bytes × Bytes → List Line
location_lines (id, pass) =
    opening (codes "location") id ∷ setting (codes "proxy_pass") pass ∷ closing ∷ []

abbrev pub locations_lines : List (Bytes × Bytes) → List Line
locations_lines [] = []
locations_lines (l ∷ ls) = location_lines l ++ locations_lines ls

abbrev pub servers_lines : List (Bytes × Bytes) → List Line
servers_lines [] = []
servers_lines (a ∷ addresses) = setting (codes "server") (address_text a) ∷ servers_lines addresses

abbrev pub upstreams_lines : List (Bytes × List (Bytes × Bytes)) → List Line
upstreams_lines [] = []
upstreams_lines ((name, servers) ∷ us) =
    (opening (codes "upstream") name ∷ (servers_lines servers ++ closing ∷ []))
    ++ upstreams_lines us

-- The maps that the blocks make.
abbrev pub located : List (Bytes × Bytes) → Map Bytes Location → Map Bytes Location
located [] m = m
located ((id, pass) ∷ ls) m = located ls (assign id (record { id = id; proxy_pass = pass }) m)

abbrev pub streamed : List (Bytes × List (Bytes × Bytes)) → Map Bytes Upstream → Map Bytes Upstream
streamed [] m = m
streamed ((name, servers) ∷ us) m =
    streamed us (assign name (record { name = name; servers = servers }) m)

-- No name is there when its block comes.
abbrev pub AreLocations : List (Bytes × Bytes) → Map Bytes Location → Type 0
AreLocations [] m = Unit
AreLocations ((id, pass) ∷ ls) m =
    (IsWord id × IsWord pass × (find id m ≡ none))
    × AreLocations ls (assign id (record { id = id; proxy_pass = pass }) m)

abbrev pub AreUpstreams : List (Bytes × List (Bytes × Bytes)) → Map Bytes Upstream → Type 0
AreUpstreams [] m = Unit
AreUpstreams ((name, servers) ∷ us) m =
    (IsWord name × All IsAddress servers × (find name m ≡ none))
    × AreUpstreams us (assign name (record { name = name; servers = servers }) m)

-- The file, with the blocks in the order of the lists.
abbrev pub site_lines : Site → List Line
site_lines s =
    setting (codes "threadNum") (to_string s.thread_num)
    ∷ setting (codes "queSize") (to_string s.que_size)
    ∷ server_opening
    ∷ setting (codes "listen") (to_string s.listen)
    ∷ setting (codes "server_name") s.server_name
    ∷ (locations_lines s.locations ++ (closing ∷ upstreams_lines s.upstreams))

unfoldable pub print_site : Site → Bytes
print_site s = print_lines (site_lines s)

-- What can be written: numbers that an `int` holds, names that are words, and no name twice.
pub record IsSite (s : Site) : Type 0 where
  pub thread_num : s.thread_num < 2 ^ 31
  pub que_size : s.que_size < 2 ^ 31
  pub listen : s.listen < 2 ^ 31
  pub server_name : IsWord s.server_name
  pub locations : AreLocations s.locations []
  pub upstreams : AreUpstreams s.upstreams []

-- The parser holds what the file says.
pub record Says (s : Site) (q : Parser) : Type 0 where
  pub thread_num : q.thread_num ≡ pos s.thread_num
  pub que_size : q.que_size ≡ pos s.que_size
  pub listen : q.server.listen ≡ pos s.listen
  pub server_name : q.server.server_name ≡ s.server_name
  pub locations : q.server.locations ≡ located s.locations []
  pub upstreams : q.upstreams ≡ streamed s.upstreams []
