-- ===== src/Tests/Sites.antt =====
-- The round trip of a configuration at one like proxyserver.conf.
use micro_business_server.Base.{some, [], ◌∷◌, ◌≡◌, refl, arith, ◌==◌}
use micro_business_server.Base.Except.{ok}
use micro_business_server.Base.Int.{pos}
use micro_business_server.Base.Map.{find, assign}
use micro_business_server.Base.Search.{find_first-misses}
use micro_business_server.Base.Text.{codes, find_first}
use micro_business_server.Proxy.Config.States.{IsAddress, fixed-IsWord, all_plain_lem}
use micro_business_server.Proxy.Config.Site.{Site, IsSite, Says, print_site}
use micro_business_server.Proxy.Config.RoundTrip.{parse-print_site}
use micro_business_server.Proxy.Config.{Parser, new_parser, parse}
use micro_business_server.Proxy.InetAddress.{to_string, to_string_loop}

abbrev pub site : Site
site = record {
  thread_num = 8;
  que_size = 1024;
  listen = 10001;
  server_name = codes "shop.com";
  locations =
      (codes "/10001/", codes "http://business1")
      ∷ (codes "/10002/", codes "http://business2")
      ∷ [];
  upstreams =
      (
        codes "business1",
        (codes "127.0.0.1", codes "10002") ∷ (codes "127.0.0.2", codes "10002") ∷ [],
      )
      ∷ (codes "business2", [])
      ∷ [];
}

site_text :
    print_site site
    ≡ codes
        "threadNum 8;\nqueSize 1024;\nserver {\nlisten 10001;\nserver_name shop.com;\nlocation /10001/ {\nproxy_pass http://business1;\n}\nlocation /10002/ {\nproxy_pass http://business2;\n}\n}\nupstream business1 {\nserver 127.0.0.1:10002;\nserver 127.0.0.2:10002;\n}\nupstream business2 {\n}\n"
unfolding print_site to_string to_string_loop
site_text = refl

first-IsAddress : IsAddress (codes "127.0.0.1", codes "10002")
unfolding find_first
first-IsAddress = record {
  ip = all_plain_lem (codes "127.0.0.1") refl;
  port = all_plain_lem (codes "10002") refl;
  no_colon = find_first-misses (λ c. c == b':') (codes "127.0.0.1") refl;
}

second-IsAddress : IsAddress (codes "127.0.0.2", codes "10002")
unfolding find_first
second-IsAddress = record {
  ip = all_plain_lem (codes "127.0.0.2") refl;
  port = all_plain_lem (codes "10002") refl;
  no_colon = find_first-misses (λ c. c == b':') (codes "127.0.0.2") refl;
}

pub site-IsSite : IsSite site
unfolding find assign
site-IsSite = record {
  thread_num = omega arith;
  que_size = omega arith;
  listen = omega arith;
  server_name = fixed-IsWord b's' (codes "hop.com") refl;
  locations = (
    (
      fixed-IsWord b'/' (codes "10001/") refl,
      fixed-IsWord b'h' (codes "ttp://business1") refl,
      refl,
    ),
    (
      (
        fixed-IsWord b'/' (codes "10002/") refl,
        fixed-IsWord b'h' (codes "ttp://business2") refl,
        refl,
      ),
      tt,
    ),
  );
  upstreams = (
    (fixed-IsWord b'b' (codes "usiness1") refl, (first-IsAddress, (second-IsAddress, tt)), refl),
    ((fixed-IsWord b'b' (codes "usiness2") refl, tt, refl), tt),
  );
}

parse-print_site_example :
    (q : Parser) × (parse (new_parser (pos 0) (pos 0) (pos 0)) (some (print_site site)) ≡ ok q)
    × Says site q
parse-print_site_example = parse-print_site site (pos 0) (pos 0) (pos 0) site-IsSite
