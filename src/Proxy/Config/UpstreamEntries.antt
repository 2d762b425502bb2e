-- ===== src/Proxy/Config/UpstreamEntries.antt =====
-- The line of a server in an upstream block.
use micro_business_server.Base.{
  ℕ, ◌+◌, true, false, [], ◌∷◌, ◌++◌, some, ◌≡◌, ◌≢◌, refl, sym, ap, ◌∙◌, ◌==◌, length, take, drop,
  All, append_assoc, All-append, length-append,
}
use micro_business_server.Base.Except.{ok}
use micro_business_server.Base.Map.{find, assign, text_key}
use micro_business_server.Base.Positions.{take-front, drop-front}
use micro_business_server.Base.Search.{find_first-append}
use micro_business_server.Base.Text.{Bytes, codes}
use micro_business_server.Proxy.Config.Spaced.{is_plain}
use micro_business_server.Proxy.Config.Reading.{Reads, Reads-line}
use micro_business_server.Proxy.Config.{
  Parser, Upstream, word_loop, upstream_round, is_colon, next, add_server, push_server,
}
use micro_business_server.Proxy.Config.States.{
  fixed-IsWord, setting, within_upstream, IsAddress, address_text,
}

snoc-ne-nil : (s t : Bytes) (c : ℕ) → (s ++ c ∷ t) ≢ []
snoc-ne-nil [] t c e = cc
snoc-ne-nil (x ∷ s) t c e = cc

server-round :
    (p : Parser) (old : Upstream) (ip port : Bytes)
    → All (λ c. (c == b':') ≡ false) ip
    → find p.cur_upstream p.upstreams ≡ some old
    → upstream_round (within_upstream p) (codes "server") (address_text (ip, port) ∷ [])
      ≡ ok (
          next
            (within_upstream (record p {
              upstreams =
                  assign p.cur_upstream
                    (record old { servers = old.servers ++ (ip, port) ∷ [] })
                    p.upstreams;
            }))
            [])
unfolding upstream_round
server-round p old ip port no_colon there =
    let colon = find_first-append is_colon ip b':' port no_colon refl in
    let front = take-front ip (b':' ∷ port) (length ip) refl in
    let back =
      drop-front (ip ++ b':' ∷ []) port (length ip + 1) (sym (length-append ip (b':' ∷ []))) in
    let whole = append_assoc ip (b':' ∷ []) port in
    let q = within_upstream p in
    let by_colon : add_server q (address_text (ip, port)) (address_text (ip, port) ∷ [])
        ≡ next
            (push_server q (take (length ip) (ip ++ b':' ∷ port))
              (drop (length ip + 1) (ip ++ b':' ∷ port)))
            [] =
      rw (add_server, colon) in
    let parts : push_server q (take (length ip) (ip ++ b':' ∷ port))
          (drop (length ip + 1) (ip ++ b':' ∷ port))
        ≡ push_server q ip port =
      ap (λ i. push_server q i (drop (length ip + 1) (ip ++ b':' ∷ port))) front
      ∙ ap (push_server q ip) (rw whole at back) in
    let pushed : push_server q ip port
        ≡ within_upstream (record p {
          upstreams =
              assign p.cur_upstream (record old { servers = old.servers ++ (ip, port) ∷ [] })
                p.upstreams;
        }) =
      rw (push_server, there) in
    ap ok by_colon ∙ ap (λ r. ok (next r [])) (parts ∙ pushed)

pub server-Reads :
    (p : Parser) (old : Upstream) (ip port : Bytes)
    → IsAddress (ip, port)
    → find p.cur_upstream p.upstreams ≡ some old
    → Reads (within_upstream p) (setting (codes "server") (address_text (ip, port)) ∷ []) (
        within_upstream (record p {
          upstreams =
              assign p.cur_upstream
                (record old { servers = old.servers ++ (ip, port) ∷ [] })
                p.upstreams;
        }))
unfolding word_loop
server-Reads p old ip port h there =
    Reads-line (within_upstream p) _ (setting (codes "server") (address_text (ip, port)))
      (record {
        first = fixed-IsWord b's' (codes "erver") refl;
        others = (
          record {
            ne_nil = snoc-ne-nil ip port b':';
            plain = All-append (λ c. is_plain c ≡ true) ip (b':' ∷ port) h.ip (refl, h.port);
          },
          tt,
        );
      })
      (λ word. (word, rw (word_loop, server-round p old ip port h.no_colon there)))
