-- ===== src/Tests/Writes.antt =====
-- The theorem on `writen` at a text that goes out in two parts.
use micro_business_server.Base.{[], ◌∷◌, some, ◌≡◌, refl, arith, List, ◌++◌, length}
use micro_business_server.Base.Text.{Bytes, codes}
use micro_business_server.Proxy.SocketIo.Writing.{writen-sends, writen-cut}
use micro_business_server.Proxy.SocketIo.{Written, wrote, interrupted, broken, writen, writen_loop}

abbrev two_parts : List Written
two_parts = wrote 2 ∷ interrupted ∷ wrote 3 ∷ []

writen-sends_example : writen two_parts (codes "hello") ≡ some (codes "hello", 5)
writen-sends_example =
    writen-sends two_parts (codes "hello") (omega arith, (omega arith, tt)) (omega arith)

-- The second call fails, as on a full buffer of a socket that does not block.
abbrev cut_off : List Written
cut_off = wrote 2 ∷ broken ∷ []

writen-cut_example :
    (lost : Bytes) × (codes "hello" ≡ codes "he" ++ lost) × (2 ≡ length (codes "he"))
unfolding writen writen_loop
writen-cut_example = writen-cut cut_off (codes "hello") (codes "he") 2 (omega arith, tt) refl
