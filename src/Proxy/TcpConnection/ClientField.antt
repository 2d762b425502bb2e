-- ===== src/Proxy/TcpConnection/ClientField.antt =====
-- The header line `Client: ip:port`: what `add_client` writes `client_field` reads.
use micro_business_server.Base.{
  ℕ, ◌+◌, ◌-◌, ◌<◌, false, [], ◌∷◌, ◌++◌, none, some, ◌≢◌, ◌≡◌, refl, sym, ap, ◌∙◌, arith, length,
  drop, length-append, All, append_assoc, drop-append_le, take-append_le, length-drop,
}
use micro_business_server.Base.Positions.{take-front, drop_plus, drop_past, take_past}
use micro_business_server.Base.Search.{find_first-append, find_first-misses, find_first-extend}
use micro_business_server.Base.Substrings.{find_text_behind, find_text-append}
use micro_business_server.Base.Text.{Bytes, codes, find_first, find_text, substr}
use micro_business_server.Proxy.TcpConnection.{is_newline, add_client, client_field}

abbrev pub NoNewline : Bytes → Type 0
NoNewline s = All (λ x. is_newline x ≡ false) s

-- A line that starts a header `Client`, and what follows it.
abbrev pub client_line : Bytes → Bytes → Bytes
client_line addr rest = codes "Client: " ++ (addr ++ (codes "\r\n" ++ rest))

client_field_steps :
    (buf : Bytes) (found rest : ℕ) (name : Bytes)
    → find_text (codes "Client: ") buf ≡ some found
    → find_first is_newline (drop (found + 8 + 1) buf) ≡ some rest
    → substr buf (found + 8) (rest + (found + 8 + 1) - (found + 8) - 1) ≡ name
    → client_field buf ≡ some name
unfolding client_field
client_field_steps buf found rest name f n s = rw (client_field, f, n, s)

NoNewline-snoc : (s : Bytes) (c : ℕ) → NoNewline s → is_newline c ≡ false → NoNewline (s ++ c ∷ [])
NoNewline-snoc [] c h e = (e, tt)
NoNewline-snoc (x ∷ s) c h e = (h.0, NoNewline-snoc s c h.1 e)

line_end :
    (addr rest : Bytes)
    → NoNewline addr
    → find_first is_newline (addr ++ (codes "\r\n" ++ rest)) ≡ some (length addr + 1)
line_end addr rest n =
    let line : Bytes = addr ++ b'\r' ∷ [] in
    let whole : addr ++ (codes "\r\n" ++ rest) ≡ line ++ b'\n' ∷ rest =
      sym (append_assoc addr (b'\r' ∷ []) (b'\n' ∷ rest)) in
    rw (whole, find_first-append is_newline line b'\n' rest (NoNewline-snoc addr b'\r' n refl) refl)
      (ap some (length-append addr (b'\r' ∷ [])))

-- The name is read from the first `Client: ` line, whatever stands before and behind it.
pub client_field-client_line :
    (head addr rest : Bytes)
    → find_text (codes "Client: ") head ≡ none
    → NoNewline addr
    → addr ≢ []
    → client_field (head ++ b'\n' ∷ client_line addr rest) ≡ some addr
unfolding find_first
client_field-client_line head [] rest h n ne = absurd (ne refl)
client_field-client_line head (a ∷ addr) rest h n ne =
    client_field_steps _ (length head + 1) (length addr + 1) (a ∷ addr)
      (find_text_behind (codes "lient: ") head _ b'\n' b'C'
        (find_first-misses is_newline (codes "Client: ") refl) h)
      (rw
        (drop_plus head (b'\n' ∷ client_line (a ∷ addr) rest) (length head + 1 + 8 + 1) 10
          (omega arith))
        (line_end addr rest n.1))
      (rw
        (drop_plus head (b'\n' ∷ client_line (a ∷ addr) rest) (length head + 1 + 8) 9 (omega arith))
        (take-front (a ∷ addr) _ _ (omega arith)))

-- A message whose head has no such line gets one behind its first line.
pub add_client_lem :
    (addr head rest : Bytes)
    → NoNewline head
    → add_client addr (head ++ b'\n' ∷ rest) ≡ head ++ b'\n' ∷ client_line addr rest
unfolding add_client
add_client_lem addr head rest h =
    rw (add_client, find_first-append is_newline head b'\n' rest h refl)
      (simp
        (take_past head b'\n' rest, drop_past head b'\n' rest (length head + 1) refl, append_assoc))

client_field_parts :
    (buf name : Bytes)
    → client_field buf ≡ some name
    → (found : ℕ) × (rest : ℕ) × (find_text (codes "Client: ") buf ≡ some found)
      × (find_first is_newline (drop (found + 8 + 1) buf) ≡ some rest)
      × (substr buf (found + 8) (rest + (found + 8 + 1) - (found + 8) - 1) ≡ name)
unfolding client_field
client_field_parts buf name h = ground arith

-- More bytes do not change the name that has been read.
pub client_field-append :
    (buf more name : Bytes) → client_field buf ≡ some name → client_field (buf ++ more) ≡ some name
client_field-append buf more name h =
    let (found, rest, f, n, s) = client_field_parts buf name h in
    let (later, lt) = find_first-extend is_newline (drop (found + 8 + 1) buf) more rest n in
    let inside : rest + (found + 8 + 1) < length buf =
      omega (arith, length-drop (found + 8 + 1) buf) in
    client_field_steps (buf ++ more) found rest name
      (find_text-append (codes "Client: ") buf more found f)
      (rw (drop-append_le (found + 8 + 1) buf more (omega arith)) later)
      (rw (drop-append_le (found + 8) buf more (omega arith)) (
        take-append_le _ (drop (found + 8) buf) more (omega (arith, length-drop (found + 8) buf))
        ∙ s))
