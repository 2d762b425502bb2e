-- ===== src/Tests/HttpFrontEnd.antt =====
-- A front end that reads and writes messages as HTTP has it, and takes the blanks around the value
-- of a header off.
use micro_business_server.Base.{
  ℕ, ◌+◌, Bool, List, [], ◌∷◌, ◌++◌, none, some, ◌≡◌, refl, ap, ◌∙◌, ◌==◌, All, if◌then◌else◌,
  append_assoc, append-nil, arith, length, take, drop, Bool-cases, inl, inr,
}
use micro_business_server.Base.Map.{Map, find, assign, text_key, find-assign}
use micro_business_server.Base.Text.{Bytes, codes, find_first, find_text, starts_with, text_eq}
use micro_business_server.Business.FrontEnd.{
  header_lines, Lacks, IsHeader, last_header, FrontEnd, IsHttp, trim_value,
}
use micro_business_server.Business.Request.{get_header}
use micro_business_server.Business.Server.{HttpResponse}
use micro_business_server.Proxy.InetAddress.Address.{IsDecimal-Lacks}
use micro_business_server.Proxy.InetAddress.Decimal.{IsDecimal, to_string-IsDecimal}
use micro_business_server.Proxy.InetAddress.{to_string}

-- Where the reader stands: in the request line, in a key, behind its colon, behind the
-- carriage return of a line.
pub data Place : Type 0 where
  at_line at_newline : Place
  at_key : Bytes → Place
  at_value : Bytes → Bytes → Place

unfoldable pub scan : Place → Map Bytes Bytes → Bytes → Map Bytes Bytes
scan place m [] = m
scan at_line m (c ∷ s) =
    let ended = scan (at_key []) m s in
    let more = scan at_line m s in if c == b'\n' then ended else more
scan at_newline m (c ∷ s) = scan (at_key []) m s
scan (at_key key) m (c ∷ s) =
    let colon = scan (at_value key []) m s in
    let more = scan (at_key (key ++ c ∷ [])) m s in
    if c == b':' then colon else if c == b'\r' then m else more
scan (at_value key value) m (c ∷ s) =
    let ended = scan at_newline (assign key (trim_value value) m) s in
    let more = scan (at_value key (value ++ c ∷ [])) m s in if c == b'\r' then ended else more

scan-line :
    (line s : Bytes) (m : Map Bytes Bytes)
    → Lacks b'\n' line
    → scan at_line m (line ++ b'\n' ∷ s) ≡ scan (at_key []) m s
unfolding scan
scan-line [] s m h = refl
scan-line (c ∷ line) s m h = rw (scan, h.0) (scan-line line s m h.1)

scan-key :
    (key more s : Bytes) (m : Map Bytes Bytes)
    → Lacks b':' more
    → Lacks b'\r' more
    → scan (at_key key) m (more ++ b':' ∷ s) ≡ scan (at_value (key ++ more) []) m s
unfolding scan
scan-key key [] s m h k = rw (append-nil key)
scan-key key (c ∷ more) s m h k =
    rw (scan, h.0, k.0)
      (scan-key (key ++ c ∷ []) more s m h.1 k.1
        ∙ ap (λ t. scan (at_value t []) m s) (append_assoc key (c ∷ []) more))

scan-value :
    (key value more s : Bytes) (m : Map Bytes Bytes)
    → Lacks b'\r' more
    → scan (at_value key value) m (more ++ b'\r' ∷ b'\n' ∷ s)
      ≡ scan (at_key []) (assign key (trim_value (value ++ more)) m) s
unfolding scan
scan-value key value [] s m h = rw (append-nil value)
scan-value key value (c ∷ more) s m h =
    rw (scan, h.0)
      (scan-value key (value ++ c ∷ []) more s m h.1
        ∙ ap (λ t. scan (at_key []) (assign key (trim_value t) m) s)
            (append_assoc value (c ∷ []) more))

abbrev value_at : Bytes → Map Bytes Bytes → Bytes
value_at key m = elim (find key m) [ none ↦ [] | some value ↦ value ]

value_at-assign :
    (key k v : Bytes) (m : Map Bytes Bytes)
    → value_at key (assign k v m) ≡ (if text_eq k key then v else value_at key m)
value_at-assign key k v m =
    ap (λ o. elim o [ none ↦ [] | some value ↦ value ]) (find-assign k key v m)
    ∙ elim (Bool-cases (text_eq k key)) [ inl e ↦ rw e | inr e ↦ rw e ]

scan-headers :
    (headers : List (Bytes × Bytes)) (body key : Bytes) (m : Map Bytes Bytes)
    → All IsHeader headers
    → value_at key (scan (at_key []) m (header_lines headers body))
      ≡ last_header key headers (value_at key m)
unfolding scan
scan-headers [] body key m h = refl
scan-headers ((k, v) ∷ headers) body key m h =
    let rest = header_lines headers body in
    let one =
      scan-key [] k (b' ' ∷ (v ++ (codes "\r\n" ++ rest))) m h.0.key_no_colon h.0.key_no_return in
    let two =
      scan-value k [] (b' ' ∷ v) rest m (refl, h.0.value_no_return)
      ∙ ap (λ t. scan (at_key []) (assign k t m) rest) h.0.trimmed in
    ap (value_at key) (one ∙ two)
    ∙ scan-headers headers body key (assign k v m) h.1
    ∙ ap (last_header key headers) (value_at-assign key k v m)

-- The text between the first two blanks.
abbrev pub is_blank : ℕ → Bool
is_blank c = c == b' '

abbrev pub between : Bytes → Bytes
between s = elim (find_first is_blank s) [
  | none ↦ []
  | some i ↦ elim (find_first is_blank (drop (i + 1) s)) [
    | none ↦ []
    | some j ↦ take j (drop (i + 1) s)
  ]
]

abbrev pub response_head : HttpResponse → Bytes
response_head r =
    codes "HTTP/1.1 "
    ++ (to_string r.status_code
        ++ (b' '
            ∷ (r.status_message
                ++ (codes "\r\nContent-Length: "
                    ++ (to_string (length r.body) ++ codes "\r\nConnection: Keep-Alive\r")))))

abbrev pub http : FrontEnd
http = record {
  parse_request = λ s. record { path = between s; headers = scan at_line [] s; querys = [] };
  append_to_buffer = λ r. response_head r ++ b'\n' ∷ header_lines r.headers r.body;
}

-- A front without the first byte of the text has no part of it.
find_text-Lacks :
    (s t : Bytes)
    → Lacks b'C' s
    → find_text (codes "Client: ") t ≡ none
    → find_text (codes "Client: ") (s ++ t) ≡ none
unfolding find_text starts_with
find_text-Lacks [] t h e = e
find_text-Lacks (c ∷ s) t h e = ground (arith, h.0, find_text-Lacks s t h.1 e)

digits-Lacks : (s : Bytes) → IsDecimal s → Lacks b'C' s
digits-Lacks s h = IsDecimal-Lacks b'C' s refl h

-- What is behind a number.
number_plain :
    (n : ℕ) (t : Bytes)
    → find_text (codes "Client: ") t ≡ none
    → find_text (codes "Client: ") (to_string n ++ t) ≡ none
number_plain n t h =
    find_text-Lacks (to_string n) t (digits-Lacks (to_string n) (to_string-IsDecimal n)) h

response_head-plain :
    (r : HttpResponse)
    → Lacks b'C' r.status_message
    → find_text (codes "Client: ") (response_head r) ≡ none
unfolding find_text starts_with
response_head-plain r h =
    let end = number_plain (length r.body) (codes "\r\nConnection: Keep-Alive\r") refl in
    let tail : Bytes =
      codes "\r\nContent-Length: "
      ++ (to_string (length r.body) ++ codes "\r\nConnection: Keep-Alive\r") in
    let tail_plain : find_text (codes "Client: ") tail ≡ none = rw (find_text, end) in
    let message = find_text-Lacks r.status_message tail h tail_plain in
    let blank : find_text (codes "Client: ") (b' ' ∷ (r.status_message ++ tail)) ≡ none =
      rw (find_text, message) in
    let status = number_plain r.status_code (b' ' ∷ (r.status_message ++ tail)) blank in
    rw (find_text, status)

pub http-IsHttp : IsHttp http
unfolding get_header find
http-IsHttp = record {
  reads = λ line headers body key h all.
      ap (value_at key) (scan-line line (header_lines headers body) [] h.no_newline)
      ∙ scan-headers headers body key [] all;
  head = response_head;
  writes = λ r. refl;
  head_plain = response_head-plain;
}
