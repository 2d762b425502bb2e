-- ===== src/Business/FrontEnd.antt =====
-- The HTTP module of muduo that the business servers use, as what they rely on: how a message is
-- read into a request, and how a response is written. Its copy in http_server is not modelled.
use micro_business_server.Base.{
  ℕ, false, List, [], ◌∷◌, ◌++◌, none, ◌≡◌, refl, ap, ◌∙◌, ◌⊎◌, ◌==◌, All, if◌then◌else◌,
}
use micro_business_server.Base.Except.{is_blank}
use micro_business_server.Base.Text.{Bytes, codes, text_eq, find_text}
use micro_business_server.Business.Request.{HttpRequest, get_header}
use micro_business_server.Business.Server.{HttpResponse}

-- The lines `key: value` of a message, the empty line and the body.
abbrev pub header_lines : List (Bytes × Bytes) → Bytes → Bytes
header_lines [] body = codes "\r\n" ++ body
header_lines ((key, value) ∷ headers) body =
    key ++ (codes ": " ++ (value ++ (codes "\r\n" ++ header_lines headers body)))

abbrev pub Lacks : ℕ → Bytes → Type 0
Lacks c s = All (λ x. (x == c) ≡ false) s

-- `HttpRequest::addHeader` passes over the blanks in front of a value and takes those behind it off.
abbrev pub trim_front : Bytes → Bytes
trim_front [] = []
trim_front (c ∷ s) = let rest = trim_front s in if is_blank c then rest else c ∷ s

abbrev pub trim_back : Bytes → Bytes
trim_back [] = []
trim_back (c ∷ s) = elim (trim_back s) [
  | [] ↦ if is_blank c then [] else c ∷ []
  | x ∷ rest ↦ c ∷ x ∷ rest
]

abbrev pub trim_value : Bytes → Bytes
trim_value value = trim_back (trim_front value)

-- A header whose line says where its key and its value end. What is between the colon and the end of
-- the line is the value and blanks around it, so a value neither begins nor ends with one (a space, a
-- tab, a vertical tab, a form feed); there can be blanks inside it.
pub record IsHeader (header : Bytes × Bytes) : Type 0 where
  pub key_no_colon : Lacks b':' header.0
  pub key_no_newline : Lacks b'\n' header.0
  pub key_no_return : Lacks b'\r' header.0
  pub value_no_newline : Lacks b'\n' header.1
  pub value_no_return : Lacks b'\r' header.1
  pub trimmed : trim_value header.1 ≡ header.1

-- A request line, with the carriage return that ends it.
pub record IsLine (line : Bytes) : Type 0 where
  pub method : Bytes
  pub target : Bytes
  pub form : line ≡ method ++ b' ' ∷ (target ++ codes " HTTP/1.1\r")
  pub known : (method ≡ codes "GET") ⊎ (method ≡ codes "POST")
  pub no_blank : Lacks b' ' target
  pub no_newline : Lacks b'\n' line

-- The value of the last header with a key.
abbrev pub last_header : Bytes → List (Bytes × Bytes) → Bytes → Bytes
last_header key [] before = before
last_header key ((k, value) ∷ headers) before =
    last_header key headers (if text_eq k key then value else before)

-- `HttpContext::parseRequest` on a whole message of a new connection, and
-- `HttpResponse::appendToBuffer` where the connection is kept.
pub record FrontEnd : Type 0 where
  pub parse_request : Bytes → HttpRequest
  pub append_to_buffer : HttpResponse → Bytes

-- The last header of a name counts, as assignments to a map do. A response is written as a head,
-- with the status and the message, its headers in the order of the map, and its body; the head has no
-- other text of the program in it.
pub record IsHttp (f : FrontEnd) : Type 0 where
  pub reads :
      (line : Bytes) (headers : List (Bytes × Bytes)) (body key : Bytes)
      → IsLine line
      → All IsHeader headers
      → get_header (f.parse_request (line ++ b'\n' ∷ header_lines headers body)) key
        ≡ last_header key headers []
  pub head : HttpResponse → Bytes
  pub writes :
      (r : HttpResponse) → f.append_to_buffer r ≡ head r ++ b'\n' ∷ header_lines r.headers r.body
  pub head_plain :
      (r : HttpResponse)
      → Lacks b'C' r.status_message
      → find_text (codes "Client: ") (head r) ≡ none

-- Nothing is taken off a text without blanks.
trim_back-plain : (s : Bytes) → All (λ c. is_blank c ≡ false) s → trim_back s ≡ s
trim_back-plain [] h = refl
trim_back-plain (c ∷ []) h = rw (h.0)
trim_back-plain (c ∷ x ∷ s) h = rw (trim_back-plain (x ∷ s) h.1) refl

trim_front-plain : (s : Bytes) → All (λ c. is_blank c ≡ false) s → trim_front s ≡ s
trim_front-plain [] h = refl
trim_front-plain (c ∷ s) h = rw (h.0)

pub trim_value-plain : (s : Bytes) → All (λ c. is_blank c ≡ false) s → trim_value s ≡ s
trim_value-plain s h = ap trim_back (trim_front-plain s h) ∙ trim_back-plain s h
