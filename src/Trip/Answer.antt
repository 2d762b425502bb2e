-- ===== src/Trip/Answer.antt =====
-- What a business server sends for a message that the proxy has passed on.
use micro_business_server.Base.{ℕ, List, [], ◌∷◌, ◌++◌, none, inl, inr, ◌≡◌, refl, ap, ◌∙◌, ◌==◌}
use micro_business_server.Base.Map.{assign, text_key}
use micro_business_server.Base.Search.{find_first-misses}
use micro_business_server.Base.Text.{find_first, Bytes, codes, find_text}
use micro_business_server.Business.Answers.{
  IsAnswered, AsksNothing, IsMessage, on_request-IsAnswered,
}
use micro_business_server.Business.FrontEnd.{header_lines, Lacks, FrontEnd, IsHttp}
use micro_business_server.Business.Request.{HttpRequest, get_header}
use micro_business_server.Business.Server.{
  Mysql, Library, HttpResponse, returned, on_request, error_handle, sucess_handle, network_error,
  not_there, too_few,
}
use micro_business_server.Proxy.TcpConnection.ClientField.{client_line}

-- A new response of the front end.
abbrev pub new_response : HttpResponse
new_response = record { status_code = 0; status_message = []; headers = []; body = [] }

-- The header `Client` is the first one of the map, and the message is plain.
pub record Names (client : Bytes) (r : HttpResponse) : Type 0 where
  pub others : List (Bytes × Bytes)
  pub headers : r.headers ≡ (codes "Client", client) ∷ others
  pub plain : Lacks b'C' r.status_message

no_capital : (s : Bytes) → find_first (λ x. x == b'C') s ≡ none → Lacks b'C' s
no_capital s h = find_first-misses (λ x. x == b'C') s h

IsMessage-Lacks : (message : Bytes) → IsMessage message → Lacks b'C' message
unfolding find_first
IsMessage-Lacks message (inl e) = rw e (no_capital network_error refl)
IsMessage-Lacks message (inr (inl e)) = rw e (no_capital not_there refl)
IsMessage-Lacks message (inr (inr (inl e))) = rw e (no_capital too_few refl)
IsMessage-Lacks message (inr (inr (inr e))) = rw e (no_capital (codes "Not Found!") refl)

module _ (library : Library) (client : Bytes) where
  error_handle-Names :
      (code : ℕ) (message : Bytes)
      → IsMessage message
      → Names client (error_handle library new_response code message client)
  unfolding error_handle assign
  error_handle-Names code message known = record {
    others = (codes "Content-Type", codes "text/plain;charset=UTF-8") ∷ [];
    headers = refl;
    plain = IsMessage-Lacks message known;
  }

  sucess_handle-Names :
      (body : Bytes) → Names client (sucess_handle new_response 200 (codes "OK") body client)
  unfolding sucess_handle assign find_first
  sucess_handle-Names body = record {
    others = (codes "Content-Type", codes "application/json") ∷ [];
    headers = refl;
    plain = no_capital (codes "OK") refl;
  }

-- Any response of the handlers but the untouched one names the client first.
pub on_request-Names :
    {S : Type 0} (mysql : Mysql S) (library : Library) (req : HttpRequest) (s t : S)
    (r : HttpResponse)
    → ¬ AsksNothing req
    → on_request mysql library req new_response s ≡ (t, returned r)
    → Names (get_header req (codes "Client")) r
on_request-Names mysql library req s t r asks is =
    let client = get_header req (codes "Client") in
    let answered : IsAnswered (Names client) req new_response (returned r) = rw is at (
      on_request-IsAnswered (Names client) req new_response mysql library
        (error_handle-Names library client) (sucess_handle-Names library client) s) in
    elim answered [ inl names ↦ names | inr (same, path, nothing) ↦ absurd (asks nothing) ]

-- The text of such a response has the line `Client: ` in front of every other mention of it.
pub append_to_buffer-Names :
    (f : FrontEnd) (h : IsHttp f) (r : HttpResponse) (client : Bytes)
    → Names client r
    → (head : Bytes) × (rest : Bytes) × (f.append_to_buffer r
        ≡ head ++ b'\n' ∷ client_line client rest)
      × (find_text (codes "Client: ") head ≡ none)
append_to_buffer-Names f h r client names = (
  h.head r,
  header_lines names.others r.body,
  h.writes r ∙ ap (λ m. h.head r ++ b'\n' ∷ header_lines m r.body) names.headers,
  h.head_plain r names.plain,
)
