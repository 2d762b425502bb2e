-- ===== src/Business/Naming.antt =====
-- The header that the proxy finds the client by.
use micro_business_server.Base.{some, ◌≡◌, ◌∙◌}
use micro_business_server.Base.Map.{find, assign, text_key, find-assign}
use micro_business_server.Base.Text.{codes}
use micro_business_server.Business.Request.{HttpRequest, get_header}
use micro_business_server.Business.Server.{
  Mysql, Library, HttpResponse, Exit, error_handle, sucess_handle, on_request,
}
use micro_business_server.Business.Answers.{IsAnswered, on_request-IsAnswered}

-- The response copies the header `Client` of the request, empty if there is none.
abbrev pub NamesClient : HttpRequest → HttpResponse → Type 0
NamesClient req r = find (codes "Client") r.headers ≡ some (get_header req (codes "Client"))

-- The response names the client, but for a request to buy with an empty value, which gets the
-- response as it was.
abbrev pub IsNamed : HttpRequest → HttpResponse → Exit → Type 0
IsNamed req = IsAnswered (NamesClient req) req

-- Whatever is asked and whatever the database answers, a response that is returned has the
-- header `Client` of the request, by which the proxy finds the client. The one exception is a
-- request to buy with an empty value, whose response is returned as it was handed in.
pub on_request-IsNamed :
    (req : HttpRequest) (resp : HttpResponse) {S : Type 0} (mysql : Mysql S) (library : Library)
    (s : S)
    → IsNamed req resp (on_request mysql library req resp s).1
unfolding error_handle sucess_handle
on_request-IsNamed req resp mysql library s =
    let client = get_header req (codes "Client") in
    on_request-IsAnswered (NamesClient req) req resp mysql library
      (λ code message known.
        find-assign (codes "Content-Type") (codes "Client") (codes "text/plain;charset=UTF-8")
          (assign (codes "Client") client resp.headers)
        ∙ find-assign (codes "Client") (codes "Client") client resp.headers)
      (λ body.
        find-assign (codes "Client") (codes "Client") client
          (assign (codes "Content-Type") (codes "application/json") resp.headers))
      s
