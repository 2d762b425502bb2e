-- ===== src/Proxy/TcpConnection/ErrorText.antt =====
-- The text of `error_handle`, whose numbers go through a buffer of 32 bytes.
use micro_business_server.Base.{
  ℕ, suc, ◌^◌, append_assoc, ◌+◌, ◌≤◌, ◌<◌, ◌++◌, ◌≡◌, arith, length, length-append, ap, ◌∙◌,
}
use micro_business_server.Base.Positions.{take_whole}
use micro_business_server.Base.Text.{Bytes, codes}
use micro_business_server.Proxy.InetAddress.Decimal.{pow10, length-to_string}
use micro_business_server.Proxy.InetAddress.{to_string}
use micro_business_server.Proxy.TcpConnection.{
  Platform, JsonValue, snprintf32, crlf, error_response,
}

-- A number between two fixed texts.
numbered_length :
    (front back : Bytes) (n k : ℕ)
    → n < pow10 (suc k)
    → length front + suc k + length back ≤ 31
    → snprintf32 (front ++ (to_string n ++ back)) ≡ front ++ (to_string n ++ back)
numbered_length front back n k lt h = take_whole 31 (front ++ (to_string n ++ back)) (
    omega (
      arith,
      length-append front (to_string n ++ back),
      length-append (to_string n) back,
      length-to_string n k lt,
    ))

-- For a code of three digits and a body of any size that an `int` can count, the buffers of 32 bytes
-- cut nothing off: the text is the status line, the three headers, an empty line and the body.
pub error_response-whole :
    (platform : Platform) (code : ℕ) (message : Bytes) (value : JsonValue)
    → code < 1000
    → length (platform.write_json value) < 2 ^ 31
    → error_response platform code message value
      ≡ codes "HTTP/1.1 "
        ++ (to_string code ++ codes " ")
        ++ (message
            ++ (codes "\r\nConnection: close\r\nContent-Length: "
                ++ (to_string (length (platform.write_json value))
                    ++ (codes "\r\nContent-Type: application/json\r\n\r\n"
                        ++ platform.write_json value))))
unfolding error_response pow10
error_response-whole platform code message value few small =
    let body = platform.write_json value in
    let line = numbered_length (codes "HTTP/1.1 ") (codes " ") code 2 few (omega arith) in
    let count =
      numbered_length (codes "Content-Length: ") crlf (length body) 9 (omega arith) (omega arith) in
    let rest : Bytes = codes "Content-Type: application/json\r\n" ++ (crlf ++ body) in
    let behind : Bytes → Bytes =
      λ field. message ++ (crlf ++ (codes "Connection: close\r\n" ++ (field ++ rest))) in
    let status : Bytes = codes "HTTP/1.1 " ++ (to_string code ++ codes " ") in
    ap
      (λ s.
        s ++ behind (snprintf32 (codes "Content-Length: " ++ (to_string (length body) ++ crlf))))
      line
    ∙ ap (λ field. status ++ behind field) count
    ∙ ap (λ t. status ++ (message ++ (codes "\r\nConnection: close\r\nContent-Length: " ++ t)))
        (append_assoc (to_string (length body)) crlf rest)
