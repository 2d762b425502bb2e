-- ===== src/Tests/Texts.antt =====
-- The theorems on the texts of addresses and replies at concrete texts.
use micro_business_server.Base.{ℕ, ◌/◌, ◌%◌, [], ◌∷◌, ◌++◌, ◌≡◌, refl, arith}
use micro_business_server.Base.Except.{ok, stoi}
use micro_business_server.Base.Int.{pos}
use micro_business_server.Base.Text.{Bytes, codes}
use micro_business_server.Proxy.InetAddress.Address.{IsDotted, IsStored}
use micro_business_server.Proxy.InetAddress.Decimal.{stoi-to_string}
use micro_business_server.Proxy.InetAddress.{
  InetAddress, to_string, to_string_loop, port, swap_bytes, ip, ip_port,
}
use micro_business_server.Proxy.TcpConnection.ErrorText.{error_response-whole}
use micro_business_server.Proxy.TcpConnection.{error_response}
use micro_business_server.Tests.Inputs.{platform}

abbrev pub inet_ntoa : ℕ → Bytes
inet_ntoa n =
    to_string (n % 256)
    ++ b'.'
      ∷ (to_string (n / 256 % 256)
          ++ b'.' ∷ (to_string (n / 65536 % 256) ++ b'.' ∷ to_string (n / 16777216 % 256)))

pub inet_ntoa-IsDotted : IsDotted inet_ntoa
inet_ntoa-IsDotted = record { dotted = λ n. refl }

-- 127.0.0.1:8080
abbrev local : InetAddress
local = record { sin_addr = 16777343; sin_port = 36895 }

local-IsStored : IsStored local
local-IsStored = record { addr = omega arith; port = omega arith }

local_text : ip_port inet_ntoa local ≡ codes "127.0.0.1:8080"
unfolding ip_port ip port swap_bytes to_string to_string_loop
local_text = refl

stoi-to_string_example : stoi (to_string 8080) ≡ ok (pos 8080)
stoi-to_string_example = stoi-to_string 8080 (omega arith)

abbrev nameless : Bytes
nameless = codes "HTTP/1.1 0 \r\nContent-Length: 0\r\n\r\n"

error_response-whole_example :
    error_response platform 404 (codes "404 Not Found") []
    ≡ codes "HTTP/1.1 "
      ++ (to_string 404 ++ codes " ")
      ++ (codes "404 Not Found"
          ++ (codes "\r\nConnection: close\r\nContent-Length: "
              ++ (to_string 2
                  ++ (codes "\r\nContent-Type: application/json\r\n\r\n" ++ codes "{}"))))
error_response-whole_example =
    error_response-whole platform 404 (codes "404 Not Found") [] (omega arith) (omega arith)
