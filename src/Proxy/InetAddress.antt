-- ===== src/Proxy/InetAddress.antt =====
-- proxy_server/tcp/InetAddress.cc. `inet_ntoa` is the C library's, and a parameter.
pub mod Decimal
pub mod Address
use micro_business_server.Base.{ℕ, zero, suc, ◌+◌, ◌*◌, ◌/◌, ◌%◌, [], ◌∷◌, ◌++◌, ltb, if◌then◌else◌}
use micro_business_server.Base.Text.{Bytes}

-- `struct sockaddr_in`: the address and the port as they stand in memory, in network order.
pub record InetAddress : Type 0 where
  pub sin_addr : ℕ
  pub sin_port : ℕ

-- `ntohs` and `htons` on a little-endian host.
unfoldable pub swap_bytes : ℕ → ℕ
swap_bytes x = x % 256 * 256 + x / 256 % 256

-- `std::to_string`, on fuel.
unfoldable pub to_string_loop : ℕ → ℕ → Bytes
to_string_loop zero n = []
to_string_loop (suc fuel) n =
    let front = to_string_loop fuel (n / 10) in
    if ltb n 10 then (48 + n) ∷ [] else front ++ (48 + n % 10) ∷ []

unfoldable pub to_string : ℕ → Bytes
to_string n = to_string_loop (suc n) n

unfoldable pub port : InetAddress → ℕ
port a = swap_bytes a.sin_port

-- The constructor from a text and a port; `inet_addr` is the C library's. INADDR_ANY is 0.
unfoldable pub new_address : (Bytes → ℕ) → Bytes → ℕ → InetAddress
new_address inet_addr [] port = record { sin_addr = 0; sin_port = swap_bytes port }
new_address inet_addr (c ∷ ip) port = record {
  sin_addr = inet_addr (c ∷ ip);
  sin_port = swap_bytes port;
}

module _ (inet_ntoa : ℕ → Bytes) where
  unfoldable pub ip : InetAddress → Bytes
  ip a = inet_ntoa a.sin_addr

  unfoldable pub ip_port : InetAddress → Bytes
  ip_port a = ip a ++ b':' ∷ to_string (port a)
