-- ===== src/Proxy/Config/States.antt =====
-- The lines of a configuration file, and the states of the parser between them.
use micro_business_server.Base.{
  ℕ, Bool, true, false, ◌&&◌, [], ◌∷◌, ◌++◌, ◌≡◌, refl, arith, ◌==◌, All,
}
use micro_business_server.Base.Map.{Map, text_key}
use micro_business_server.Base.Text.{Bytes, codes}
use micro_business_server.Proxy.Config.Printing.{Line, IsLine}
use micro_business_server.Proxy.Config.Spaced.{is_plain, IsWord}
use micro_business_server.Proxy.Config.Reading.{good}
use micro_business_server.Proxy.Config.{
  Parser, Location, begain, in_server, in_location, in_upstream,
}
use micro_business_server.Proxy.InetAddress.Decimal.{
  IsDecimal, to_string-IsDecimal, to_string-ne-nil,
}
use micro_business_server.Proxy.InetAddress.{to_string}

abbrev pub all_plain : Bytes → Bool
all_plain [] = true
all_plain (c ∷ w) = is_plain c && all_plain w

pub all_plain_lem : (w : Bytes) → all_plain w ≡ true → All (λ c. is_plain c ≡ true) w
all_plain_lem [] h = tt
all_plain_lem (c ∷ w) h = (ground arith, all_plain_lem w (ground arith))

-- A word of letters is a word.
pub fixed-IsWord : (c : ℕ) (w : Bytes) → all_plain (c ∷ w) ≡ true → IsWord (c ∷ w)
fixed-IsWord c w h = record { ne_nil = λ e. cc; plain = all_plain_lem (c ∷ w) h }

decimal_plain : (s : Bytes) → IsDecimal s → All (λ c. is_plain c ≡ true) s
decimal_plain [] h = tt
decimal_plain (c ∷ s) h = (ground (arith, h.0), decimal_plain s h.1)

pub to_string-IsWord : (n : ℕ) → IsWord (to_string n)
to_string-IsWord n = record {
  ne_nil = to_string-ne-nil n;
  plain = decimal_plain (to_string n) (to_string-IsDecimal n);
}

abbrev pub setting : Bytes → Bytes → Line
setting key value = record { first = key; others = value ∷ []; ended = true }

abbrev pub opening : Bytes → Bytes → Line
opening key name = record { first = key; others = name ∷ codes "{" ∷ []; ended = false }

abbrev pub closing : Line
closing = record { first = codes "}"; others = []; ended = false }

abbrev pub outside : Parser → Parser
outside p = good (record p {
  check_state = begain;
  server_left_bracket = false;
  location_left_bracket = false;
  upstream_left_bracket = false;
})

abbrev pub within_server : Parser → Parser
within_server p = good (record p {
  check_state = in_server;
  server_left_bracket = true;
  location_left_bracket = false;
  upstream_left_bracket = false;
})

abbrev pub within_location : Parser → Parser
within_location p = good (record p {
  check_state = in_location;
  server_left_bracket = true;
  location_left_bracket = true;
  upstream_left_bracket = false;
})

abbrev pub within_upstream : Parser → Parser
within_upstream p = good (record p {
  check_state = in_upstream;
  server_left_bracket = false;
  location_left_bracket = false;
  upstream_left_bracket = true;
})

abbrev pub with_locations : Map Bytes Location → Parser → Parser
with_locations m p = record p { server = record p.server { locations = m } }

pub closing-IsLine : IsLine closing
closing-IsLine = record { first = fixed-IsWord b'}' [] refl; others = tt }

abbrev pub server_opening : Line
server_opening = record { first = codes "server"; others = codes "{" ∷ []; ended = false }

-- An address of a server in the file: no byte of it ends the word, and the first colon is the one
-- in front of the port.
pub record IsAddress (a : Bytes × Bytes) : Type 0 where
  pub ip : All (λ c. is_plain c ≡ true) a.0
  pub port : All (λ c. is_plain c ≡ true) a.1
  pub no_colon : All (λ c. (c == b':') ≡ false) a.0

abbrev pub address_text : Bytes × Bytes → Bytes
address_text (ip, port) = ip ++ b':' ∷ port
