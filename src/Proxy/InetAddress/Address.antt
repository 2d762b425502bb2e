-- ===== src/Proxy/InetAddress/Address.antt =====
-- The text of an address: it determines the address, and it is short.
use micro_business_server.Base.{
  ℕ, ◌/◌, ◌%◌, ◌^◌, ◌≤◌, ◌<◌, true, false, [], ◌∷◌, ◌++◌, ◌≡◌, refl, sym, ap, ◌∙◌, arith, ◌==◌,
  length, length-append, All, All-append,
}
use micro_business_server.Base.Except.{ok, stoi, is_digit}
use micro_business_server.Base.Int.{pos}
use micro_business_server.Base.Text.{Bytes}
use micro_business_server.Proxy.InetAddress.Decimal.{
  IsDecimal, to_string-IsDecimal, stoi-to_string, length-to_string, pow10,
}
use micro_business_server.Proxy.InetAddress.{
  InetAddress, swap_bytes, to_string, port, new_address, ip, ip_port,
}

-- The text has no such byte.
abbrev pub Lacks : ℕ → Bytes → Type 0
Lacks c s = All (λ x. (x == c) ≡ false) s

-- A text is cut at the first separator in one way only.
pub cut_once :
    (c : ℕ) (xs ys us vs : Bytes)
    → Lacks c xs
    → Lacks c us
    → xs ++ c ∷ ys ≡ us ++ c ∷ vs
    → (xs ≡ us) × (ys ≡ vs)
cut_once c [] ys [] vs h k e = (refl, cc)
cut_once c [] ys (a ∷ us) vs h k e = let first : c ≡ a = cc in absurd (ground (arith, k.0))
cut_once c (x ∷ xs) ys [] vs h k e = let first : x ≡ c = cc in absurd (ground (arith, h.0))
cut_once c (x ∷ xs) ys (a ∷ us) vs h k e =
    let first : x ≡ a = cc in
    let rest : xs ++ c ∷ ys ≡ us ++ c ∷ vs = cc in
    let (front, back) = cut_once c xs ys us vs h.1 k.1 rest in (cc, back)

to_string_determines : (m n : ℕ) → m < 2 ^ 31 → n < 2 ^ 31 → to_string m ≡ to_string n → m ≡ n
to_string_determines m n h k e =
    let same : ok (pos m) ≡ ok (pos n) =
      sym (stoi-to_string m h) ∙ ap stoi e ∙ stoi-to_string n k in
    cc

digit_other : (c x : ℕ) → is_digit c ≡ false → is_digit x ≡ true → (x == c) ≡ false
digit_other c x h d = ground arith

-- What holds of the digits holds of every byte of a decimal text.
pub IsDecimal-All :
    (P : ℕ → Type 0) → ((x : ℕ) → is_digit x ≡ true → P x) → (s : Bytes) → IsDecimal s → All P s
IsDecimal-All P digit [] d = tt
IsDecimal-All P digit (x ∷ s) d = (digit x d.0, IsDecimal-All P digit s d.1)

-- A decimal text has no other byte in it.
pub IsDecimal-Lacks : (c : ℕ) (s : Bytes) → is_digit c ≡ false → IsDecimal s → Lacks c s
IsDecimal-Lacks c [] h d = tt
IsDecimal-Lacks c (x ∷ s) h d = (ground (arith, d.0), IsDecimal-Lacks c s h d.1)

-- What `inet_ntoa` does, as it is documented: the four numbers of the address with dots between
-- them.
pub record IsDotted (inet_ntoa : ℕ → Bytes) : Type 0 where
  pub dotted :
      (n : ℕ)
      → inet_ntoa n
        ≡ to_string (n % 256)
          ++ b'.'
            ∷ (to_string (n / 256 % 256)
                ++ b'.' ∷ (to_string (n / 65536 % 256) ++ b'.' ∷ to_string (n / 16777216 % 256)))

-- The parts of an address in memory: 32 bits and 16 bits.
pub record IsStored (a : InetAddress) : Type 0 where
  pub addr : a.sin_addr < 2 ^ 32
  pub port : a.sin_port < 2 ^ 16

-- The port is a 16-bit number whatever is stored, and a port that is put into an address is read
-- back.
pub port-new_address :
    (inet_addr : Bytes → ℕ) (text : Bytes) (p : ℕ)
    → p < 2 ^ 16
    → port (new_address inet_addr text p) ≡ p
unfolding port swap_bytes new_address
port-new_address inet_addr [] p h = omega arith
port-new_address inet_addr (c ∷ text) p h = omega arith

port-lt : (a : InetAddress) → port a < 2 ^ 16
unfolding port swap_bytes
port-lt a = omega arith

port_determines :
    (a b : InetAddress) → IsStored a → IsStored b → port a ≡ port b → a.sin_port ≡ b.sin_port
unfolding port swap_bytes
port_determines a b h k e = omega (arith, h.port, k.port)

part-lt : (n : ℕ) → n % 256 < 2 ^ 31
part-lt n = omega arith

parts_lack : (c n : ℕ) → is_digit c ≡ false → Lacks c (to_string n)
parts_lack c n h = IsDecimal-Lacks c (to_string n) h (to_string-IsDecimal n)

module _ (inet_ntoa : ℕ → Bytes) (h : IsDotted inet_ntoa) where
  -- No byte but digits and dots.
  inet_ntoa-All :
      (P : ℕ → Type 0)
      → ((x : ℕ) → is_digit x ≡ true → P x)
      → P b'.'
      → (n : ℕ) → All P (inet_ntoa n)
  inet_ntoa-All P digit dot n =
      let part : (k : ℕ) → All P (to_string k) =
        λ k. IsDecimal-All P digit (to_string k) (to_string-IsDecimal k) in
      rw (h.dotted n) (
        All-append P (to_string (n % 256)) _ (part (n % 256)) (
          dot,
          All-append P (to_string (n / 256 % 256)) _ (part (n / 256 % 256)) (
            dot,
            All-append P (to_string (n / 65536 % 256)) _ (part (n / 65536 % 256))
                (dot, part (n / 16777216 % 256)),
          ),
        ))

  no_colon : (n : ℕ) → Lacks b':' (inet_ntoa n)
  no_colon = inet_ntoa-All (λ x. (x == b':') ≡ false) (λ x d. digit_other b':' x refl d) refl

  -- No byte but digits, dots and the colon.
  pub ip_port-All :
      (P : ℕ → Type 0) (a : InetAddress)
      → ((x : ℕ) → is_digit x ≡ true → P x)
      → P b'.'
      → P b':'
      → All P (ip_port inet_ntoa a)
  unfolding ip_port ip
  ip_port-All P a digit dot colon =
      All-append P (inet_ntoa a.sin_addr) (b':' ∷ to_string (port a))
        (inet_ntoa-All P digit dot a.sin_addr)
        (colon, IsDecimal-All P digit (to_string (port a)) (to_string-IsDecimal (port a)))

  pub ip_port-Lacks :
      (c : ℕ) (a : InetAddress)
      → is_digit c ≡ false
      → (b'.' == c) ≡ false
      → (b':' == c) ≡ false
      → Lacks c (ip_port inet_ntoa a)
  ip_port-Lacks c a digit = ip_port-All (λ x. (x == c) ≡ false) a (λ x. digit_other c x digit)

  inet_ntoa_determines : (m n : ℕ) → m < 2 ^ 32 → n < 2 ^ 32 → inet_ntoa m ≡ inet_ntoa n → m ≡ n
  inet_ntoa_determines m n hm hn e =
      let whole = sym (h.dotted m) ∙ e ∙ h.dotted n in
      let (one, more) =
        cut_once b'.' (to_string (m % 256)) _ (to_string (n % 256)) _
          (parts_lack b'.' (m % 256) refl) (parts_lack b'.' (n % 256) refl) whole in
      let (two, rest) =
        cut_once b'.' (to_string (m / 256 % 256)) _ (to_string (n / 256 % 256)) _
          (parts_lack b'.' (m / 256 % 256) refl) (parts_lack b'.' (n / 256 % 256) refl) more in
      let (three, four) =
        cut_once b'.' (to_string (m / 65536 % 256)) _ (to_string (n / 65536 % 256)) _
          (parts_lack b'.' (m / 65536 % 256) refl) (parts_lack b'.' (n / 65536 % 256) refl) rest in
      let a = to_string_determines (m % 256) (n % 256) (part-lt m) (part-lt n) one in
      let b =
        to_string_determines (m / 256 % 256) (n / 256 % 256) (part-lt (m / 256)) (part-lt (n / 256))
          two in
      let c =
        to_string_determines (m / 65536 % 256) (n / 65536 % 256) (part-lt (m / 65536))
          (part-lt (n / 65536)) three in
      let d =
        to_string_determines (m / 16777216 % 256) (n / 16777216 % 256) (part-lt (m / 16777216))
          (part-lt (n / 16777216)) four in
      omega (arith, a, b, c, d)

  ip_port_parts :
      (a b : InetAddress)
      → ip_port inet_ntoa a ≡ ip_port inet_ntoa b
      → (inet_ntoa a.sin_addr ≡ inet_ntoa b.sin_addr) × (to_string (port a) ≡ to_string (port b))
  unfolding ip_port ip
  ip_port_parts a b e =
      cut_once b':' (inet_ntoa a.sin_addr) (to_string (port a)) (inet_ntoa b.sin_addr)
        (to_string (port b)) (no_colon a.sin_addr) (no_colon b.sin_addr) e

  -- Two addresses with one text are one address, so the table of clients keeps clients apart.
  pub ip_port_determines :
      (a b : InetAddress)
      → IsStored a
      → IsStored b
      → ip_port inet_ntoa a ≡ ip_port inet_ntoa b
      → a ≡ b
  ip_port_determines a b ha hb e =
      let (left, right) = ip_port_parts a b e in
      let addr = inet_ntoa_determines a.sin_addr b.sin_addr ha.addr hb.addr left in
      let ports =
        to_string_determines (port a) (port b) (omega (arith, port-lt a)) (omega (arith, port-lt b))
          right in
      let stored = port_determines a b ha hb ports in cc

  part_length : (n : ℕ) → length (to_string (n % 256)) ≤ 3
  unfolding pow10
  part_length n = length-to_string (n % 256) 2 (omega arith)

  inet_ntoa_length : (n : ℕ) → length (inet_ntoa n) ≤ 15
  inet_ntoa_length n =
      let one = to_string (n % 256) in
      let two = to_string (n / 256 % 256) in
      let three = to_string (n / 65536 % 256) in
      let four = to_string (n / 16777216 % 256) in
      rw (h.dotted n) (
        omega (
          arith,
          length-append one (b'.' ∷ (two ++ b'.' ∷ (three ++ b'.' ∷ four))),
          length-append two (b'.' ∷ (three ++ b'.' ∷ four)),
          length-append three (b'.' ∷ four),
          part_length n,
          part_length (n / 256),
          part_length (n / 65536),
          part_length (n / 16777216),
        ))

  -- Whatever the two fields hold, the port is below 2^16 and the text has at most 21 bytes.
  pub ip_port_bounds : (a : InetAddress) → (port a < 2 ^ 16) × (length (ip_port inet_ntoa a) ≤ 21)
  unfolding ip_port ip pow10
  ip_port_bounds a = (
    port-lt a,
    omega (
      arith,
      port-lt a,
      length-append (inet_ntoa a.sin_addr) (b':' ∷ to_string (port a)),
      inet_ntoa_length a.sin_addr,
      length-to_string (port a) 4 (omega (arith, port-lt a)),
    ),
  )
