-- ===== src/Proxy/InetAddress/Decimal.antt =====
-- `std::to_string` of a number: it is read back by `std::stoi`, and how long it is.
use micro_business_server.Base.{
  ℕ, zero, suc, ◌+◌, ◌*◌, ◌-◌, ◌/◌, ◌%◌, ◌^◌, ◌≤◌, ◌<◌, true, false, [], ◌∷◌, ◌++◌, ◌≡◌, ◌≢◌, ◌⊎◌,
  inl, inr, refl, ◌∙◌, arith, ltb, ◌==◌, length, length-append, All,
}
use micro_business_server.Base.Except.{ok, stoi, is_blank, is_digit, digits_value}
use micro_business_server.Base.Int.{pos}
use micro_business_server.Base.Text.{Bytes}
use micro_business_server.Proxy.InetAddress.{to_string_loop, to_string}

abbrev pub IsDecimal : Bytes → Type 0
IsDecimal s = All (λ c. is_digit c ≡ true) s

IsDecimal-snoc : (s : Bytes) (d : ℕ) → IsDecimal s → d < 10 → IsDecimal (s ++ (48 + d) ∷ [])
IsDecimal-snoc [] d h lt = (ground arith, tt)
IsDecimal-snoc (c ∷ s) d h lt = (h.0, IsDecimal-snoc s d h.1 lt)

digits_value-snoc :
    (acc : ℕ) (s : Bytes) (d : ℕ)
    → IsDecimal s
    → d < 10
    → digits_value acc (s ++ (48 + d) ∷ []) ≡ digits_value acc s * 10 + d
digits_value-snoc acc [] d h lt = ground arith
digits_value-snoc acc (c ∷ s) d h lt = rw (h.0) (digits_value-snoc (acc * 10 + (c - 48)) s d h.1 lt)

-- Of a number that the fuel is enough for.
module _ (fuel n : ℕ) where
  to_string_loop_one : n < 10 → to_string_loop (suc fuel) n ≡ (48 + n) ∷ []
  unfolding to_string_loop
  to_string_loop_one lt = ground arith

  to_string_loop_more :
      10 ≤ n → to_string_loop (suc fuel) n ≡ to_string_loop fuel (n / 10) ++ (48 + n % 10) ∷ []
  unfolding to_string_loop
  to_string_loop_more le = ground arith

one_digit : (n : ℕ) → (n < 10) ⊎ (10 ≤ n)
one_digit n = omega arith

to_string_loop_lem :
    (fuel n : ℕ)
    → n < fuel
    → IsDecimal (to_string_loop fuel n)
      × (digits_value 0 (to_string_loop fuel n) ≡ n)
      × (to_string_loop fuel n ≢ [])
to_string_loop_lem zero n h = absurd (omega arith)
to_string_loop_lem (suc fuel) n h = elim (one_digit n) [
  | inl lt ↦ rw (to_string_loop_one fuel n lt) ((ground arith, tt), ground arith, λ e. cc)
  | inr le ↦
      let (decimal, value, _) = to_string_loop_lem fuel (n / 10) (omega arith) in
      let front = to_string_loop fuel (n / 10) in
      rw (to_string_loop_more fuel n le) (
        IsDecimal-snoc front (n % 10) decimal (omega arith),
        digits_value-snoc 0 front (n % 10) decimal (omega arith) ∙ rw value (omega arith),
        snoc-ne-nil front (48 + n % 10),
      )
]
  where
    snoc-ne-nil : (s : Bytes) (c : ℕ) → s ++ c ∷ [] ≢ []
    snoc-ne-nil [] c e = cc
    snoc-ne-nil (x ∷ s) c e = cc

pub to_string-IsDecimal : (n : ℕ) → IsDecimal (to_string n)
unfolding to_string
to_string-IsDecimal n = (to_string_loop_lem (suc n) n (omega arith)).0

ltb_of_lt : (a b : ℕ) → a < b → ltb a b ≡ true
ltb_of_lt a b h = ground arith

digit_is_plain :
    (c : ℕ)
    → is_digit c ≡ true
    → (is_blank c ≡ false) × ((c == b'-') ≡ false) × ((c == b'+') ≡ false)
digit_is_plain c h = (ground arith, ground arith, ground arith)

stoi-decimal :
    (s : Bytes)
    → IsDecimal s
    → s ≢ []
    → digits_value 0 s < 2 ^ 31
    → stoi s ≡ ok (pos (digits_value 0 s))
unfolding stoi
stoi-decimal [] h ne lt = absurd (ne refl)
stoi-decimal (c ∷ s) h ne lt =
    let (blank, minus, plus) = digit_is_plain c h.0 in
    rw
      (blank, minus, plus, h.0, ltb_of_lt (digits_value (0 + (c - 48)) s) (2 ^ 31) (rw (h.0) at lt))

-- The text of a number below 2^31 is read back as that number.
pub stoi-to_string : (n : ℕ) → n < 2 ^ 31 → stoi (to_string n) ≡ ok (pos n)
unfolding to_string
stoi-to_string n h =
    let (decimal, value, ne) = to_string_loop_lem (suc n) n (omega arith) in
    stoi-decimal (to_string_loop (suc n) n) decimal ne (rw value h) ∙ rw value

-- 10 to the power of the number of digits.
unfoldable pub pow10 : ℕ → ℕ
pow10 zero = 1
pow10 (suc k) = 10 * pow10 k

length-to_string_loop :
    (fuel n k : ℕ) → n < fuel → n < pow10 (suc k) → length (to_string_loop fuel n) ≤ suc k
unfolding pow10
length-to_string_loop zero n k h lt = absurd (omega arith)
length-to_string_loop (suc fuel) n zero h lt =
    rw (to_string_loop_one fuel n (omega arith)) (omega arith)
length-to_string_loop (suc fuel) n (suc k) h lt = elim (one_digit n) [
  | inl one ↦ rw (to_string_loop_one fuel n one) (omega arith)
  | inr le ↦ rw (to_string_loop_more fuel n le) (
      omega (
        arith,
        length-append (to_string_loop fuel (n / 10)) ((48 + n % 10) ∷ []),
        length-to_string_loop fuel (n / 10) k (omega arith) (omega arith),
      ))
]

pub length-to_string : (n k : ℕ) → n < pow10 (suc k) → length (to_string n) ≤ suc k
unfolding to_string
length-to_string n k lt = length-to_string_loop (suc n) n k (omega arith) lt

pub to_string-ne-nil : (n : ℕ) → to_string n ≢ []
unfolding to_string
to_string-ne-nil n = (to_string_loop_lem (suc n) n (omega arith)).2
