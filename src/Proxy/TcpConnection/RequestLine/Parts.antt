-- ===== src/Proxy/TcpConnection/RequestLine/Parts.antt =====
-- The parts of a request line, and where its first and its last space stand.
use micro_business_server.Base.{
  ℕ, suc, ◌+◌, ◌-◌, ◌≤◌, ◌<◌, true, false, ◌||◌, [], ◌∷◌, ◌++◌, some, inl, inr, ◌⊎◌, ◌≢◌, ◌≡◌, refl,
  sym, ap, ◌∙◌, arith, ◌==◌, length, take, drop, length-append, All, append_assoc,
}
use micro_business_server.Base.Positions.{
  at-drop, at-lt-length, at-split, drop-drop, take-front, drop_past, find_first-at,
  find_last-append,
}
use micro_business_server.Base.Search.{find_last-some, find_first-misses}
use micro_business_server.Base.Text.{
  Bytes, codes, text_eq, text_eq_iff, find_first, find_last, at, substr,
}
use micro_business_server.Proxy.TcpConnection.{is_space, is_method, is_protocol}

-- The line without its last byte.
abbrev pub request_line : Bytes → Bytes → Bytes → Bytes
request_line method path protocol = method ++ b' ' ∷ (path ++ b' ' ∷ protocol)

one_of : (s a b : Bytes) → (text_eq s a || text_eq s b) ≡ true → (s ≡ a) ⊎ (s ≡ b)
one_of s a b h = ground (arith, text_eq_iff s a, text_eq_iff s b)

abbrev NoSpace : Bytes → Type 0
NoSpace s = All (λ x. is_space x ≡ false) s

pub method-NoSpace : (s : Bytes) → is_method s ≡ true → NoSpace s
unfolding find_first
method-NoSpace s h = elim (one_of s (codes "GET") (codes "POST") h) [
  | inl e ↦ rw e (find_first-misses is_space (codes "GET") refl)
  | inr e ↦ rw e (find_first-misses is_space (codes "POST") refl)
]

pub protocol-NoSpace : (s : Bytes) → is_protocol s ≡ true → NoSpace s
unfolding find_first
protocol-NoSpace s h = elim (one_of s (codes "HTTP/1.1") (codes "HTTP/1.0") h) [
  | inl e ↦ rw e (find_first-misses is_space (codes "HTTP/1.1") refl)
  | inr e ↦ rw e (find_first-misses is_space (codes "HTTP/1.0") refl)
]

not_equal : (m n : ℕ) → m ≢ n → (m == n) ≡ false
not_equal m n h = ground arith

module _ (method path protocol : Bytes) where
  regroup : request_line method path protocol ≡ (method ++ b' ' ∷ path) ++ b' ' ∷ protocol
  regroup = sym (append_assoc method (b' ' ∷ path) (b' ' ∷ protocol))

  pub last_space :
      NoSpace protocol
      → find_last is_space
          (request_line method path protocol)
          (length (request_line method path protocol) - 1)
        ≡ some (length (method ++ b' ' ∷ path))
  last_space h = rw regroup (
      find_last-append is_space (method ++ b' ' ∷ path) b' ' protocol _ refl h
        (omega (arith, length-append (method ++ b' ' ∷ path) (b' ' ∷ protocol))))

  pub path_part :
      substr
        (request_line method path protocol)
        (length method + 1)
        (length (method ++ b' ' ∷ path) - length method - 1)
      ≡ path
  path_part =
      rw (drop_past method b' ' (path ++ b' ' ∷ protocol) _ refl)
        (take-front path _ _ (omega (arith, length-append method (b' ' ∷ path))))

  pub protocol_part :
      drop (length (method ++ b' ' ∷ path) + 1) (request_line method path protocol) ≡ protocol
  protocol_part = rw regroup (drop_past (method ++ b' ' ∷ path) b' ' protocol _ refl)

  pub spaces_differ : (length (method ++ b' ' ∷ path) == length method) ≡ false
  spaces_differ = not_equal _ _ (omega (arith, length-append method (b' ' ∷ path)))

order : (m n : ℕ) → (m < n) ⊎ ((m ≡ n) ⊎ (n < m))
order m n = omega arith

first_before_last :
    (line : Bytes) (b1 b2 : ℕ)
    → at is_space line b1 ≡ true
    → ((k : ℕ) → b2 < k → k ≤ length line - 1 → at is_space line k ≡ false)
    → (b2 == b1) ≡ false
    → b1 < b2
first_before_last line b1 b2 hit miss differ = elim (order b1 b2) [
  | inl lt ↦ lt
  | inr (inl e) ↦ ground arith
  | inr (inr gt) ↦
      let none_there = miss b1 gt (omega (arith, at-lt-length is_space line b1 hit)) in cc
]

pub two_spaces :
    (line : Bytes) (b1 b2 : ℕ)
    → find_first is_space line ≡ some b1
    → find_last is_space line (length line - 1) ≡ some b2
    → (b2 == b1) ≡ false
    → line ≡ request_line (take b1 line) (substr line (b1 + 1) (b2 - b1 - 1)) (drop (b2 + 1) line)
two_spaces line b1 b2 f l differ =
    let hit1 = find_first-at is_space line b1 f in
    let (le, hit2, miss) = find_last-some is_space line (length line - 1) b2 l in
    let lt = first_before_last line b1 b2 hit1 miss differ in
    let k = b2 - b1 - 1 in
    let there : b1 + 1 + k ≡ b2 = omega arith in
    let behind = drop (b1 + 1) line in
    let hit3 : at is_space behind k ≡ true =
      at-drop is_space (b1 + 1) line k ∙ ap (at is_space line) there ∙ hit2 in
    let past : drop (k + 1) behind ≡ drop (b2 + 1) line =
      drop-drop (k + 1) (b1 + 1) line ∙ ap (λ n. drop n line) (omega arith) in
    at-split b' ' line b1 hit1
    ∙ ap (λ t. take b1 line ++ b' ' ∷ t)
        (at-split b' ' behind k hit3 ∙ ap (λ t. take k behind ++ b' ' ∷ t) past)

pub last_byte :
    (raw : Bytes) → 0 < length raw → (e : ℕ) × (raw ≡ take (length raw - 1) raw ++ e ∷ [])
last_byte [] h = absurd (omega arith)
last_byte (x ∷ []) h = (x, refl)
last_byte (x ∷ y ∷ raw) h =
    let (e, is) = last_byte (y ∷ raw) (omega arith) in
    let z : suc (suc (length raw)) - 1 ≡ suc (suc (length raw) - 1) = omega arith in
    (e, rw z (ap (◌∷◌ x) is))
