-- ===== src/Proxy/TcpConnection/RequestLine.antt =====
-- `parse_request_line` against the form of the lines that it takes.
mod Parts
use micro_business_server.Base.{
  ℕ, suc, ◌+◌, ◌-◌, ◌≤◌, ◌<◌, true, false, ◌||◌, List, [], ◌∷◌, ◌++◌, some, inl, inr, ◌⊎◌, ◌↔◌, ◌≢◌,
  ◌≡◌, refl, sym, ap, ◌∙◌, arith, ◌==◌, length, take, drop, length-append, length-take, All,
  append_assoc,
}
use micro_business_server.Base.Int.{ℤ}
use micro_business_server.Base.Map.{Map}
use micro_business_server.Base.Positions.{
  at-drop, at-lt-length, at-split, drop-drop, take-front, drop_past, find_first-at,
  find_last-append,
}
use micro_business_server.Base.Search.{find_last-some, find_first-append, find_first-misses}
use micro_business_server.Base.Text.{
  Bytes, codes, text_eq, text_eq_iff, find_first, find_last, at, substr,
}
use micro_business_server.Proxy.TcpConnection.RequestLine.Parts.{
  request_line, method-NoSpace, protocol-NoSpace, last_space, path_part, protocol_part,
  spaces_differ, two_spaces, last_byte,
}
use micro_business_server.Proxy.TcpConnection.{
  TcpConnection, HttpCode, get_request, is_space, is_method, is_protocol, find_forward_path,
  parse_target, parse_chopped, parse_request_line,
}

-- A line that is taken: a method, a path under some location and a protocol, each behind one space.
-- The path may hold spaces. The last byte of the line may be any.
pub record IsRequest (table : Map Bytes (List ℤ)) (raw path code : Bytes) : Type 0 where
  pub method : Bytes
  pub protocol : Bytes
  pub ending : ℕ
  pub form : raw ≡ request_line method path protocol ++ ending ∷ []
  pub method_known : is_method method ≡ true
  pub protocol_known : is_protocol protocol ≡ true
  pub under : find_forward_path table path ≡ some code

module _ (table : Map Bytes (List ℤ)) (c : TcpConnection) where
  parse_target-accepts :
      (path protocol code : Bytes)
      → is_protocol protocol ≡ true
      → find_forward_path table path ≡ some code
      → parse_target table c path protocol
        ≡ (record c { path = path; business_code = code }, get_request)
  unfolding parse_target
  parse_target-accepts path protocol code h e = rw (e, parse_target, h)

  parse_chopped_steps :
      (line : Bytes) (b1 b2 : ℕ) (method path protocol : Bytes)
      → find_first is_space line ≡ some b1
      → take b1 line ≡ method
      → is_method method ≡ true
      → find_last is_space line (length line - 1) ≡ some b2
      → (b2 == b1) ≡ false
      → substr line (b1 + 1) (b2 - b1 - 1) ≡ path
      → drop (b2 + 1) line ≡ protocol
      → parse_chopped table c line ≡ parse_target table c path protocol
  unfolding parse_chopped
  parse_chopped_steps line b1 b2 method path protocol e1 e2 e3 e4 e5 e6 e7 =
      rw (e1, e2, e3, e4, e5, e6, e7, parse_chopped)

  parse_chopped-accepts :
      (method path protocol : Bytes)
      → is_method method ≡ true
      → is_protocol protocol ≡ true
      → parse_chopped table c (request_line method path protocol)
        ≡ parse_target table c path protocol
  parse_chopped-accepts method path protocol hm hp =
      parse_chopped_steps (request_line method path protocol) (length method)
        (length (method ++ b' ' ∷ path)) method path protocol
        (find_first-append is_space method b' ' _ (method-NoSpace method hm) refl)
        (take-front method _ (length method) refl) hm
        (last_space method path protocol (protocol-NoSpace protocol hp))
        (spaces_differ method path protocol) (path_part method path protocol)
        (protocol_part method path protocol)

  chop :
      (line : Bytes) (ending : ℕ)
      → take (length (line ++ ending ∷ []) - 1) (line ++ ending ∷ []) ≡ line
  chop line ending =
      take-front line (ending ∷ []) _ (omega (arith, length-append line (ending ∷ [])))

  -- A line of the form is taken.
  accepts :
      (raw path code : Bytes)
      → IsRequest table raw path code
      → parse_request_line table c raw
        ≡ (record c { path = path; business_code = code }, get_request)
  unfolding parse_request_line
  accepts raw path code r =
      rw (r.form, chop (request_line r.method path r.protocol) r.ending)
        (parse_chopped-accepts r.method path r.protocol r.method_known r.protocol_known
          ∙ parse_target-accepts path r.protocol code r.protocol_known r.under)

  -- What a successful parse has met on its way.
  parse_chopped-reaches :
      (line : Bytes) (d : TcpConnection)
      → parse_chopped table c line ≡ (d, get_request)
      → (blank1 : ℕ) × (blank2 : ℕ) × (find_first is_space line ≡ some blank1)
        × (is_method (take blank1 line) ≡ true)
        × (find_last is_space line (length line - 1) ≡ some blank2)
        × ((blank2 == blank1) ≡ false)
        × (parse_target table c
              (substr line (blank1 + 1) (blank2 - blank1 - 1))
              (drop (blank2 + 1) line)
            ≡ (d, get_request))
  unfolding parse_chopped
  parse_chopped-reaches line d h = ground arith

  parse_target-reaches :
      (path protocol : Bytes) (d : TcpConnection)
      → parse_target table c path protocol ≡ (d, get_request)
      → (code : Bytes) × (find_forward_path table path ≡ some code)
        × (is_protocol protocol ≡ true)
        × (d ≡ record c { path = path; business_code = code })
  unfolding parse_target
  parse_target-reaches path protocol d h = ground arith

module _ (table : Map Bytes (List ℤ)) (c : TcpConnection) where
  -- Only such lines are taken.
  accepts_only :
      (raw : Bytes) (d : TcpConnection)
      → parse_request_line table c raw ≡ (d, get_request)
      → IsRequest table raw d.path d.business_code
        × (d ≡ record c { path = d.path; business_code = d.business_code })
  unfolding parse_request_line
  accepts_only raw d h =
      let line = take (length raw - 1) raw in
      let (b1, b2, first, method_known, last, differ, target) =
        parse_chopped-reaches table c line d h in
      let (code, under, protocol_known, result) = parse_target-reaches table c _ _ d target in
      let hit = at-lt-length is_space line b1 (find_first-at is_space line b1 first) in
      let (ending, is) =
        last_byte raw (omega (arith, length-take (length raw - 1) raw (omega arith))) in
      rw result (
        record {
          method = take b1 line;
          protocol = drop (b2 + 1) line;
          ending = ending;
          form = is ∙ ap (λ t. t ++ ending ∷ []) (two_spaces line b1 b2 first last differ);
          method_known = method_known;
          protocol_known = protocol_known;
          under = under;
        },
        refl,
      )

  -- A request line is taken exactly if it is a known method, a path under some location and a known
  -- protocol, with one space behind each of the first two, and one more byte. The connection then
  -- has that path and its business code, and is otherwise as before.
  pub parse_request_line_iff :
      (raw : Bytes) (d : TcpConnection)
      → (parse_request_line table c raw ≡ (d, get_request)) ↔ (
          IsRequest table raw d.path d.business_code
          × (d ≡ record c { path = d.path; business_code = d.business_code }))
  parse_request_line_iff raw d =
      let pair : TcpConnection → TcpConnection × HttpCode = λ x. (x, get_request) in
      (accepts_only raw d, λ r. accepts table c raw d.path d.business_code r.0 ∙ ap pair (sym r.1))
