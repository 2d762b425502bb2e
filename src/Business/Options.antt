-- ===== src/Business/Options.antt =====
-- http_server/config.cpp: the options of a business server. `getopt` is the C library's: what its
-- calls return before -1, each option with its argument, is a list. `atoi` is a parameter.
use micro_business_server.Base.{ℕ, List, [], ◌∷◌, ◌≡◌, refl, arith, ◌==◌, if◌then◌else◌, ◌∙◌}
use micro_business_server.Base.Int.{ℤ, pos}
use micro_business_server.Base.Text.{Bytes}

pub record Config : Type 0 where
  pub port : ℤ
  pub sql_num : ℤ
  pub thread_num : ℤ

abbrev pub new_config : Config
new_config = record { port = pos 9006; sql_num = pos 8; thread_num = pos 8 }

module _ (atoi : Bytes → ℤ) where
  -- The `switch` of `parse_arg`.
  unfoldable pub set_option : ℕ → Bytes → Config → Config
  set_option opt optarg c =
      if opt == b'p'
      then record c { port = atoi optarg }
      else if opt == b's'
      then record c { sql_num = atoi optarg }
      else if opt == b't'
      then record c { thread_num = atoi optarg }
      else c

  unfoldable pub parse_arg : List (ℕ × Bytes) → Config → Config
  parse_arg [] c = c
  parse_arg ((opt, optarg) ∷ opts) c = parse_arg opts (set_option opt optarg c)

  -- The value of the last use of an option, or what was there before.
  unfoldable pub last_value : ℕ → List (ℕ × Bytes) → ℤ → ℤ
  last_value key [] before = before
  last_value key ((opt, optarg) ∷ opts) before =
      last_value key opts (if opt == key then atoi optarg else before)

  set_option_fields :
      (opt : ℕ) (optarg : Bytes) (c : Config)
      → ((set_option opt optarg c).port ≡ (if opt == b'p' then atoi optarg else c.port))
        × ((set_option opt optarg c).sql_num ≡ (if opt == b's' then atoi optarg else c.sql_num))
        × ((set_option opt optarg c).thread_num
            ≡ (if opt == b't' then atoi optarg else c.thread_num))
  unfolding set_option
  set_option_fields opt optarg c = (ground arith, ground arith, ground arith)

  -- Each of the three options counts in its last use, wherever it stands among the others; an
  -- option that is not used keeps its value, and every other option changes nothing.
  pub parse_arg_lem :
      (opts : List (ℕ × Bytes)) (c : Config)
      → parse_arg opts c ≡ record {
        port = last_value b'p' opts c.port;
        sql_num = last_value b's' opts c.sql_num;
        thread_num = last_value b't' opts c.thread_num;
      }
  unfolding parse_arg last_value
  parse_arg_lem [] c = refl
  parse_arg_lem ((opt, optarg) ∷ opts) c =
      let (port_is, sql_is, thread_is) = set_option_fields opt optarg c in
      parse_arg_lem opts (set_option opt optarg c) ∙ rw (port_is, sql_is, thread_is)
