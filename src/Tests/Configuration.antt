-- ===== src/Tests/Configuration.antt =====
-- The theorems on the configuration file at small files.
use micro_business_server.Base.{◌≤◌, some, ◌≡◌, refl, arith, length}
use micro_business_server.Base.Except.{ok, stoi}
use micro_business_server.Base.Int.{pos}
use micro_business_server.Base.Text.{Bytes, codes, find_first, find_last}
use micro_business_server.Proxy.Config.Words.{Finished, word_loop-ends}
use micro_business_server.Proxy.Config.{
  Parser, new_parser, parse, parse_lines, parse_trimmed, parse_switch, parse_begain, lines_from,
  trim, trim_from, words, words_from, word_loop, server_round, location_round, upstream_round,
  parse_server, parse_location, parse_upstream,
}

abbrev threads_file : Bytes
threads_file = codes "threadNum 4 # workers\n"

abbrev four_threads : Parser
four_threads = new_parser (pos 0) (pos 4) (pos 0)

four_threads_read : parse (new_parser (pos 0) (pos 0) (pos 0)) (some threads_file) ≡ ok four_threads
unfolding parse parse_lines parse_trimmed parse_switch parse_begain lines_from trim trim_from words
    words_from find_first find_last stoi
four_threads_read = refl

abbrev server_line : Bytes
server_line = codes "listen 8888"

five_words : length (words server_line) ≤ 5
unfolding words words_from
five_words = omega arith

word_loop-ends_example :
    Finished (parse_server four_threads server_line)
    × Finished (parse_location four_threads server_line)
    × Finished (parse_upstream four_threads server_line)
    × (word_loop server_round 5 four_threads (words server_line)
        ≡ parse_server four_threads server_line)
    × (word_loop location_round 5 four_threads (words server_line)
        ≡ parse_location four_threads server_line)
    × (word_loop upstream_round 5 four_threads (words server_line)
        ≡ parse_upstream four_threads server_line)
word_loop-ends_example = word_loop-ends four_threads server_line 5 five_words
