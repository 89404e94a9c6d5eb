-- ===== src/Json/Tests.antt =====
-- Runs of the JSON writer and parser.
use cclib.Base.{
  length, ◌≤◌, drop, arith, ◌-◌, ◌+◌, ◌^◌, some, [], ℕ, ◌≡◌, refl, true, Bytes, codes, false,
}
use cclib.Base.Int.{pos, negsuc}
use cclib.Var.Value.{
  Var, float, list, blank, bool, integer, string, array, dict, nil, cons, none_left, pair,
}
use cclib.Var.Compare.{compare}
use cclib.Var.Dict.{insert}
use cclib.Json.Parser.{parsed, invalid_syntax, parse}
use cclib.Json.Create.{text, failed, no_string_dict_key, create}
use cclib.Json.Create.Printer.{print, rounds}
use cclib.Json.Create.Refines.{after, create-print}
use cclib.Json.Escape.{append_string, show_int}
use cclib.Json.Nice.{push_tab, pop_tab, create_nice}
use cclib.Json.Nice.Printer.{print_nice}
use cclib.Json.Nice.Refines.{create_nice-print}
use cclib.Json.Nice.Indentation.{IsIndent, start-IsIndent, push_tab-fits}
use cclib.Json.Lexer.{recognize_terminal}
use cclib.Json.Text.{plain, unescape, strtoll}
use cclib.Json.Actions.{quoted}
use cclib.Json.Strings.{recognize-quoted_text}
use cclib.Json.Decimals.{recognize-show_int}

-- A `strtod` that reads every text as one half.
abbrev one_half : Bytes → ℕ
one_half s = 0x3fe0_0000_0000_0000

parse_object :
    parse one_half 200 (codes "{\"b\": [1,-20, true,null,\"x\\n\"],\"a\":{}}")
    ≡ parsed (
        dict (
          pair (string (codes "a")) (dict none_left) (
            pair
              (string (codes "b"))
              (array (
                cons (integer (pos 1)) (
                  cons
                    (integer (negsuc 19))
                    (cons (bool true) (cons blank (cons (string (codes "x\n")) nil))))))
              none_left)))
unfolding parse insert compare
parse_object = refl

trailing_comma : parse one_half 100 (codes "{\"b\":[1,]}") ≡ invalid_syntax
unfolding parse
trailing_comma = refl

-- A stream that writes every `double` as one half.
abbrev half_text : ℕ → Bytes
half_text d = codes "0.500000"

abbrev sample : Var
sample = dict (
    pair (string (codes "a\"")) (list (cons (integer (negsuc 41)) (cons (bool false) nil)))
      (pair (string (codes "b")) (array (cons (float 7) nil)) none_left))

sample_text : create half_text 11 sample ≡ text (codes "{\"a\\\"\":[-42,false],\"b\":[0.500000]}")
unfolding create append_string show_int
sample_text = refl

blank_key : create half_text 3 (dict (pair blank blank none_left)) ≡ failed no_string_dict_key
unfolding create append_string show_int
blank_key = refl

create-print_example :
    create half_text (rounds sample + 2) sample ≡ after text (print half_text sample)
create-print_example = create-print half_text sample 2

recognize-quoted_text_example :
    (end : ℕ) × (recognize_terminal (codes "[\"\\nx\"]") 1 ≡ (some 0, end))
    × (drop end (codes "[\"\\nx\"]") ≡ codes "]")
    × (unescape plain
          (quoted (codes "[\"\\nx\"]") (record { state = 0; term_start = 1; term_end = end }))
          []
        ≡ some (codes "\nx"))
unfolding append_string
recognize-quoted_text_example =
    recognize-quoted_text (codes "[\"\\nx\"]") (codes "\nx") (codes "]") 1
      ((omega arith, omega arith), ((omega arith, omega arith), tt)) refl

recognize-show_int_example :
    (end : ℕ) × (recognize_terminal (codes "[-9223372036854775808]") 1 ≡ (some 1, end))
    × (drop end (codes "[-9223372036854775808]") ≡ codes "]")
    × (strtoll (codes "-9223372036854775808]") ≡ negsuc (2 ^ 63 - 1))
unfolding show_int
recognize-show_int_example =
    recognize-show_int (codes "[-9223372036854775808]") (codes "]") (negsuc (2 ^ 63 - 1)) 1
      (omega arith) refl refl

sample_lines :
    create_nice half_text (codes "  ") 11 sample
    ≡ text (codes "{\n  \"a\\\"\":[\n    -42,\n    false\n  ],\n  \"b\":[\n    0.500000\n  ]\n}")
unfolding create_nice append_string show_int
sample_lines = refl

create_nice-print_example :
    create_nice half_text (codes "  ") (rounds sample + 2) sample
    ≡ after text (print_nice half_text (codes "  ") 0 sample)
create_nice-print_example = create_nice-print half_text (codes "  ") sample 2

push_tab-fits_example :
    IsIndent (codes "  ") 1 (push_tab (codes "  ") (record { buffer = []; size = 0 }))
    × ((push_tab (codes "  ") (record { buffer = []; size = 0 })).size
        ≤ length (push_tab (codes "  ") (record { buffer = []; size = 0 })).buffer)
    × ((pop_tab (codes "  ") (push_tab (codes "  ") (record { buffer = []; size = 0 }))).size ≡ 0)
push_tab-fits_example =
    push_tab-fits (codes "  ") 0 (record { buffer = []; size = 0 }) (start-IsIndent (codes "  "))
