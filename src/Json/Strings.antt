-- ===== src/Json/Strings.antt =====
-- Strings in JSON text: `append_string` of lib/ccljson.cc, the lexer, and `pa_json_string` of
-- lib/ccljson_parse_actions.cc.
use cclib.Base.{
  ℕ, suc, ◌+◌, Option, none, some, [], ◌∷◌, ◌++◌, ◌≡◌, ◌∙◌, arith, Bytes, append-nil, append_assoc,
  ap, ◌<◌, length, All, length-append, drop, sym, drop-drop, ◌-◌, take, take-length-append,
  drop-length-append,
}
use cclib.Json.Escape.{escape_char, append_string, append_string-append}
use cclib.Json.Automaton.{state_0, state_2, next}
use cclib.Json.Lexer.{peek, run, recognize_terminal}
use cclib.Json.Actions.{quoted}
use cclib.Json.Create.Printer.{quoted_text}
use cclib.Json.Actions.{quoted}
use cclib.Json.Create.Printer.{quoted_text}
use cclib.Json.Text.{unescape, unescape_char, plain}

unescape-escape_char :
    (c : ℕ) (t r : Bytes) → unescape plain (escape_char c ++ t) r ≡ unescape plain t (r ++ c ∷ [])
unfolding unescape escape_char unescape_char
unescape-escape_char c t r = ground arith

append_string-cons :
    (c : ℕ) (s : Bytes) → append_string [] (c ∷ s) ≡ escape_char c ++ append_string [] s
unfolding append_string
append_string-cons c s = append_string-append (escape_char c) s

unescape-append : (s r : Bytes) → unescape plain (append_string [] s) r ≡ some (r ++ s)
unescape-append [] r = unfold append_string in unfold unescape in rw append-nil
unescape-append (c ∷ s) r =
    ap (λ t. unescape plain t r) (append_string-cons c s)
    ∙ unescape-escape_char c (append_string [] s) r
    ∙ unescape-append s (r ++ c ∷ [])
    ∙ rw append_assoc

-- The lexer passes over a character of the text, behind a character `b` of the string.
run-escape_char :
    (c b : ℕ) (t : Bytes) (idx : ℕ) (r : Option ℕ × ℕ)
    → 0 < b
    → 0 < c
    → c < 256
    → ((e : ℕ) → 0 < e → run state_2 (e ∷ t) (idx + length (escape_char c)) ≡ r)
    → run state_2 (b ∷ (escape_char c ++ t)) idx ≡ r
unfolding escape_char run
run-escape_char c b t idx r hb h0 h h' =
    ground (arith, h' c h0, h' b'b', h' b'f', h' b'n', h' b'r', h' b't')

-- A byte that is not NUL, where the lexer takes the source to end.
abbrev pub IsTextByte : ℕ → Type 0
IsTextByte c = (0 < c) × (c < 256)

run-append_string :
    (s : Bytes) (b : ℕ) (rest : Bytes) (idx : ℕ)
    → All IsTextByte s
    → 0 < b
    → run state_2 (b ∷ (append_string [] s ++ b'"' ∷ rest)) idx
      ≡ (some 0, suc (idx + suc (length (append_string [] s))))
run-append_string [] b rest idx hs hb = unfold append_string in unfold run in ground arith
run-append_string (c ∷ s) b rest idx ((h0, h), hs) hb =
    let text = append_string-cons c s in
    let len : length (append_string [] (c ∷ s))
        ≡ length (escape_char c) + length (append_string [] s) =
      ap length text ∙ length-append (escape_char c) (append_string [] s) in
    ap (λ t. run state_2 (b ∷ (t ++ b'"' ∷ rest)) idx) text
    ∙ ap (λ t. run state_2 (b ∷ t) idx)
        (append_assoc (escape_char c) (append_string [] s) (b'"' ∷ rest))
    ∙ run-escape_char c b (append_string [] s ++ b'"' ∷ rest) idx _ hb h0 h (λ e he.
      run-append_string s e rest (idx + length (escape_char c)) hs he
      ∙ ap (λ n. (some 0, n)) (omega (arith, len)))

recognize_terminal-string :
    (source u : Bytes) (idx : ℕ)
    → drop idx source ≡ b'"' ∷ u
    → recognize_terminal source idx ≡ run state_2 (b'"' ∷ u) idx
unfolding recognize_terminal
recognize_terminal-string source u idx h =
    ap (λ s. elim (next state_0 (peek s)) [ none ↦ (none, idx) | some q ↦ run q s idx ]) h

-- Text that begins with a quote, the characters that `append_string` writes for bytes that are not
-- NUL, and a quote is recognized as a string that ends behind the second quote; what the parse
-- action reads between the quotes are those bytes.
pub recognize-quoted_text :
    (source s rest : Bytes) (idx : ℕ)
    → All IsTextByte s
    → drop idx source ≡ quoted_text s ++ rest
    → (end : ℕ) × (recognize_terminal source idx ≡ (some 0, end))
      × (drop end source ≡ rest)
      × (unescape plain (quoted source (record { state = 0; term_start = idx; term_end = end })) []
          ≡ some s)
recognize-quoted_text source s rest idx hs h =
    let t = append_string [] s in
    let end = suc (idx + suc (length t)) in
    let split : drop idx source ≡ b'"' ∷ (t ++ b'"' ∷ rest) =
      h ∙ ap (λ u. b'"' ∷ u) (append_assoc t (b'"' ∷ []) rest) in
    let behind : end ≡ (idx + 1) + (length t + 1) = omega arith in
    let inside : drop (idx + 1) source ≡ t ++ b'"' ∷ rest =
      sym (drop-drop idx 1 source) ∙ ap (drop 1) split in
    let size : (end - 1) - (idx + 1) ≡ length t = omega arith in
    (
      end,
      recognize_terminal-string source (t ++ b'"' ∷ rest) idx split
          ∙ run-append_string s b'"' rest idx hs (omega arith),
      ap (λ n. drop n source) behind
          ∙ sym (drop-drop (idx + 1) (length t + 1) source)
          ∙ ap (drop (length t + 1)) inside
          ∙ sym (drop-drop (length t) 1 (t ++ b'"' ∷ rest))
          ∙ ap (drop 1) (drop-length-append t (b'"' ∷ rest)),
      ap (λ u. unescape plain u [])
            (ap (λ n. take n (drop (idx + 1) source)) size
              ∙ ap (take (length t)) inside
              ∙ take-length-append t (b'"' ∷ rest))
          ∙ unescape-append s [],
    )
