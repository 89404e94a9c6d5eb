-- ===== src/Json/Escape.antt =====
-- `append_string` of lib/ccljson.cc, and the decimal text of an `int64_t` that a stream writes.
use cclib.Base.{
  ◌≡◌, ◌∙◌, ap, sym, append-nil, append_assoc, ℕ, zero, suc, ◌+◌, ◌/◌, ◌%◌, true, false, [], ◌∷◌,
  ◌++◌, Bytes, ◌==◌, if◌then◌else◌,
}
use cclib.Base.Int.{ℤ, pos, negsuc}

-- What the `switch` puts for a character.
unfoldable pub escape_char : ℕ → Bytes
escape_char c =
    if c == 8
    then b'\\' ∷ b'b' ∷ []
    else if c == 12
    then b'\\' ∷ b'f' ∷ []
    else if c == 10
    then b'\\' ∷ b'n' ∷ []
    else if c == 13
    then b'\\' ∷ b'r' ∷ []
    else if c == 9
    then b'\\' ∷ b't' ∷ []
    else if c == b'\\'
    then b'\\' ∷ b'\\' ∷ []
    else if c == b'"'
    then b'\\' ∷ b'"' ∷ []
    else c ∷ []

unfoldable pub append_string : Bytes → Bytes → Bytes
unfolding escape_char
append_string strbuf [] = strbuf
append_string strbuf (c ∷ s) = append_string (strbuf ++ escape_char c) s

pub append_string-append :
    (strbuf s : Bytes) → append_string strbuf s ≡ strbuf ++ append_string [] s
unfolding append_string
append_string-append strbuf [] = rw append-nil
append_string-append strbuf (c ∷ s) =
    append_string-append (strbuf ++ escape_char c) s
    ∙ append_assoc strbuf (escape_char c) (append_string [] s)
    ∙ ap (λ t. strbuf ++ t) (sym (append_string-append (escape_char c) s))

-- The decimal digits of a number; a unit of fuel for each digit.
unfoldable pub digits : ℕ → ℕ → Bytes → Bytes
digits zero n text = text
digits (suc fuel) n text = elim (n / 10 == 0) [
  | true ↦ (b'0' + n % 10) ∷ text
  | false ↦ digits fuel (n / 10) ((b'0' + n % 10) ∷ text)
]

unfoldable pub decimal : ℕ → Bytes
unfolding digits
decimal n = digits (suc n) n []

-- `os << n`.
unfoldable pub show_int : ℤ → Bytes
unfolding decimal
show_int (pos n) = decimal n
show_int (negsuc n) = b'-' ∷ decimal (suc n)
