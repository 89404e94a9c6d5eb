-- ===== src/Json/Text.antt =====
-- The texts of strings and numbers in lib/ccljson_parse_actions.cc: what `pa_json_string` reads
-- between the quotes, and the `strtoll` of the C library as far as it is called at a number.
use Prim.Native.Nat.{bit_and, bit_or, min}
use cclib.Base.{
  ℕ, ◌+◌, ◌-◌, ◌*◌, ◌/◌, ◌^◌, Bool, true, false, ◌&&◌, Option, none, some, [], ◌∷◌, ◌++◌, Bytes,
  leb, ◌==◌, if◌then◌else◌,
}
use cclib.Base.Int.{ℤ, pos, negsuc}
use cclib.Crypto.Base16.{digit_value}

-- The bytes of a code point, by the branches of the code; four digits reach 0xffff.
unfoldable pub utf8 : ℕ → Bytes
utf8 value =
    if leb value 0x7f
    then value ∷ []
    else if leb value 0x7ff
    then bit_or 0xc0 (value / 2 ^ 6) ∷ bit_or 0x80 (bit_and value 0x3f) ∷ []
    else if leb value 0xffff
    then bit_or 0xe0 (value / 2 ^ 12)
      ∷ bit_or 0x80 (bit_and (value / 2 ^ 6) 0x3f)
      ∷ bit_or 0x80 (bit_and value 0x3f)
      ∷ []
    else []

-- What the `switch` appends for the character behind a backslash; `none` is `assert(false)`.
unfoldable pub unescape_char : ℕ → Option ℕ
unescape_char c =
    if c == b'b'
    then some 8
    else if c == b'f'
    then some 12
    else if c == b'n'
    then some 10
    else if c == b'r'
    then some 13
    else if c == b't'
    then some 9
    else if c == b'\\'
    then some b'\\'
    else if c == b'"'
    then some b'"'
    else none

-- Where the loop of `pa_json_string` stands: before a character, behind a backslash, or in the
-- digits of a code point, with the digits that are still to come and the value so far.
pub data Reading : Type 0 where
  plain escaped : Reading
  unicode : ℕ → ℕ → Reading

-- `none` is `assert(false)`, or a read past the closing quote.
unfoldable pub unescape : Reading → Bytes → Bytes → Option Bytes
unfolding unescape_char utf8
unescape plain [] const_str = some const_str
unescape plain (c ∷ s) const_str = elim (c == b'\\') [
  | true ↦ unescape escaped s const_str
  | false ↦ unescape plain s (const_str ++ c ∷ [])
]
unescape escaped [] const_str = none
unescape escaped (c ∷ s) const_str = elim (c == b'u') [
  | true ↦ unescape (unicode 4 0) s const_str
  | false ↦ elim (unescape_char c) [ none ↦ none | some b ↦ unescape plain s (const_str ++ b ∷ []) ]
]
unescape (unicode n value) [] const_str = none
unescape (unicode n value) (c ∷ s) const_str = elim (digit_value c) [
  | none ↦ none
  | some d ↦ elim (n == 1) [
    | true ↦ unescape plain s (const_str ++ utf8 (value * 16 + d))
    | false ↦ unescape (unicode (n - 1) (value * 16 + d)) s const_str
  ]
]

abbrev pub is_digit : ℕ → Bool
is_digit c = leb b'0' c && leb c b'9'

-- The digits up to the first other character.
unfoldable pub read_digits : Bytes → ℕ → ℕ
read_digits [] n = n
read_digits (c ∷ s) n = elim (is_digit c) [ true ↦ read_digits s (n * 10 + (c - b'0')) | false ↦ n ]

-- The range of `int64_t`, at whose ends `strtoll` stops.
abbrev pub clamp_pos : ℕ → ℤ
clamp_pos n = pos (min n (2 ^ 63 - 1))

abbrev pub clamp_neg : ℕ → ℤ
clamp_neg n = if n == 0 then pos 0 else negsuc (min n (2 ^ 63) - 1)

unfoldable pub strtoll : Bytes → ℤ
unfolding read_digits
strtoll [] = pos 0
strtoll (c ∷ s) =
    if c == b'-' then clamp_neg (read_digits s 0) else clamp_pos (read_digits (c ∷ s) 0)
