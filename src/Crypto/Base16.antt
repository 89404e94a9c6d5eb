-- ===== src/Crypto/Base16.antt =====
-- `base16_encode` and `base16_decode` of lib/cclcrypto.cc.
use cclib.Base.{
  ℕ, zero, suc, ◌+◌, ◌-◌, ◌*◌, ◌/◌, ◌%◌, ◌<◌, ◌≤◌, ◌≡◌, ◌⊎◌, inl, inr, refl, sym, ap, ◌∙◌, true,
  false, ◌&&◌, Option, none, some, [], ◌∷◌, ◌++◌, append-nil, append_assoc, arith, Bytes, codes,
  length, get_or, All, leb, ◌==◌, ==_iff, if◌then◌else◌, holds_below, holds_below_at, Bool-cases,
  Option-cases, map,
}
use cclib.Crypto.Errors.{Result, ok, err, invalid_base16_data_size, invalid_base16_data}

abbrev pub base16_map : Bytes
base16_map = codes "0123456789abcdef"

-- `c_base16_map[i]`.
pub digit : ℕ → ℕ
digit i = get_or base16_map i 0

-- The `for` of `base16_encode`.
encode_loop : Bytes → Bytes → Bytes
encode_loop [] result = result
encode_loop (ch ∷ s) result =
    encode_loop s ((result ++ digit (ch / 16) ∷ []) ++ digit (ch % 16) ∷ [])

unfoldable pub base16_encode : Bytes → Bytes
unfolding encode_loop digit
base16_encode s = encode_loop s []

-- The value of a digit, by the three ranges of the code.
abbrev pub digit_value : ℕ → Option ℕ
digit_value c =
    if leb b'0' c && leb c b'9'
    then some (c - b'0')
    else if leb b'a' c && leb c b'f'
    then some (10 + (c - b'a'))
    else if leb b'A' c && leb c b'F'
    then some (10 + (c - b'A'))
    else none

-- Two digits, in the arithmetic of `unsigned char`.
decode_pair : ℕ → ℕ → Option ℕ
decode_pair first second = elim (digit_value first) [
  | none ↦ none
  | some hi ↦ elim (digit_value second) [
    | none ↦ none
    | some lo ↦ some ((hi * 16 % 256 + lo) % 256)
  ]
]

-- The `for` of `base16_decode`. After a last digit that stands alone the string's terminator is
-- read, which is no digit.
decode_loop : Bytes → Bytes → Result Bytes
decode_loop [] result = ok result
decode_loop (first ∷ []) result = err invalid_base16_data
decode_loop (first ∷ second ∷ s) result = elim (decode_pair first second) [
  | none ↦ err invalid_base16_data
  | some ch ↦ decode_loop s (result ++ ch ∷ [])
]

unfoldable pub base16_decode : Bytes → Result Bytes
unfolding decode_loop decode_pair
base16_decode s = if length s % 2 == 0 then decode_loop s [] else err invalid_base16_data_size

-- The byte's digits are read back; all 256 bytes are evaluated.
pair_table :
    holds_below
      (λ b. elim (decode_pair (digit (b / 16)) (digit (b % 16))) [ none ↦ false | some c ↦ c == b ])
      256
    ≡ true
unfolding holds_below decode_pair digit
pair_table = refl

pair_of_byte : (b : ℕ) → b < 256 → decode_pair (digit (b / 16)) (digit (b % 16)) ≡ some b
pair_of_byte b h = let t = holds_below_at _ 256 {n = b} pair_table h in ground (arith, t)

encode_loop-append : (s result : Bytes) → encode_loop s result ≡ result ++ encode_loop s []
unfolding encode_loop
encode_loop-append [] result = sym (append-nil result)
encode_loop-append (c ∷ s) result =
    let two = digit (c / 16) ∷ digit (c % 16) ∷ [] in
    ap (encode_loop s) (append_assoc result (digit (c / 16) ∷ []) (digit (c % 16) ∷ []))
    ∙ encode_loop-append s (result ++ two)
    ∙ append_assoc result two (encode_loop s [])
    ∙ ap (λ t. result ++ t) (sym (encode_loop-append s two))

encode-cons :
    (c : ℕ) (s : Bytes) → base16_encode (c ∷ s) ≡ digit (c / 16) ∷ digit (c % 16) ∷ base16_encode s
unfolding base16_encode
encode-cons c s = encode_loop-append s (digit (c / 16) ∷ digit (c % 16) ∷ [])

encode-nil : base16_encode [] ≡ []
unfolding base16_encode
encode-nil = refl

-- An encoding has two digits for each byte.
pub length-encode : (s : Bytes) → length (base16_encode s) ≡ 2 * length s
length-encode [] = rw encode-nil
length-encode (c ∷ s) = rw encode-cons (omega (arith, length-encode s))

decode_loop-encode :
    (s result : Bytes)
    → All (λ b. b < 256) s
    → decode_loop (base16_encode s) result ≡ ok (result ++ s)
unfolding decode_loop
decode_loop-encode [] result h = rw encode-nil (rw append-nil)
decode_loop-encode (c ∷ s) result (hc, hs) = rw encode-cons (
    rw (pair_of_byte c hc, decode_loop)
      (decode_loop-encode s (result ++ c ∷ []) hs ∙ ap ok (append_assoc result (c ∷ []) s)))

-- Every string of bytes is read back from its encoding.
pub decode-encode : (s : Bytes) → All (λ b. b < 256) s → base16_decode (base16_encode s) ≡ ok s
unfolding base16_decode
decode-encode s h = ground (arith, length-encode s, decode_loop-encode s [] h)

-- A digit of either case, by the ranges of ASCII.
abbrev pub IsHexDigit : ℕ → Type 0
IsHexDigit c = ((b'0' ≤ c) × (c ≤ b'9')) ⊎ (((b'a' ≤ c) × (c ≤ b'f')) ⊎ ((b'A' ≤ c) × (c ≤ b'F')))

abbrev pub to_lower : ℕ → ℕ
to_lower c = if leb b'A' c && leb c b'Z' then c + 32 else c

lower_table :
    holds_below
      (λ c. elim (digit_value c) [ none ↦ true | some v ↦ (digit v == to_lower c) && leb v 15 ])
      256
    ≡ true
unfolding holds_below digit
lower_table = refl

digit_value-lt : (c v : ℕ) → digit_value c ≡ some v → IsHexDigit c × (c < 256)
digit_value-lt c v h = ground arith

digit_value_sound : (c v : ℕ) → digit_value c ≡ some v → (digit v ≡ to_lower c) × (v < 16)
digit_value_sound c v h =
    let t = holds_below_at _ 256 {n = c} lower_table ((digit_value-lt c v h).1) in
    ground (arith, rw h at t)

digit_value_total : (c : ℕ) → IsHexDigit c → (v : ℕ) × (digit_value c ≡ some v)
digit_value_total c h = elim (Option-cases (digit_value c)) [
  | inl e ↦ absurd (ground arith)
  | inr found ↦ found
]

decode_pair_sound :
    (x y b : ℕ)
    → decode_pair x y ≡ some b
    → (digit (b / 16) ≡ to_lower x)
      × (digit (b % 16) ≡ to_lower y)
      × (b < 256)
      × IsHexDigit x
      × IsHexDigit y
unfolding decode_pair
decode_pair_sound x y b h = elim (Option-cases (digit_value x)) [
  | inl ex ↦ absurd (ground arith)
  | inr (hi, ex) ↦ elim (Option-cases (digit_value y)) [
    | inl ey ↦ absurd (ground arith)
    | inr (lo, ey) ↦
        let (high, hi-lt) = digit_value_sound x hi ex in
        let (low, lo-lt) = digit_value_sound y lo ey in
        let whole : (hi * 16 % 256 + lo) % 256 ≡ b = ground arith in
        let first : b / 16 ≡ hi = omega arith in
        let second : b % 16 ≡ lo = omega arith in
        (
          rw first high,
          rw second low,
          omega arith,
          (digit_value-lt x hi ex).0,
          (digit_value-lt y lo ey).0,
        )
  ]
]

decode_loop_sound :
    (h result s : Bytes)
    → decode_loop h result ≡ ok s
    → (t : Bytes) × (s ≡ result ++ t)
      × (base16_encode t ≡ map to_lower h)
      × All (λ b. b < 256) t
      × All IsHexDigit h
unfolding decode_loop
decode_loop_sound [] result s e = ([], rw append-nil (cc), encode-nil, tt, tt)
decode_loop_sound (x ∷ []) result s e = absurd (ground arith)
decode_loop_sound (x ∷ y ∷ h) result s e = elim (Option-cases (decode_pair x y)) [
  | inl none-here ↦ absurd (ground arith)
  | inr (b, here) ↦
      let rest : decode_loop h (result ++ b ∷ []) ≡ ok s = ground arith in
      let (t, split, digits, bytes, hex) = decode_loop_sound h (result ++ b ∷ []) s rest in
      let (high, low, b-lt, hex-x, hex-y) = decode_pair_sound x y b here in
      (
        b ∷ t,
        split ∙ append_assoc result (b ∷ []) t,
        encode-cons b t ∙ cc,
        (b-lt, bytes),
        (hex-x, (hex-y, hex)),
      )
]

-- What decodes is the encoding of the result, up to the case of the digits: all digits are
-- hexadecimal, their count is even, and the result is a string of bytes.
pub encode-decode :
    (h s : Bytes)
    → base16_decode h ≡ ok s
    → (base16_encode s ≡ map to_lower h)
      × All IsHexDigit h
      × All (λ b. b < 256) s
      × (length h % 2 ≡ 0)
unfolding base16_decode
encode-decode h s e = elim (Bool-cases (length h % 2 == 0)) [
  | inl even ↦
      let looped : decode_loop h [] ≡ ok s = ground arith in
      let (t, split, digits, bytes, hex) = decode_loop_sound h [] s looped in
      (rw split digits, hex, rw split bytes, (==_iff _ 0).0 even)
  | inr odd ↦ absurd (ground arith)
]

decode_pair_total : (x y : ℕ) → IsHexDigit x → IsHexDigit y → (b : ℕ) × (decode_pair x y ≡ some b)
unfolding decode_pair
decode_pair_total x y hx hy =
    let (hi, ex) = digit_value_total x hx in
    let (lo, ey) = digit_value_total y hy in ((hi * 16 % 256 + lo) % 256, ground (arith, ex, ey))

decode_loop_complete :
    (n : ℕ) (h result : Bytes)
    → length h ≡ 2 * n
    → All IsHexDigit h
    → (s : Bytes) × (decode_loop h result ≡ ok s)
unfolding decode_loop
decode_loop_complete n [] result e a = (result, refl)
decode_loop_complete n (x ∷ []) result e a = absurd (omega arith)
decode_loop_complete zero (x ∷ y ∷ h) result e a = absurd (omega arith)
decode_loop_complete (suc n) (x ∷ y ∷ h) result e (hx, (hy, a)) =
    let (b, eb) = decode_pair_total x y hx hy in
    let (s, es) = decode_loop_complete n h (result ++ b ∷ []) (omega arith) a in
    (s, rw (eb, decode_loop) es)

-- An even number of hexadecimal digits decodes.
pub decode_total :
    (h : Bytes) → length h % 2 ≡ 0 → All IsHexDigit h → (s : Bytes) × (base16_decode h ≡ ok s)
unfolding base16_decode
decode_total h even hex =
    let (s, e) = decode_loop_complete (length h / 2) h [] (omega arith) hex in
    (s, ground (arith, e))

-- The size is tested before the digits.
pub decode_odd : (h : Bytes) → length h % 2 ≡ 1 → base16_decode h ≡ err invalid_base16_data_size
unfolding base16_decode
decode_odd h odd = ground arith
