-- ===== src/Json/Integers.antt =====
-- Integers in JSON text: what a stream writes for an `int64_t`, and the `strtoll` that
-- `pa_json_integer` of lib/ccljson_parse_actions.cc calls.
use Prim.Native.Nat.{min}
use cclib.Json.Automaton.{state_6, next}
use cclib.Json.Lexer.{peek}
use cclib.Base.{
  ◌++◌, none, ℕ, zero, suc, ◌+◌, ◌-◌, ◌*◌, ◌/◌, ◌%◌, ◌^◌, ◌<◌, [], ◌∷◌, ◌≡◌, refl, ap, ◌∙◌, arith,
  Bytes, inl, inr, Bool-cases, ltb, ltb→lt,
}
use cclib.Base.Int.{ℤ, pos, negsuc}
use cclib.Json.Escape.{digits, decimal, show_int}
use cclib.Json.Text.{read_digits, strtoll, clamp_pos, clamp_neg}

read_digits-digit :
    (d : ℕ) (t : Bytes) (m : ℕ)
    → d < 10
    → read_digits ((b'0' + d) ∷ t) m ≡ read_digits t (m * 10 + d)
unfolding read_digits
read_digits-digit d t m h = let back : (b'0' + d) - b'0' ≡ d = omega arith in ground (arith, back)

pub digits-last : (f n : ℕ) (t : Bytes) → n < 10 → digits (suc f) n t ≡ (b'0' + n) ∷ t
unfolding digits
digits-last f n t h =
    let quotient : n / 10 ≡ 0 = omega arith in
    let remainder : n % 10 ≡ n = omega arith in ground (arith, quotient, remainder)

pub digits-more :
    (f n : ℕ) (t : Bytes) → 9 < n → digits (suc f) n t ≡ digits f (n / 10) ((b'0' + n % 10) ∷ t)
unfolding digits
digits-more f n t h = let quotient : 0 < n / 10 = omega arith in ground (arith, quotient)

read_digits-digits : (f n : ℕ) (t : Bytes) → n < f → read_digits (digits f n t) 0 ≡ read_digits t n
read_digits-digits zero n t h = absurd (omega arith)
read_digits-digits (suc f) n t h = elim (Bool-cases (ltb n 10)) [
  | inl e ↦
      let small = ltb→lt n 10 e in
      let whole : 0 * 10 + n ≡ n = omega arith in
      rw (digits-last f n t small) (read_digits-digit n t 0 small) ∙ ap (read_digits t) whole
  | inr e ↦
      let large : 9 < n = ground (arith, e) in
      let whole : (n / 10) * 10 + n % 10 ≡ n = omega arith in
      rw (digits-more f n t large)
        (read_digits-digits f (n / 10) ((b'0' + n % 10) ∷ t) (omega arith))
      ∙ read_digits-digit (n % 10) t (n / 10) (omega arith)
      ∙ ap (read_digits t) whole
]

-- No sign comes first.
strtoll-cons : (c : ℕ) (t : Bytes) → b'-' < c → strtoll (c ∷ t) ≡ clamp_pos (read_digits (c ∷ t) 0)
unfolding strtoll
strtoll-cons c t h = ground arith

strtoll-digits :
    (f n c : ℕ) (t : Bytes)
    → b'-' < c
    → strtoll (digits f n (c ∷ t)) ≡ clamp_pos (read_digits (digits f n (c ∷ t)) 0)
strtoll-digits zero n c t h = unfold digits in strtoll-cons c t h
strtoll-digits (suc f) n c t h = elim (Bool-cases (ltb n 10)) [
  | inl e ↦
      rw (digits-last f n (c ∷ t) (ltb→lt n 10 e)) (strtoll-cons (b'0' + n) (c ∷ t) (omega arith))
  | inr e ↦
      let large : 9 < n = ground (arith, e) in
      rw (digits-more f n (c ∷ t) large)
        (strtoll-digits f (n / 10) (b'0' + n % 10) (c ∷ t) (omega arith))
]

digits-append : (f n : ℕ) (t rest : Bytes) → digits f n t ++ rest ≡ digits f n (t ++ rest)
digits-append zero n t rest = unfold digits in refl
digits-append (suc f) n t rest = elim (Bool-cases (ltb n 10)) [
  | inl e ↦
      let small = ltb→lt n 10 e in
      rw (digits-last f n t small, digits-last f n (t ++ rest) small) refl
  | inr e ↦
      let large : 9 < n = ground (arith, e) in
      rw (digits-more f n t large, digits-more f n (t ++ rest) large)
        (digits-append f (n / 10) ((b'0' + n % 10) ∷ t) rest)
]

read_digits-decimal :
    (n : ℕ) (rest : Bytes) → read_digits (decimal n ++ rest) 0 ≡ read_digits rest n
unfolding decimal
read_digits-decimal n rest =
    ap (λ t. read_digits t 0) (digits-append (suc n) n [] rest)
    ∙ read_digits-digits (suc n) n rest (omega arith)

strtoll-decimal :
    (n : ℕ) (rest : Bytes)
    → strtoll (decimal n ++ rest) ≡ clamp_pos (read_digits (decimal n ++ rest) 0)
unfolding decimal
strtoll-decimal n rest = rw (digits-append (suc n) n [] rest) (elim (Bool-cases (ltb n 10)) [
  | inl e ↦ rw (digits-last n n rest (ltb→lt n 10 e)) (strtoll-cons (b'0' + n) rest (omega arith))
  | inr e ↦
      let large : 9 < n = ground (arith, e) in
      rw (digits-more n n rest large) (strtoll-digits n (n / 10) (b'0' + n % 10) rest (omega arith))
])

-- What comes behind is no part of a number.
abbrev pub EndsNumber : Bytes → Type 0
EndsNumber rest = next state_6 (peek rest) ≡ none

read_digits-EndsNumber : (rest : Bytes) (n : ℕ) → EndsNumber rest → read_digits rest n ≡ n
unfolding read_digits
read_digits-EndsNumber [] n h = refl
read_digits-EndsNumber (c ∷ rest) n h = ground (arith, h)

-- An `int64_t`.
abbrev pub IsInt64 : ℤ → Type 0
IsInt64 (pos n) = n < 2 ^ 63
IsInt64 (negsuc n) = n < 2 ^ 63

clamp_pos_self : (n : ℕ) → n < 2 ^ 63 → clamp_pos n ≡ pos n
clamp_pos_self n h = ap pos (omega arith)

clamp_neg-suc : (n : ℕ) → n < 2 ^ 63 → clamp_neg (suc n) ≡ negsuc n
clamp_neg-suc n h = let same : min (suc n) (2 ^ 63) - 1 ≡ n = omega arith in ground (arith, same)

strtoll_minus : (t : Bytes) → strtoll (b'-' ∷ t) ≡ clamp_neg (read_digits t 0)
unfolding strtoll
strtoll_minus t = refl

-- In front of the end of a number, `strtoll` reads the `int64_t` whose text is written.
pub strtoll-show_int :
    (n : ℤ) (rest : Bytes) → IsInt64 n → EndsNumber rest → strtoll (show_int n ++ rest) ≡ n
unfolding show_int
strtoll-show_int (pos n) rest h he =
    strtoll-decimal n rest
    ∙ ap clamp_pos (read_digits-decimal n rest ∙ read_digits-EndsNumber rest n he)
    ∙ clamp_pos_self n h
strtoll-show_int (negsuc n) rest h he =
    strtoll_minus (decimal (suc n) ++ rest)
    ∙ ap clamp_neg (read_digits-decimal (suc n) rest ∙ read_digits-EndsNumber rest (suc n) he)
    ∙ clamp_neg-suc n h
