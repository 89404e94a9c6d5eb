-- ===== src/Json/Decimals.antt =====
-- The lexer of lib/ccljson.cc at a decimal integer.
use cclib.Json.Automaton.{LexState, terminal, state_0, state_4, state_5}
use cclib.Json.Escape.{decimal, show_int}
use cclib.Base.{
  drop-drop, drop-length-append, sym, drop, ℕ, zero, suc, ◌+◌, ◌/◌, ◌%◌, ◌<◌, Option, none, some,
  [], ◌∷◌, ◌++◌, ◌≡◌, refl, ap, ◌∙◌, arith, Bytes, length, drop, All, Bool-cases, inl, inr, ltb,
  ltb→lt,
}
use cclib.Base.Int.{ℤ, pos, negsuc}
use cclib.Json.Automaton.{state_0, state_4, state_5, state_6, next, LexState}
use cclib.Json.Text.{strtoll}
use cclib.Json.Lexer.{peek, run, recognize_terminal}
use cclib.Json.Escape.{digits, decimal, show_int}
use cclib.Json.Integers.{EndsNumber, IsInt64, strtoll-show_int, digits-last, digits-more}

abbrev IsDigit : ℕ → Type 0
IsDigit c = (47 < c) × (c < 58)

run-digits :
    (ds : Bytes) (b : ℕ) (rest : Bytes) (idx : ℕ)
    → All IsDigit ds
    → 0 < b
    → EndsNumber rest
    → run state_6 (b ∷ (ds ++ rest)) idx ≡ (some 1, idx + suc (length ds))
unfolding run
run-digits [] b rest idx hs hb h = ground (arith, h)
run-digits (c ∷ ds) b rest idx ((lo, hi), hs) hb h =
    let again = run-digits ds c rest (idx + 1) hs (omega arith) h in
    let size : (idx + 1) + suc (length ds) ≡ idx + suc (length (c ∷ ds)) = omega arith in
    ground (arith, again, size)

digits-shape :
    (f n : ℕ) (t : Bytes)
    → 0 < n
    → n < f
    → All IsDigit t
    → (c : ℕ) × (ds : Bytes) × (48 < c) × (c < 58) × All IsDigit ds × (digits f n t ≡ c ∷ ds)
digits-shape zero n t h0 h ht = absurd (omega arith)
digits-shape (suc f) n t h0 h ht = elim (Bool-cases (ltb n 10)) [
  | inl e ↦
      let small = ltb→lt n 10 e in
      (48 + n, t, omega arith, omega arith, ht, digits-last f n t small)
  | inr e ↦
      let large : 9 < n = ground (arith, e) in
      let (c, ds, lo, hi, hs, shape) =
        digits-shape f (n / 10) ((48 + n % 10) ∷ t) (omega arith) (omega arith)
          ((omega arith, omega arith), ht) in
      (c, ds, lo, hi, hs, digits-more f n t large ∙ shape)
]

run_zero :
    (rest : Bytes) (idx : ℕ) → EndsNumber rest → run state_5 (48 ∷ rest) idx ≡ (some 1, idx + 1)
unfolding run
run_zero rest idx he = ground (arith, he)

-- A state that begins a number leads to one that passes over the digits.
run-decimal :
    (n : ℕ) (q : LexState) (rest : Bytes) (idx : ℕ)
    → ((c : ℕ) → 48 < c → c < 58 → next q c ≡ some state_6)
    → next q 48 ≡ some state_5
    → EndsNumber rest
    → (q' : LexState) × (next q (peek (decimal n ++ rest)) ≡ some q')
      × (run q' (decimal n ++ rest) idx ≡ (some 1, idx + length (decimal n)))
unfolding decimal
run-decimal zero q rest idx h6 h5 he =
    let shape : decimal 0 ≡ 48 ∷ [] = digits-last 0 0 [] (omega arith) in
    (
      state_5,
      ap (λ t. next q (peek (t ++ rest))) shape ∙ h5,
      ap (λ t. run state_5 (t ++ rest) idx) shape
          ∙ run_zero rest idx he
          ∙ ap (λ t. (some 1, idx + length t)) (sym shape),
    )
run-decimal (suc n) q rest idx h6 h5 he =
    let (c, ds, lo, hi, hs, shape) =
      digits-shape (suc (suc n)) (suc n) [] (omega arith) (omega arith) tt in
    (
      state_6,
      ap (λ t. next q (peek (t ++ rest))) shape ∙ h6 c lo hi,
      ap (λ t. run state_6 (t ++ rest) idx) shape
          ∙ run-digits ds c rest idx hs (omega arith) he
          ∙ ap (λ t. (some 1, idx + length t)) (sym shape),
    )

next-state_0 : (c : ℕ) → 48 < c → c < 58 → next state_0 c ≡ some state_6
next-state_0 c lo hi = ground arith

next-state_4 : (c : ℕ) → 48 < c → c < 58 → next state_4 c ≡ some state_6
next-state_4 c lo hi = ground arith

run-next :
    (q q' : LexState) (s : Bytes) (idx : ℕ) (r : Option ℕ × ℕ)
    → next q (peek s) ≡ some q'
    → run q' s (idx + 1) ≡ r
    → run q (b'-' ∷ s) idx ≡ r
unfolding run
run-next q q' s idx r first behind =
    ap (λ o. elim o [ none ↦ (terminal q, idx + 1) | some p ↦ run p s (idx + 1) ]) first ∙ behind

recognize_terminal-next :
    (source s : Bytes) (idx : ℕ) (q : LexState) (r : Option ℕ × ℕ)
    → drop idx source ≡ s
    → next state_0 (peek s) ≡ some q
    → run q s idx ≡ r
    → recognize_terminal source idx ≡ r
unfolding recognize_terminal
recognize_terminal-next source s idx q r h first behind =
    ap (λ t. elim (next state_0 (peek t)) [ none ↦ (none, idx) | some p ↦ run p t idx ]) h
    ∙ ap (λ o. elim o [ none ↦ (none, idx) | some p ↦ run p s idx ]) first
    ∙ behind

recognize-decimal :
    (source rest : Bytes) (n idx : ℕ)
    → EndsNumber rest
    → drop idx source ≡ decimal n ++ rest
    → recognize_terminal source idx ≡ (some 1, idx + length (decimal n))
recognize-decimal source rest n idx he h =
    let (q, first, behind) = run-decimal n state_0 rest idx next-state_0 refl he in
    recognize_terminal-next source (decimal n ++ rest) idx q _ h first behind

recognize-minus :
    (source rest : Bytes) (n idx : ℕ)
    → EndsNumber rest
    → drop idx source ≡ b'-' ∷ (decimal n ++ rest)
    → recognize_terminal source idx ≡ (some 1, idx + suc (length (decimal n)))
recognize-minus source rest n idx he h =
    let (q, first, behind) = run-decimal n state_4 rest (idx + 1) next-state_4 refl he in
    let size : (idx + 1) + length (decimal n) ≡ idx + suc (length (decimal n)) = omega arith in
    recognize_terminal-next source (b'-' ∷ (decimal n ++ rest)) idx state_4 _ h refl
      (run-next state_4 q (decimal n ++ rest) idx _ first (behind ∙ ap (λ m. (some 1, m)) size))

recognize-sign :
    (source rest : Bytes) (n : ℤ) (idx : ℕ)
    → EndsNumber rest
    → drop idx source ≡ show_int n ++ rest
    → recognize_terminal source idx ≡ (some 1, idx + length (show_int n))
unfolding show_int
recognize-sign source rest (pos n) idx he h = recognize-decimal source rest n idx he h
recognize-sign source rest (negsuc n) idx he h = recognize-minus source rest (suc n) idx he h

-- Text that begins with what `create` writes for an `int64_t`, with nothing behind it that would
-- continue a number, is recognized as an integer that ends behind those characters, and `strtoll`,
-- which the parse action calls at its first character, reads the `int64_t`.
pub recognize-show_int :
    (source rest : Bytes) (n : ℤ) (idx : ℕ)
    → IsInt64 n
    → EndsNumber rest
    → drop idx source ≡ show_int n ++ rest
    → (end : ℕ) × (recognize_terminal source idx ≡ (some 1, end))
      × (drop end source ≡ rest)
      × (strtoll (drop idx source) ≡ n)
recognize-show_int source rest n idx hn he h = (
  idx + length (show_int n),
  recognize-sign source rest n idx he h,
  sym (drop-drop idx (length (show_int n)) source)
      ∙ ap (drop (length (show_int n))) h
      ∙ drop-length-append (show_int n) rest,
  ap strtoll h ∙ strtoll-show_int n rest hn he,
)
