-- ===== src/Str/Find.antt =====
-- The members of `std::string` that lib/cclstr.cc calls: `find` and `substr`.
use Prim.Native.Nat.add
use cclib.Base.{
  ℕ, zero, suc, ◌+◌, ◌≤◌, ◌≡◌, ◌≢◌, refl, ap, ◌∙◌, Bool, true, false, ◌&&◌, Option, none, some, [],
  ◌∷◌, ◌++◌, append-nil, append_assoc, arith, length-append, Bytes, length, take, drop, leb, ◌==◌,
  if◌then◌else◌,
}

abbrev pub is_prefix : Bytes → Bytes → Bool
is_prefix [] s = true
is_prefix (c ∷ d) [] = false
is_prefix (c ∷ d) (b ∷ s) = c == b && is_prefix d s

-- How far ahead the first occurrence of `d` begins.
unfoldable pub find_in : Bytes → Bytes → Option ℕ
find_in [] d = if is_prefix d [] then some 0 else none
find_in (b ∷ s) d = elim (is_prefix d (b ∷ s)) [
  | true ↦ some 0
  | false ↦ elim (find_in s d) [ none ↦ none | some n ↦ some (suc n) ]
]

-- `s.find(d,pos)`; `none` is `npos`, which is also the answer for a start past the end.
unfoldable pub find : Bytes → Bytes → ℕ → Option ℕ
unfolding find_in
find s d pos =
    if leb pos (length s)
    then elim (find_in (drop pos s) d) [ none ↦ none | some n ↦ some (pos + n) ]
    else none

-- `s.substr(pos,n)` for a start within the string.
abbrev pub substr : Bytes → ℕ → ℕ → Bytes
substr s pos n = take n (drop pos s)

pub find-none : (s d : Bytes) (pos : ℕ) → find_in (drop pos s) d ≡ none → find s d pos ≡ none
unfolding find
find-none s d pos h = rw h (ground arith)

pub find-some :
    (s d : Bytes) (pos n : ℕ)
    → pos ≤ length s
    → find_in (drop pos s) d ≡ some n
    → find s d pos ≡ some (pos + n)
unfolding find
find-some s d pos n p h = ground arith

find_in-nil : (s : Bytes) → find_in s [] ≡ some 0
unfolding find_in
find_in-nil [] = refl
find_in-nil (b ∷ s) = refl

-- Searching for nothing succeeds at once.
pub find_empty : (s : Bytes) (pos : ℕ) → pos ≤ length s → find s [] pos ≡ some pos
find_empty s pos p = find-some s [] pos 0 p (find_in-nil (drop pos s)) ∙ ap some (omega arith)

is_prefix-length : (d s : Bytes) → is_prefix d s ≡ true → length d ≤ length s
is_prefix-length [] s h = omega arith
is_prefix-length (c ∷ d) [] h = ground arith
is_prefix-length (c ∷ d) (b ∷ s) h = ground (arith, is_prefix-length d s)

is_prefix-drop : (d s : Bytes) → is_prefix d s ≡ true → s ≡ d ++ drop (length d) s
is_prefix-drop [] s h = refl
is_prefix-drop (c ∷ d) [] h = ground arith
is_prefix-drop (c ∷ d) (b ∷ s) h = ground (arith, is_prefix-drop d s)

pub find_in-le : (s d : Bytes) (n : ℕ) → find_in s d ≡ some n → n + length d ≤ length s
unfolding find_in
find_in-le [] d n h = ground (arith, is_prefix-length d [])
find_in-le (b ∷ s) d zero h = ground (arith, is_prefix-length d (b ∷ s))
find_in-le (b ∷ s) d (suc n) h = ground (arith, find_in-le s d n)

-- What is found is there.
pub find_in_sound :
    (s d : Bytes) (n : ℕ) → find_in s d ≡ some n → drop n s ≡ d ++ drop (n + length d) s
unfolding find_in
find_in_sound [] [] zero h = refl
find_in_sound [] [] (suc n) h = cc
find_in_sound [] (c ∷ d) n h = cc
find_in_sound (b ∷ s) d zero h = rw add.zero (ground (arith, is_prefix-drop d (b ∷ s)))
find_in_sound (b ∷ s) d (suc n) h = rw add.suc (ground (arith, find_in_sound s d n))

-- A test that fits into the first part does not look further.
is_prefix-append : (d s t : Bytes) → length d ≤ length s → is_prefix d (s ++ t) ≡ is_prefix d s
is_prefix-append [] s t h = refl
is_prefix-append (c ∷ d) [] t h = absurd (omega arith)
is_prefix-append (c ∷ d) (b ∷ s) t h = rw (is_prefix-append d s t (omega arith))

is_prefix_self : (d t : Bytes) → is_prefix d (d ++ t) ≡ true
is_prefix_self [] t = refl
is_prefix_self (c ∷ d) t = ground (arith, is_prefix_self d t)

is_prefix-take :
    (d : Bytes) (n : ℕ) (s : Bytes) → is_prefix d s ≡ false → is_prefix d (take n s) ≡ false
is_prefix-take [] n s h = cc
is_prefix-take (c ∷ d) zero s h = refl
is_prefix-take (c ∷ d) (suc n) [] h = refl
is_prefix-take (c ∷ d) (suc n) (b ∷ s) h = ground (arith, is_prefix-take d n s)

-- Before the first occurrence there is none.
pub find_in-take :
    (s d : Bytes) (n : ℕ) → d ≢ [] → find_in s d ≡ some n → find_in (take n s) d ≡ none
unfolding find_in
find_in-take s [] n ne h = absurd (ne refl)
find_in-take s (c ∷ d) zero ne h = refl
find_in-take [] (c ∷ d) (suc n) ne h = refl
find_in-take (b ∷ s) (c ∷ d) (suc n) ne h =
    ground (arith, find_in-take s (c ∷ d) n ne, is_prefix-take (c ∷ d) (suc n) (b ∷ s))

is_prefix_at_end :
    (b : ℕ) (s d t : Bytes) → is_prefix d (b ∷ (s ++ (d ++ t))) ≡ is_prefix d (b ∷ (s ++ d))
is_prefix_at_end b s d t =
    rw (← append_assoc s d t)
      (is_prefix-append d (b ∷ (s ++ d)) t (omega (arith, length-append s d)))

-- An occurrence at the end of the first part is also the first one of a longer text.
pub find_in-append :
    (s d t : Bytes) (n : ℕ) → find_in (s ++ d) d ≡ some n → find_in (s ++ (d ++ t)) d ≡ some n
unfolding find_in
find_in-append [] [] t n h = find_in-nil t ∙ h
find_in-append [] (c ∷ d) t n h =
    ground (arith, is_prefix_self (c ∷ d) t, is_prefix_self (c ∷ d) [], append-nil d)
find_in-append (b ∷ s) d t zero h = ground (arith, is_prefix_at_end b s d t)
find_in-append (b ∷ s) d t (suc n) h =
    ground (arith, is_prefix_at_end b s d t, find_in-append s d t n)
