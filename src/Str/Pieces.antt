-- ===== src/Str/Pieces.antt =====
-- The pieces of a text between successive leftmost occurrences of a delimiter: the independent
-- description against which `split` and `replace` of lib/cclstr.cc are measured.
use cclib.Base.{
  ℕ, zero, suc, ◌+◌, ◌<◌, ◌≡◌, ◌≢◌, refl, inl, inr, none, some, List, [], ◌∷◌, ◌++◌, append-nil,
  arith, Bytes, length, take, drop, length-drop, take-append-drop, drop-drop, take-length-append,
  drop-length-append, All, Option-cases,
}
use cclib.Str.Find.{find_in, find_in-le, find_in_sound, find_in-take, find_in-append}

-- `Pieces d t ps`: cutting `t` at each leftmost occurrence of `d` leaves `ps`.
pub data Pieces (d : Bytes) : Bytes → List Bytes → Type 0 where
  last : {t : Bytes} → find_in t d ≡ none → Pieces d t (t ∷ [])
  more :
      {t : Bytes} {ps : List Bytes} (n : ℕ)
      → find_in t d ≡ some n
      → Pieces d (drop (n + length d) t) ps
      → Pieces d t (take n t ∷ ps)

abbrev pub glue : Bytes → List Bytes → Bytes
glue d [] = []
glue d (p ∷ ps) = d ++ (p ++ glue d ps)

-- The text with the delimiter between the pieces.
abbrev pub interleave : Bytes → List Bytes → Bytes
interleave d [] = []
interleave d (p ∷ ps) = p ++ glue d ps

pub Pieces-ne-nil : {d t : Bytes} {ps : List Bytes} → Pieces d t ps → ps ≢ []
Pieces-ne-nil (last h) = cc
Pieces-ne-nil (more n h p) = cc

pub glue-interleave : (d : Bytes) (ps : List Bytes) → ps ≢ [] → glue d ps ≡ d ++ interleave d ps
glue-interleave d [] h = absurd (h refl)
glue-interleave d (p ∷ ps) h = refl

pub interleave-Pieces : {d t : Bytes} {ps : List Bytes} → Pieces d t ps → interleave d ps ≡ t
interleave-Pieces {t = t} (last h) = append-nil t
interleave-Pieces {d} {t} (more {ps = ps} n h p) =
    rw (glue-interleave d ps (Pieces-ne-nil p), interleave-Pieces p, ← find_in_sound t d n h)
      (take-append-drop n t)

-- No piece holds the delimiter.
pub Pieces-All :
    {d t : Bytes} {ps : List Bytes} → d ≢ [] → Pieces d t ps → All (λ p. find_in p d ≡ none) ps
Pieces-All ne (last h) = (h, tt)
Pieces-All {d} {t} ne (more n h p) = (find_in-take t d n ne h, Pieces-All ne p)

pub length_pos : (d : Bytes) → d ≢ [] → 0 < length d
length_pos [] h = absurd (h refl)
length_pos (c ∷ d) h = omega arith

-- Behind an occurrence less text is left.
pub rest-lt :
    (t d : Bytes) (n : ℕ)
    → d ≢ []
    → find_in t d ≡ some n
    → length (drop (n + length d) t) < length t
rest-lt t d n ne h =
    omega (arith, length-drop (n + length d) t, find_in-le t d n h, length_pos d ne)

Pieces-fuel : (f : ℕ) (d t : Bytes) → d ≢ [] → length t < f → (ps : List Bytes) × Pieces d t ps
Pieces-fuel zero d t ne lt = absurd (omega arith)
Pieces-fuel (suc f) d t ne lt = elim (Option-cases (find_in t d)) [
  | inl h ↦ (t ∷ [], last h)
  | inr (n, h) ↦
      let (ps, p) =
        Pieces-fuel f d (drop (n + length d) t) ne (omega (arith, rest-lt t d n ne h)) in
      (take n t ∷ ps, more n h p)
]

-- Every text can be cut at a delimiter that is not empty.
pub Pieces-total : (d t : Bytes) → d ≢ [] → (ps : List Bytes) × Pieces d t ps
Pieces-total d t ne = Pieces-fuel (suc (length t)) d t ne (omega arith)

-- Pieces that may be told apart again: the delimiter's first occurrence in each piece followed by
-- the delimiter is behind the piece, and the last piece has none.
abbrev pub Separable : Bytes → List Bytes → Type 0
Separable d [] = ⊥
Separable d (p ∷ []) = find_in p d ≡ none
Separable d (p ∷ q ∷ ps) = (find_in (p ++ d) d ≡ some (length p)) × Separable d (q ∷ ps)

more_at :
    {d : Bytes} {ps : List Bytes} (p r : Bytes)
    → find_in (p ++ (d ++ r)) d ≡ some (length p)
    → Pieces d r ps
    → Pieces d (p ++ (d ++ r)) (p ∷ ps)
more_at {d} {ps} p r h rest =
    let t = p ++ (d ++ r) in
    let behind : drop (length p + length d) t ≡ r =
      rw (← drop-drop (length p) (length d) t, drop-length-append p (d ++ r))
        (drop-length-append d r) in
    let whole : Pieces d t (take (length p) t ∷ ps) = more (length p) h (rw behind rest) in
    rw (take-length-append p (d ++ r)) at whole

pub Separable-Pieces :
    (d : Bytes) (ps : List Bytes) → Separable d ps → Pieces d (interleave d ps) ps
Separable-Pieces d [] h = absurd h
Separable-Pieces d (p ∷ []) h = rw append-nil (last h)
Separable-Pieces d (p ∷ q ∷ ps) (h, hs) =
    more_at p (q ++ glue d ps) (find_in-append p d _ (length p) h) (Separable-Pieces d (q ∷ ps) hs)
