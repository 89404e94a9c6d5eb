-- ===== src/Str/Replace.antt =====
-- `replace` of lib/cclstr.cc.
use native.Mathlib.Nat.{add_assoc}
use cclib.Base.{
  ℕ, zero, suc, ◌+◌, ◌-◌, ◌<◌, ◌≤◌, ◌≡◌, ◌≢◌, refl, ap, ◌∙◌, Option, none, some, List, [], ◌∷◌,
  ◌++◌, append-nil, append_assoc, arith, Bytes, length, take, drop, drop-drop, length-drop,
  take_all, leb, if◌then◌else◌,
}
use cclib.Str.Find.{find_in, find_in-le, find, substr, find-none, find-some}
use cclib.Str.Pieces.{
  Pieces, last, more, interleave, glue-interleave, Pieces-ne-nil, rest-lt, length_pos,
}
use cclib.Str.Split.{split, join, join-interleave, split-Pieces, join-split}

-- Where the next occurrence begins, or the length of the source.
abbrev next_pos : Bytes → Bytes → ℕ → ℕ
next_pos s old old_pos = elim (find s old old_pos) [ none ↦ length s | some pos ↦ pos ]

-- The `do … while(true)` of `replace`, a round to each occurrence and one more.
replace_loop : ℕ → Bytes → Bytes → Bytes → ℕ → Bytes → Option Bytes
replace_loop zero s old new pos result = none
replace_loop (suc f) s old new old_pos result =
    let pos = next_pos s old old_pos in
    let part = result ++ substr s old_pos (pos - old_pos) in
    let again = replace_loop f s old new (pos + length old) (part ++ new) in
    if leb (length s) pos then some part else again

unfoldable pub replace : ℕ → Bytes → Bytes → Bytes → Option Bytes
unfolding replace_loop
replace fuel s [] new = some s
replace fuel s (c ∷ old) new = replace_loop fuel s (c ∷ old) new 0 []

replace_loop-last :
    (f : ℕ) (s old new : Bytes) (pos : ℕ) (result : Bytes)
    → pos ≤ length s
    → find_in (drop pos s) old ≡ none
    → replace_loop (suc f) s old new pos result ≡ some (result ++ drop pos s)
unfolding replace_loop
replace_loop-last f s old new pos result le h =
    let whole : take (length s - pos) (drop pos s) ≡ drop pos s =
      take_all (length s - pos) (drop pos s) (omega (arith, length-drop pos s)) in
    ground (arith, find-none s old pos h, whole)

replace_loop-more :
    (f : ℕ) (s old new : Bytes) (pos n : ℕ) (result : Bytes)
    → pos ≤ length s
    → old ≢ []
    → find_in (drop pos s) old ≡ some n
    → replace_loop (suc f) s old new pos result
      ≡ replace_loop f s old new ((pos + n) + length old) ((result ++ take n (drop pos s)) ++ new)
unfolding replace_loop
replace_loop-more f s old new pos n result le ne h =
    let back : (pos + n) - pos ≡ n = omega arith in
    ground (
      arith,
      find-some s old pos n le h,
      back,
      find_in-le (drop pos s) old n h,
      length_pos old ne,
      length-drop pos s,
    )

replace_loop-Pieces :
    (f : ℕ) {old t : Bytes} {ps : List Bytes} (s new : Bytes) (pos : ℕ) (result : Bytes)
    → Pieces old t ps
    → drop pos s ≡ t
    → pos ≤ length s
    → old ≢ []
    → length t < f
    → replace_loop f s old new pos result ≡ some (result ++ interleave new ps)
replace_loop-Pieces zero s new pos result p e le ne lt = absurd (omega arith)
replace_loop-Pieces (suc f) {old} {t} s new pos result (last h) e le ne lt =
    replace_loop-last f s old new pos result le (rw e h) ∙ rw (e, append-nil)
replace_loop-Pieces (suc f) {old} {t} s new pos result (more {ps = ps} n h p) e le ne lt =
    let next : drop ((pos + n) + length old) s ≡ drop (n + length old) t =
      rw (← e, drop-drop, add_assoc) in
    replace_loop-more f s old new pos n result le ne (rw e h)
    ∙ replace_loop-Pieces f s new ((pos + n) + length old) ((result ++ take n (drop pos s)) ++ new)
        p next (omega (arith, find_in-le t old n h, ap length e, length-drop pos s)) ne
        (omega (arith, rest-lt t old n ne h))
    ∙ rw e (simp (append_assoc, ← glue-interleave new ps (Pieces-ne-nil p)))

-- With text to replace, `replace` ends within one round for each byte and one more, and its result
-- is the split text joined by the new text.
pub replace-split :
    (s old new : Bytes)
    → old ≢ []
    → (ps : List Bytes) × (split (suc (length s)) s old ≡ some ps)
      × (replace (suc (length s)) s old new ≡ some (join ps new))
unfolding replace
replace-split s [] new ne = absurd (ne refl)
replace-split s (c ∷ old) new ne =
    let (ps, e, p) = split-Pieces s (c ∷ old) ne in
    (
      ps,
      e,
      replace_loop-Pieces (suc (length s)) s new 0 [] p refl (omega arith) ne (omega arith)
          ∙ rw (join-interleave ps new),
    )

-- Replacing a text by itself changes nothing, and neither does replacing the empty text.
pub replace_self : (s old : Bytes) → replace (suc (length s)) s old old ≡ some s
replace_self s [] = unfold replace in refl
replace_self s (c ∷ old) =
    let (ps, e, r) = replace-split s (c ∷ old) (c ∷ old) (cc) in
    let (qs, e', j, _) = join-split s (c ∷ old) (cc) in cc (r, e, e', j)
