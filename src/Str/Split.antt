-- ===== src/Str/Split.antt =====
-- `split` and `join` of lib/cclstr.cc.
use native.Mathlib.Nat.{add_assoc}
use cclib.Base.{
  ℕ, zero, suc, ◌+◌, ◌-◌, ◌*◌, ◌<◌, ◌≤◌, ◌≡◌, ◌≢◌, refl, sym, ap, ◌∙◌, Option, none, some, List, [],
  ◌∷◌, ◌++◌, append-nil, append_assoc, arith, Bytes, length, take, drop, drop-drop, length-drop,
  length-append, All,
}
use cclib.Str.Find.{find_in, find_in-le, find, substr, find-none, find-some, find_empty}
use cclib.Str.Pieces.{
  Pieces, last, more, glue, interleave, interleave-Pieces, Pieces-All, Pieces-total, Separable,
  Separable-Pieces, rest-lt,
}

-- The `while` of `split`, a round to each delimiter; `none` is a loop that was not finished.
split_loop : ℕ → Bytes → Bytes → ℕ → List Bytes → Option (List Bytes)
split_loop zero s d last_pos tokens = none
split_loop (suc f) s d last_pos tokens = elim (find s d last_pos) [
  | none ↦ some (tokens ++ drop last_pos s ∷ [])
  | some pos ↦ split_loop f s d (pos + length d) (tokens ++ substr s last_pos (pos - last_pos) ∷ [])
]

-- `split(a_string,a_delim)`: it starts from no token.
unfoldable pub split : ℕ → Bytes → Bytes → Option (List Bytes)
unfolding split_loop
split fuel s d = split_loop fuel s d 0 []

-- The `while` of `join`.
join_loop : Bytes → Bytes → List Bytes → Bytes
join_loop d result [] = result
join_loop d result (p ∷ ps) = join_loop d ((result ++ d) ++ p) ps

unfoldable pub join : List Bytes → Bytes → Bytes
unfolding join_loop
join [] d = []
join (p ∷ ps) d = join_loop d ([] ++ p) ps

-- The space that `join` reserves, `result_length`.
sum_lengths : ℕ → List Bytes → ℕ
sum_lengths n [] = n
sum_lengths n (p ∷ ps) = sum_lengths (n + length p) ps

pub join_reserve : List Bytes → Bytes → ℕ
unfolding sum_lengths
join_reserve [] d = 0
join_reserve (p ∷ ps) d = sum_lengths (length d * (length (p ∷ ps) - 1)) (p ∷ ps)

join_loop-glue : (d result : Bytes) (ps : List Bytes) → join_loop d result ps ≡ result ++ glue d ps
unfolding join_loop
join_loop-glue d result [] = sym (append-nil result)
join_loop-glue d result (p ∷ ps) = join_loop-glue d ((result ++ d) ++ p) ps ∙ simp append_assoc

pub join-interleave : (ps : List Bytes) (d : Bytes) → join ps d ≡ interleave d ps
unfolding join
join-interleave [] d = refl
join-interleave (p ∷ ps) d = join_loop-glue d p ps

length-glue :
    (d : Bytes) (ps : List Bytes) (n : ℕ)
    → sum_lengths (n + length d * length ps) ps ≡ n + length (glue d ps)
unfolding sum_lengths
length-glue d [] n = omega arith
length-glue d (p ∷ ps) n =
    ap (λ k. sum_lengths k ps) (omega arith)
    ∙ length-glue d ps (n + length d + length p)
    ∙ omega (arith, length-append d (p ++ glue d ps), length-append p (glue d ps))

-- `join` reserves exactly the length of its result.
pub length-join : (ps : List Bytes) (d : Bytes) → length (join ps d) ≡ join_reserve ps d
unfolding join_reserve
length-join [] d = unfold join in refl
length-join (p ∷ ps) d =
    let commas : suc (length ps) - 1 ≡ length ps = omega arith in
    let start : length p + length d * length ps ≡ length d * (suc (length ps) - 1) + length p =
      rw commas (omega arith) in
    rw join-interleave (
      length-append p (glue d ps)
      ∙ sym (length-glue d ps (length p))
      ∙ ap (λ k. sum_lengths k ps) start)

split_loop-Pieces :
    (f : ℕ) {d t : Bytes} {ps : List Bytes} (s : Bytes) (last_pos : ℕ) (tokens : List Bytes)
    → Pieces d t ps
    → drop last_pos s ≡ t
    → last_pos ≤ length s
    → d ≢ []
    → length t < f
    → split_loop f s d last_pos tokens ≡ some (tokens ++ ps)
unfolding split_loop
split_loop-Pieces zero s last_pos tokens p e le ne lt = absurd (omega arith)
split_loop-Pieces (suc f) {d} s last_pos tokens (last h) e le ne lt =
    rw (find-none s d last_pos (rw e h), split_loop) (rw e)
split_loop-Pieces (suc f) {d} {t} s last_pos tokens (more {ps = ps} n h p) e le ne lt =
    let back : (last_pos + n) - last_pos ≡ n = omega arith in
    let next : drop ((last_pos + n) + length d) s ≡ drop (n + length d) t =
      rw (← e, drop-drop, add_assoc) in
    rw (find-some s d last_pos n le (rw e h), split_loop, back, e)
      (split_loop-Pieces f s ((last_pos + n) + length d) (tokens ++ take n t ∷ []) p next
          (omega (arith, find_in-le t d n h, ap length e, length-drop last_pos s)) ne
          (omega (arith, rest-lt t d n ne h))
        ∙ rw append_assoc)

-- With a delimiter that is not empty the loop of `split` ends within one round for each byte and
-- one more, and its tokens are the pieces of the text.
pub split-Pieces :
    (s d : Bytes)
    → d ≢ []
    → (ps : List Bytes) × (split (suc (length s)) s d ≡ some ps) × Pieces d s ps
unfolding split
split-Pieces s d ne =
    let (ps, p) = Pieces-total d s ne in
    (ps, split_loop-Pieces (suc (length s)) s 0 [] p refl (omega arith) ne (omega arith), p)

split_loop_empty :
    (f : ℕ) (s : Bytes) (last_pos : ℕ) (tokens : List Bytes)
    → last_pos ≤ length s
    → split_loop f s [] last_pos tokens ≡ none
unfolding split_loop
split_loop_empty zero s last_pos tokens le = refl
split_loop_empty (suc f) s last_pos tokens le =
    rw (find_empty s last_pos le, split_loop) (split_loop_empty f s _ _ (omega arith))

-- With an empty delimiter the loop of `split` never ends: `find` succeeds at the same place again.
pub split_empty : (fuel : ℕ) (s : Bytes) → split fuel s [] ≡ none
unfolding split
split_empty fuel s = split_loop_empty fuel s 0 [] (omega arith)

-- Joining the tokens of a split by its delimiter gives the text back, and no token holds the
-- delimiter.
pub join-split :
    (s d : Bytes)
    → d ≢ []
    → (ps : List Bytes) × (split (suc (length s)) s d ≡ some ps)
      × (join ps d ≡ s)
      × All (λ p. find_in p d ≡ none) ps
join-split s d ne =
    let (ps, e, p) = split-Pieces s d ne in
    (ps, e, join-interleave ps d ∙ interleave-Pieces p, Pieces-All ne p)

-- Splitting a join gives the tokens back, if the delimiter is not empty, there is a token, and the
-- delimiter first occurs behind each token.
pub split-join :
    (ps : List Bytes) (d : Bytes)
    → d ≢ []
    → Separable d ps
    → split (suc (length (join ps d))) (join ps d) d ≡ some ps
unfolding split
split-join ps d ne h =
    split_loop-Pieces (suc (length (join ps d))) (join ps d) 0 [] (Separable-Pieces d ps h)
      (join-interleave ps d) (omega arith) ne (omega (arith, ap length (join-interleave ps d)))
