-- ===== src/Str/Regex/Cuts.antt =====
-- What `regex_c::split` and `regex_c::replace` of lib/cclstr.cc give where no match is empty.
use cclib.Base.{
  ℕ, zero, suc, ◌+◌, ◌-◌, ◌%◌, ◌^◌, ◌<◌, ◌≤◌, ◌≡◌, refl, sym, ap, ◌∙◌, arith, none, some, List, [],
  ◌∷◌, ◌++◌, append_assoc, append-nil, Bytes, length, take, drop, drop-drop, length-drop,
  Option-cases, inl, inr, true, false, leb, ◌≢◌,
}
use cclib.Base.Int.{pos}
use cclib.Str.Find.{substr}
use cclib.Str.Split.{join, join-interleave}
use cclib.Str.Pieces.{interleave, glue-interleave}
use cclib.Str.Regex.{Posix, RegMatch, c_text, match_pos}
use cclib.Str.Regex.Split.{
  finished, out_of_fuel, regex_split, regex_replace, regex_split_loop, regex_split,
  regex_replace_loop, regex_replace,
}

abbrev pub span : ℕ → ℕ → RegMatch
span so eo = record { rm_so = pos so; rm_eo = pos eo }

-- What `regexec` documents: a match of the whole expression is a part of the text.
pub record IsRegexec {Regex : Type 0} (posix : Posix Regex) : Type 0 where
  pub spans :
      (regex : Regex) (t : Bytes) (m : RegMatch) (ms : List RegMatch)
      → posix.regexec regex t 1 ≡ some (m ∷ ms)
      → (so : ℕ) × (eo : ℕ) × (m ≡ span so eo) × (so ≤ eo) × (eo ≤ length t)

length-c_text : (t : Bytes) → length (c_text t) ≤ length t
length-c_text [] = omega arith
length-c_text (c ∷ t) = ground (arith, length-c_text t)

module _ {Regex : Type 0} (posix : Posix Regex) (regex : Regex) where
  -- `Cuts t ps`: cutting `t` at each match, the next one sought in the rest, leaves `ps`.
  pub data Cuts : Bytes → List Bytes → Type 0 where
    uncut : {t : Bytes} → match_pos posix regex t ≡ none → Cuts t (t ∷ [])
    cut :
        {t : Bytes} {ps : List Bytes} (so eo : ℕ)
        → match_pos posix regex t ≡ some (span so eo)
        → so < eo
        → eo ≤ length t
        → Cuts (drop eo t) ps
        → Cuts t (take so t ∷ ps)

  pub match_pos-regexec :
      (t : Bytes) (m : RegMatch)
      → match_pos posix regex t ≡ some m
      → (ms : List RegMatch) × (posix.regexec regex (c_text t) 1 ≡ some (m ∷ ms))
  unfolding match_pos
  match_pos-regexec t m h = elim (Option-cases (posix.regexec regex (c_text t) 1)) [
    | inl e ↦ absurd (cc (rw (e, match_pos) at h))
    | inr ([], e) ↦ absurd (cc (rw (e, match_pos) at h))
    | inr (m' ∷ ms, e) ↦ let f : some m' ≡ some m = rw (e, match_pos) at h in (ms, cc)
  ]

  abbrev pub HasNoEmptyMatch : Type 0
  HasNoEmptyMatch = (t : Bytes) (so eo : ℕ) → match_pos posix regex t ≡ some (span so eo) → so ≢ eo

  module _ (law : IsRegexec posix) (visible : HasNoEmptyMatch) where
    match_pos-span :
        (t : Bytes) (m : RegMatch)
        → match_pos posix regex t ≡ some m
        → (so : ℕ) × (eo : ℕ) × (m ≡ span so eo) × (so < eo) × (eo ≤ length t)
    match_pos-span t m h =
        let (ms, e) = match_pos-regexec t m h in
        let (so, eo, f, le, fits) = law.spans regex (c_text t) m ms e in
        (
          so,
          eo,
          f,
          omega (arith, visible t so eo (h ∙ ap some f)),
          omega (arith, fits, length-c_text t),
        )

    Cuts-total : (n : ℕ) (t : Bytes) → length t < n → (ps : List Bytes) × Cuts t ps
    Cuts-total zero t h = absurd (omega arith)
    Cuts-total (suc n) t h = elim (Option-cases (match_pos posix regex t)) [
      | inl e ↦ (t ∷ [], uncut e)
      | inr (m, e) ↦
          let (so, eo, f, lt, le) = match_pos-span t m e in
          let (ps, c) = Cuts-total n (drop eo t) (omega (arith, length-drop eo t)) in
          (take so t ∷ ps, cut so eo (e ∙ ap some f) lt le c)
    ]

  leb-true : (a b : ℕ) → a ≤ b → leb a b ≡ true
  leb-true a b h = ground arith

  leb-false : (a b : ℕ) → b < a → leb a b ≡ false
  leb-false a b h = ground arith

  wrap_small : (n : ℕ) → n < 2 ^ 64 → n % 2 ^ 64 ≡ n
  wrap_small n h = omega arith

  wrap_again : (n m : ℕ) → n < 2 ^ 64 → m ≤ n → (n + (2 ^ 64 - m)) % 2 ^ 64 ≡ n - m
  wrap_again n m h le = omega arith

  regex_split_loop-Cuts :
      (f : ℕ) (s t : Bytes) (last_pos : ℕ) (tokens ps : List Bytes)
      → length s < 2 ^ 64
      → last_pos ≤ length s
      → length s < last_pos + f
      → t ≡ drop last_pos s
      → Cuts t ps
      → regex_split_loop posix f regex s last_pos tokens ≡ finished (tokens ++ ps)
  unfolding regex_split_loop
  regex_split_loop-Cuts zero s t last_pos tokens ps small le h e c = absurd (omega arith)
  regex_split_loop-Cuts (suc f) s t last_pos tokens ps small le h e (uncut n) =
      rw (leb-true last_pos (length s) le, ← e, n, regex_split_loop, ← e)
  regex_split_loop-Cuts (suc f) s t last_pos tokens ps small le h e
        (cut {ps = qs} so eo n lt fits c) =
      let bound : last_pos + eo ≤ length s = omega (arith, length-drop last_pos s, ap length e) in
      rw
        (
          leb-true last_pos (length s) le,
          ← e,
          n,
          regex_split_loop,
          wrap_small (last_pos + eo) (omega arith),
        )
        (regex_split_loop-Cuts f s (drop eo t) (last_pos + eo) (tokens ++ substr s last_pos so ∷ [])
            qs small bound (omega arith) (ap (drop eo) e ∙ drop-drop last_pos eo s) c
          ∙ ap (λ w. finished ((tokens ++ take so w ∷ []) ++ qs)) (sym e)
          ∙ simp append_assoc)

  Cuts-ne : {t : Bytes} {ps : List Bytes} → Cuts t ps → ps ≢ []
  Cuts-ne (uncut h) = cc
  Cuts-ne (cut so eo h lt le c) = cc

  regex_replace_loop-Cuts :
      (f : ℕ) (s new t : Bytes) (old_pos : ℕ) (result : Bytes) (ps : List Bytes)
      → length s < 2 ^ 64
      → old_pos ≤ length s
      → length s < old_pos + f
      → t ≡ drop old_pos s
      → Cuts t ps
      → regex_replace_loop posix f regex s new old_pos result
        ≡ finished (result ++ interleave new ps)
  unfolding regex_replace_loop
  regex_replace_loop-Cuts zero s new t old_pos result ps small le h e c = absurd (omega arith)
  regex_replace_loop-Cuts (suc f) s new t old_pos result ps small le h e (uncut n) =
      rw (leb-true old_pos (length s) le, ← e, n, regex_replace_loop, ← e) (simp append-nil)
  regex_replace_loop-Cuts (suc f) s new t old_pos result ps small le h e
        (cut {ps = qs} so eo n lt fits c) =
      let bound : old_pos + eo ≤ length s = omega (arith, length-drop old_pos s, ap length e) in
      let begin : (old_pos + so) % 2 ^ 64 ≡ old_pos + so =
        wrap_small (old_pos + so) (omega arith) in
      let width : (old_pos + so + (2 ^ 64 - old_pos)) % 2 ^ 64 ≡ so = omega arith in
      let next : (old_pos + so + eo + (2 ^ 64 - so)) % 2 ^ 64 ≡ old_pos + eo = omega arith in
      rw
        (
          leb-true old_pos (length s) le,
          ← e,
          n,
          regex_replace_loop,
          begin,
          leb-false (length s) (old_pos + so) (omega arith),
          regex_replace_loop,
          begin,
          width,
          next,
        )
        (regex_replace_loop-Cuts f s new (drop eo t) (old_pos + eo)
            ((result ++ substr s old_pos so) ++ new) qs small bound (omega arith)
            (ap (drop eo) e ∙ drop-drop old_pos eo s) c
          ∙ rw (glue-interleave new qs (Cuts-ne c), e) (simp append_assoc))

  module _ (law : IsRegexec posix) (visible : HasNoEmptyMatch) where
    -- Where no match is empty, `split` ends within a round for each byte and one more, with the pieces
    -- that cutting the text at each match leaves.
    pub regex_split-Cuts :
        (s : Bytes)
        → length s < 2 ^ 64
        → (ps : List Bytes) × (regex_split posix (suc (length s)) regex s ≡ finished ps) × Cuts s ps
    unfolding regex_split
    regex_split-Cuts s small =
        let (ps, c) = Cuts-total law visible (suc (length s)) s (omega arith) in
        (
          ps,
          regex_split_loop-Cuts (suc (length s)) s s 0 [] ps small (omega arith) (omega arith) refl
              c,
          c,
        )

    -- Where no match is empty, `split` and `replace` end within a round for each byte and one more, and
    -- replacing gives what joining the split text by the new text gives.
    pub regex_replace-split :
        (s new : Bytes)
        → length s < 2 ^ 64
        → (ps : List Bytes) × (regex_split posix (suc (length s)) regex s ≡ finished ps)
          × (regex_replace posix (suc (length s)) regex s new ≡ finished (join ps new))
    unfolding regex_replace
    regex_replace-split s new small =
        let (ps, e, c) = regex_split-Cuts s small in
        (
          ps,
          e,
          regex_replace_loop-Cuts (suc (length s)) s new s 0 [] ps small (omega arith) (omega arith)
                refl c
              ∙ ap finished (sym (join-interleave ps new)),
        )

  regex_split_loop_empty :
      (f : ℕ) (s : Bytes) (tokens : List Bytes)
      → match_pos posix regex s ≡ some (span 0 0)
      → regex_split_loop posix f regex s 0 tokens ≡ out_of_fuel
  unfolding regex_split_loop
  regex_split_loop_empty zero s tokens h = refl
  regex_split_loop_empty (suc f) s tokens h =
      rw (leb-true 0 (length s) (omega arith), h, regex_split_loop) (regex_split_loop_empty f s _ h)

  -- Where the first match is empty and at the begin of the text, `split` does not end, for any fuel.
  pub regex_split_empty :
      (f : ℕ) (s : Bytes)
      → match_pos posix regex s ≡ some (span 0 0)
      → regex_split posix f regex s ≡ out_of_fuel
  unfolding regex_split
  regex_split_empty f s h = regex_split_loop_empty f s [] h
