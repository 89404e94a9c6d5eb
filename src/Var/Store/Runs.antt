-- ===== src/Var/Store/Runs.antt =====
-- Any sequence of calls on the variables of lib/cclvar.h and lib/cclvar.cc.
use cclib.Base.{
  ◌↔◌, ℕ, zero, suc, ◌+◌, ◌<◌, ◌≤◌, ◌≡◌, refl, arith, none, some, List, [], ◌∷◌, All, length,
}
use cclib.Var.Store.{Address, Loc, Heap, read, elements}
use cclib.Var.Store.Counts.{read-count, tally, count_at, weight, total}
use native.Mathlib.Decide.{dec_lt}
use cclib.Var.Store.Sound.{count_at-length, Sound, Sound-held}
use cclib.Var.Store.Steps.{part-used}

-- What a variable or a literal leads to, through parts of locations.
pub data Reaches (h : Heap) (roots : List Address) : Address → Type 0 where
  root : {a : Address} → 0 < tally a roots → Reaches h roots a
  inner :
      {a b : Address} {l : Loc}
      → Reaches h roots b
      → read h b ≡ some l
      → 0 < tally a (elements l.data_ptr)
      → Reaches h roots a

-- A location of which `a` is a part.
total-weight :
    (a : Address) (h : Heap)
    → 0 < total (weight a) h
    → (b : Address) × (l : Loc) × (read h b ≡ some l) × (0 < tally a (elements l.data_ptr))
total-weight a [] lt = absurd (omega arith)
total-weight a (none ∷ h) lt =
    let (b, l, e, q) = total-weight a h (omega (arith, lt)) in (suc b, l, e, q)
total-weight a (some l ∷ h) lt = elim (dec_lt 0 (weight a (some l))) [
  | yes q ↦ (0, l, refl, ground (arith, q))
  | no o ↦ let (b, k, e, q) = total-weight a h (omega (arith, lt)) in (suc b, k, e, q)
]

tally-All : (b a : Address) (ps : List Address) → All (λ q. q < b) ps → 0 < tally a ps → a < b
tally-All b a [] h lt = absurd (omega arith)
tally-All b a (p ∷ ps) h lt = ground (arith, tally-All b a ps h.1, h.0)

module _ (n : ℕ) (roots : List Address) (h : Heap) (s : Sound n roots h) where
  Reaches-there :
      (k : ℕ) (a : Address) (l : Loc) → length h ≤ a + k → read h a ≡ some l → Reaches h roots a
  Reaches-there zero a l le e =
      absurd (omega (arith, le, count_at-length h a (ground (arith, e, s.used a l e))))
  Reaches-there (suc k) a l le e = elim (dec_lt 0 (tally a roots)) [
    | yes q ↦ root q
    | no o ↦
        let (b, m, f, q) = total-weight a h (ground (arith, e, s.used a l e, s.counted a)) in
        inner
          (Reaches-there k b m
            (omega (arith, le, tally-All b a (elements m.data_ptr) (s.older b m f) q)) f)
          f q
  ]

  there-Reaches : (a : Address) → Reaches h roots a → 0 < count_at h a
  there-Reaches a (root q) = Sound-held n roots h a s q
  there-Reaches a (inner {b} {l} r e q) = part-used n roots h b a l s e q

  pub there-iff-Reaches : (a : Address) → ((l : Loc) × (read h a ≡ some l)) ↔ Reaches h roots a
  there-iff-Reaches a = (
    (λ (l, e). Reaches-there (length h) a l (omega arith) e),
    (λ r. let (l, e, lt) = read-count h a (there-Reaches a r) in (l, e)),
  )
