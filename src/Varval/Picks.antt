-- ===== src/Varval/Picks.antt =====
-- The parts of a value that a property of lib/cclvarval.cc asks for by their keys.
use mathlib.Core.Path.{subst}
use cclib.Base.{◌≡◌, arith, Option, none, some, inl, inr, Option-cases}
use cclib.Str.Regex.{Posix}
use cclib.Var.Value.{Var, Pairs, pair}
use cclib.Varval.Conforms.{Fits, AllFit, fit, pick, pick_present}
use cclib.Varval.Inversion.{AllFit-pair}

module _ (part : Var → Option Var) (k p : Var) (items : Pairs) where
  pick-none : part k ≡ none → pick part (pair k p items) ≡ none
  pick-none h = ground (arith, h)

  pick-pair :
      (v : Var) (qs : Pairs)
      → part k ≡ some v
      → pick part items ≡ some qs
      → pick part (pair k p items) ≡ some (pair v p qs)
  pick-pair v qs h e = ground (arith, h, e)

  pick-rest :
      (v : Var) → part k ≡ some v → pick part items ≡ none → pick part (pair k p items) ≡ none
  pick-rest v h e = ground (arith, h, e)

  pub pick_present-none :
      part k ≡ none → pick_present part (pair k p items) ≡ pick_present part items
  pick_present-none h = ground (arith, h)

  pub pick_present-pair :
      (v : Var)
      → part k ≡ some v
      → pick_present part (pair k p items) ≡ pair v p (pick_present part items)
  pick_present-pair v h = ground (arith, h)

  module _ {Regex : Type 0} (posix : Posix Regex) (schema : Var) where
    -- The parts are all there, and fit.
    abbrev pub Picks : Type 0
    Picks = (qs : Pairs) × (pick part items ≡ some qs) × AllFit posix schema qs

    abbrev pub PicksPair : Type 0
    PicksPair = (qs : Pairs) × (pick part (pair k p items) ≡ some qs) × AllFit posix schema qs

    pub Picks-none : part k ≡ none → ¬ PicksPair
    Picks-none h (qs, e, fs) = absurd (cc (e, pick-none h))

    pub Picks-pair : (v : Var) → part k ≡ some v → Fits posix schema v p × Picks → PicksPair
    Picks-pair v h (f, (qs, e, fs)) = (pair v p qs, pick-pair v qs h e, fit f fs)

    pub Picks-unpair : (v : Var) → part k ≡ some v → PicksPair → Fits posix schema v p × Picks
    Picks-unpair v h (rs, e, fs) = elim (Option-cases (pick part items)) [
      | inl rest ↦ absurd (cc (e, pick-rest v h rest))
      | inr (qs, rest) ↦
          let same : rs ≡ pair v p qs = cc (e, pick-pair v qs h rest) in
          let (f, gs) = AllFit-pair posix schema (subst (AllFit posix schema) same fs) in
          (f, (qs, rest, gs))
    ]
