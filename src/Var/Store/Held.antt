-- ===== src/Var/Store/Held.antt =====
-- How the references that stand outside the locations of lib/cclvar.h are counted.
use cclib.Base.{
  ℕ, zero, suc, ◌+◌, ◌<◌, ◌≡◌, refl, arith, some, List, [], ◌∷◌, ◌++◌, Bytes, drop,
  take-append-drop, get_elem?, bytes_eq, ◌==◌, Bool-cases, inl, inr,
}
use cclib.Var.Store.{Address, Data, elements}
use cclib.Var.Store.Data.{blank, bool, integer, float, string, array, set, list, dict}
use cclib.Var.Store.Counts.{here, tally, tally_self}
use cclib.Var.Store.Variables.{Literals, State, moved, fill_data, find_literal, remove, set_at}
use cclib.Var.Store.Sound.{Sound}

abbrev pub addresses : Literals → List Address
addresses [] = []
addresses ((v, q) ∷ ls) = q ∷ addresses ls

-- The references outside the locations.
abbrev pub held : State → List Address
held s = s.vars ++ addresses s.str_map

abbrev pub IsSound : ℕ → State → Type 0
IsSound n s = Sound n (held s) s.heap

pub tally-remove :
    (a p : Address) (ps : List Address) (i : ℕ)
    → get_elem? ps i ≡ some p
    → tally a ps ≡ here (p == a) + tally a (remove i ps)
tally-remove a p [] i e = absurd (cc)
tally-remove a p (q ∷ ps) zero e = ground (arith, e)
tally-remove a p (q ∷ ps) (suc i) e = omega (arith, tally-remove a p ps i e)

pub tally-set_at :
    (a p q : Address) (ps : List Address) (i : ℕ)
    → get_elem? ps i ≡ some p
    → here (p == a) + tally a (set_at i q ps) ≡ here (q == a) + tally a ps
tally-set_at a p q [] i e = absurd (cc)
tally-set_at a p q (r ∷ ps) zero e = ground (arith, e)
tally-set_at a p q (r ∷ ps) (suc i) e = omega (arith, tally-set_at a p q ps i e)

pub tally-elem :
    (p : Address) (ps : List Address) (i : ℕ) → get_elem? ps i ≡ some p → 0 < tally p ps
tally-elem p ps i e = omega (arith, tally-remove p p ps i e, tally_self p (remove i ps))

pub tally-find :
    (v : Bytes) (ls : Literals) (q : Address)
    → find_literal v ls ≡ some q
    → 0 < tally q (addresses ls)
tally-find v [] q e = absurd (cc)
tally-find v ((t, r) ∷ ls) q e = elim (Bool-cases (bytes_eq v t)) [
  | inl b ↦ ground (arith, e, b, tally_self r (addresses ls))
  | inr b ↦ omega (arith, tally-find v ls q (ground (arith, e, b)))
]

pub elements-fill_data :
    (d : Data ℕ) (vs : List Address) → elements (fill_data d vs) ++ drop (moved d) vs ≡ vs
elements-fill_data blank vs = refl
elements-fill_data (bool b) vs = refl
elements-fill_data (integer m) vs = refl
elements-fill_data (float x) vs = refl
elements-fill_data (string t) vs = refl
elements-fill_data (array n) vs = take-append-drop n vs
elements-fill_data (set n) vs = take-append-drop n vs
elements-fill_data (list n) vs = take-append-drop n vs
elements-fill_data (dict n) vs = take-append-drop n vs
