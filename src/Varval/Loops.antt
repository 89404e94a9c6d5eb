-- ===== src/Varval/Loops.antt =====
-- The loops of `validate_pair` of lib/cclvarval.cc over the parts of a value decide whether the parts
-- fit their schemas.
use mathlib.Core.Path.{subst}
use cclib.Base.{
  ℕ, suc, ◌+◌, ◌≡◌, refl, sym, arith, Option, some, codes, Bool, inl, inr, Option-cases,
}
use cclib.Base.Int.{ℤ, pos, negsuc}
use cclib.Str.Regex.{Posix}
use cclib.Var.Value.{Var, Vars, Pairs, integer, array, dict, nil, cons, none_left, pair}
use cclib.Var.Dict.{lookup}
use cclib.Var.Access.{to_int, nth, at, has_key}
use cclib.Varval.State.{Validator, done}
use cclib.Varval.Validate.{
  Call, missing_key, validate_indices, validate_entries, validate_keys, validate_elements,
  validate_values,
}
use cclib.Varval.Conforms.{
  AllFit, fit_none, fit, pick, pick_present, element, each_key, each_value, each_element,
}
use cclib.Varval.Inversion.{AllFit-pair}
use cclib.Varval.Picks.{Picks-none, Picks-pair, Picks-unpair, pick_present-none, pick_present-pair}
use cclib.Varval.Path.{HasEntry, Child, of_array, found, no_element, no_entry}
use cclib.Varval.Verdict.{
  IsReady, Judges, accepts, Judges-iff, Judges-and_then, Judges-thrown, Judges-missing,
}
use cclib.Varval.Judge.{IsJudge, validate_call-Judges}

module _ {Regex : Type 0} (posix : Posix Regex) (lhs_first : Bool) (schema : Var)
    (call : Call posix lhs_first) (judge : IsJudge posix lhs_first schema call) where
  pub validate_elements-Judges :
      (v p : Var) (position : ℕ) (xs : Vars) (s : Validator Regex)
      → ((n : ℕ) (c : Var) → nth xs n ≡ some c → Child v (integer (pos (position + n))) c)
      → IsReady posix schema s
      → Judges posix schema
          (AllFit posix schema (each_element p xs))
          v
          s
          (validate_elements posix lhs_first call p position xs s)
  unfolding validate_elements
  validate_elements-Judges v p position nil s child ready = accepts fit_none (ready, refl, refl)
  validate_elements-Judges v p position (cons x xs) s child ready =
      let head : position + 0 ≡ position = omega arith in
      Judges-iff posix schema (λ (f, fs). fit f fs) (λ fs. AllFit-pair posix schema fs)
        (Judges-and_then posix schema
          (validate_call-Judges posix lhs_first schema call judge v (integer (pos position)) x p
            (codes "all-items") s (subst (λ n. Child v (integer (pos n)) x) head (child 0 x refl))
            ready)
          (λ t rt.
            validate_elements-Judges v p (position + 1) xs t
              (λ n c h.
                let next : position + suc n ≡ (position + 1) + n = omega arith in
                subst (λ m. Child v (integer (pos m)) c) next (child (suc n) c h))
              rt))

  pub validate_keys-Judges :
      (v p : Var) (ps : Pairs) (s : Validator Regex)
      → ((k w : Var) → HasEntry k w ps → Child v k k)
      → IsReady posix schema s
      → Judges posix schema
          (AllFit posix schema (each_key p ps))
          v
          s
          (validate_keys posix lhs_first call p ps s)
  unfolding validate_keys
  validate_keys-Judges v p none_left s child ready = accepts fit_none (ready, refl, refl)
  validate_keys-Judges v p (pair k w ps) s child ready =
      Judges-iff posix schema (λ (f, fs). fit f fs) (λ fs. AllFit-pair posix schema fs)
        (Judges-and_then posix schema
          (validate_call-Judges posix lhs_first schema call judge v k k p (codes "all-keys") s
            (child k w (inl (refl, refl))) ready)
          (λ t rt. validate_keys-Judges v p ps t (λ j u h. child j u (inr h)) rt))

  pub validate_values-Judges :
      (v p : Var) (ps : Pairs) (s : Validator Regex)
      → ((k w : Var) → HasEntry k w ps → Child v k w)
      → IsReady posix schema s
      → Judges posix schema
          (AllFit posix schema (each_value p ps))
          v
          s
          (validate_values posix lhs_first call p ps s)
  unfolding validate_values
  validate_values-Judges v p none_left s child ready = accepts fit_none (ready, refl, refl)
  validate_values-Judges v p (pair k w ps) s child ready =
      Judges-iff posix schema (λ (f, fs). fit f fs) (λ fs. AllFit-pair posix schema fs)
        (Judges-and_then posix schema
          (validate_call-Judges posix lhs_first schema call judge v k w p (codes "all-items") s
            (child k w (inl (refl, refl))) ready)
          (λ t rt. validate_values-Judges v p ps t (λ j u h. child j u (inr h)) rt))

  -- The parts that a property asks for are all there, and fit.
  abbrev pub AllPicked : (Var → Option Var) → Pairs → Type 0
  AllPicked part items = (qs : Pairs) × (pick part items ≡ some qs) × AllFit posix schema qs

  Child-at : (xs : Vars) (i : ℤ) (c : Var) → at xs i ≡ some c → Child (array xs) (integer i) c
  Child-at xs (pos n) c h = of_array h
  Child-at xs (negsuc n) c h = absurd (cc)

  pub validate_indices-Judges :
      (xs : Vars) (items : Pairs) (s : Validator Regex)
      → IsReady posix schema s
      → Judges posix schema
          (AllPicked (element xs) items)
          (array xs)
          s
          (validate_indices posix lhs_first call xs items s)
  unfolding validate_indices to_int
  validate_indices-Judges xs none_left s ready =
      accepts (none_left, refl, fit_none) (ready, refl, refl)
  validate_indices-Judges xs (pair (integer i) p items) s ready = elim (Option-cases (at xs i)) [
    | inl e ↦
        rw (e, validate_indices, to_int)
          (Judges-missing posix schema (Picks-none (element xs) (integer i) p items posix schema e)
            ready.0 refl (no_element e))
    | inr (c, e) ↦
        rw (e, validate_indices, to_int)
          (Judges-iff posix schema (Picks-pair (element xs) (integer i) p items posix schema c e)
            (Picks-unpair (element xs) (integer i) p items posix schema c e)
            (Judges-and_then posix schema
              (validate_call-Judges posix lhs_first schema call judge (array xs) (integer i) c p
                (codes "items") s (Child-at xs i c e) ready)
              (λ t rt. validate_indices-Judges xs items t rt)))
  ]
  validate_indices-Judges xs (pair k p items) s ready =
      Judges-thrown posix schema (λ (qs, e, fs). cc) ready.0 refl

  -- The entries of a dictionary that must be there.
  pub validate_entries-Judges :
      (ps items : Pairs) (s : Validator Regex)
      → IsReady posix schema s
      → Judges posix schema (AllPicked (λ k. lookup k ps) items) (dict ps) s (
          validate_entries posix lhs_first call
            (missing_key posix lhs_first call)
            (codes "items")
            (dict ps)
            items
            s)
  unfolding validate_entries has_key missing_key
  validate_entries-Judges ps none_left s ready =
      accepts (none_left, refl, fit_none) (ready, refl, refl)
  validate_entries-Judges ps (pair k p items) s ready = elim (Option-cases (lookup k ps)) [
    | inl e ↦
        rw (e, validate_entries, has_key)
          (Judges-missing posix schema (Picks-none (λ j. lookup j ps) k p items posix schema e)
            ready.0 refl (no_entry e))
    | inr (c, e) ↦
        rw (e, validate_entries, has_key)
          (Judges-iff posix schema (Picks-pair (λ j. lookup j ps) k p items posix schema c e)
            (Picks-unpair (λ j. lookup j ps) k p items posix schema c e)
            (Judges-and_then posix schema
              (validate_call-Judges posix lhs_first schema call judge (dict ps) k c p
                (codes "items") s (found e) ready)
              (λ t rt. validate_entries-Judges ps items t rt)))
  ]

  -- The entries of a dictionary that may be there.
  pub validate_entries-Judges_present :
      (ps items : Pairs) (s : Validator Regex)
      → IsReady posix schema s
      → Judges posix schema
          (AllFit posix schema (pick_present (λ k. lookup k ps) items))
          (dict ps)
          s
          (validate_entries posix lhs_first call
            (λ k t. done t)
            (codes "opt-items")
            (dict ps)
            items
            s)
  unfolding validate_entries has_key
  validate_entries-Judges_present ps none_left s ready = accepts fit_none (ready, refl, refl)
  validate_entries-Judges_present ps (pair k p items) s ready = elim (Option-cases (lookup k ps)) [
    | inl e ↦
        let same = pick_present-none (λ j. lookup j ps) k p items e in
        rw (e, validate_entries, has_key)
          (Judges-iff posix schema (subst (AllFit posix schema) (sym same))
            (subst (AllFit posix schema) same) (validate_entries-Judges_present ps items s ready))
    | inr (c, e) ↦
        let same = pick_present-pair (λ j. lookup j ps) k p items c e in
        rw (e, validate_entries, has_key)
          (Judges-iff posix schema (λ (f, fs). subst (AllFit posix schema) (sym same) (fit f fs))
            (λ fs. AllFit-pair posix schema (subst (AllFit posix schema) same fs))
            (Judges-and_then posix schema
              (validate_call-Judges posix lhs_first schema call judge (dict ps) k c p
                (codes "opt-items") s (found e) ready)
              (λ t rt. validate_entries-Judges_present ps items t rt)))
  ]
