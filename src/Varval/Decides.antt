-- ===== src/Varval/Decides.antt =====
-- `validate_pair` and `validate` of lib/cclvarval.cc decide whether a value conforms to a schema.
use mathlib.Core.Path.{subst}
use cclib.Base.{◌≡◌, ◌⊎◌, refl, arith, none, some, Bool, inl, inr}
use cclib.Str.Regex.{Posix}
use cclib.Var.Value.{Var, Pairs, integer, array, set, list, dict}
use cclib.Base.Int.{pos}
use cclib.Var.Dict.{lookup}
use cclib.Var.Access.{to_dict}
use cclib.Varval.Property.{
  Property, prop_type, prop_equal, prop_not_equal, prop_lesser, prop_greater, prop_lesser_equal,
  prop_greater_equal, prop_size_equal, prop_size_not_equal, prop_size_lesser, prop_size_greater,
  prop_size_lesser_equal, prop_size_greater_equal, prop_regex, prop_items, prop_opt_items,
  prop_all_keys, prop_all_items,
}
use cclib.Varval.State.{Validator, Outcome}
use cclib.Varval.Simple.{type_error, compare_error, size_error}
use cclib.Varval.Validate.{
  Call, validate_items, validate_opt_items, validate_all_keys, validate_all_items,
  validate_property,
}
use cclib.Varval.Conforms.{
  AllFit, Tests, parts_of, each_key, each_value, each_element, pick_present,
}
use cclib.Varval.Path.{Child, of_array, of_set, of_list, entry, key}
use cclib.Varval.Verdict.{IsReady, Judges, Judges-iff, Judges-thrown}
use cclib.Varval.Judge.{IsJudge}
use cclib.Varval.Loops.{
  validate_elements-Judges, validate_keys-Judges, validate_values-Judges, validate_indices-Judges,
  validate_entries-Judges, validate_entries-Judges_present,
}
use cclib.Varval.Tested.{
  type_error_iff, compare_error_iff, size_error_iff, verdict-Judges, validate_regex-Judges,
}

module _ {Regex : Type 0} (posix : Posix Regex) (lhs_first : Bool) (schema : Var) where
  -- The parts that a property picks fit their schemas.
  abbrev pub PartsFit : Property → Var → Var → Type 0
  PartsFit i v p = (qs : Pairs) × (parts_of i v p ≡ some qs) × AllFit posix schema qs

  -- A test or parts: what an entry with a property needs.
  abbrev pub Holds : Property → Var → Var → Type 0
  Holds i v p = Tests posix schema i v p ⊎ PartsFit i v p

  PartsFit-of :
      {v : Var} {s : Validator Regex} {o : Outcome Regex} (i : Property) (p : Var) (qs : Pairs)
      → parts_of i v p ≡ some qs
      → Judges posix schema (AllFit posix schema qs) v s o
      → Judges posix schema (PartsFit i v p) v s o
  PartsFit-of i p qs h j =
      Judges-iff posix schema (λ fs. (qs, h, fs))
        (λ (qs', h', fs). subst (AllFit posix schema) (cc) fs) j

  Holds-tested :
      {s : Validator Regex} {o : Outcome Regex} (i : Property) (v p : Var)
      → parts_of i v p ≡ none
      → Judges posix schema (Tests posix schema i v p) v s o
      → Judges posix schema (Holds i v p) v s o
  Holds-tested i v p h j =
      Judges-iff posix schema inl (elim [ inl t ↦ t | inr (qs, e, fs) ↦ absurd (cc) ]) j

  Holds-picked :
      {s : Validator Regex} {o : Outcome Regex} (i : Property) (v p : Var)
      → ¬ Tests posix schema i v p
      → Judges posix schema (PartsFit i v p) v s o
      → Judges posix schema (Holds i v p) v s o
  Holds-picked i v p h j = Judges-iff posix schema inr (elim [ inl t ↦ absurd (h t) | inr q ↦ q ]) j

  module _ (call : Call posix lhs_first) (judge : IsJudge posix lhs_first schema call) where
    validate_all_items-Judges :
        (v p : Var) (s : Validator Regex)
        → IsReady posix schema s
        → Judges posix schema
            (PartsFit prop_all_items v p)
            v
            s
            (validate_all_items posix lhs_first call v p s)
    unfolding validate_all_items parts_of
    validate_all_items-Judges (array xs) p s ready =
        PartsFit-of prop_all_items p (each_element p xs) refl (
          validate_elements-Judges posix lhs_first schema call judge (array xs) p 0 xs s
            (λ n c h. subst (λ m. Child (array xs) (integer (pos m)) c) (omega arith) (of_array h))
            ready)
    validate_all_items-Judges (set xs) p s ready =
        PartsFit-of prop_all_items p (each_element p xs) refl (
          validate_elements-Judges posix lhs_first schema call judge (set xs) p 0 xs s
            (λ n c h. subst (λ m. Child (set xs) (integer (pos m)) c) (omega arith) (of_set h))
            ready)
    validate_all_items-Judges (list xs) p s ready =
        PartsFit-of prop_all_items p (each_element p xs) refl (
          validate_elements-Judges posix lhs_first schema call judge (list xs) p 0 xs s
            (λ n c h. subst (λ m. Child (list xs) (integer (pos m)) c) (omega arith) (of_list h))
            ready)
    validate_all_items-Judges (dict ps) p s ready =
        PartsFit-of prop_all_items p (each_value p ps) refl (
          validate_values-Judges posix lhs_first schema call judge (dict ps) p ps s
            (λ k w h. entry h) ready)
    validate_all_items-Judges v p s ready =
        Judges-thrown posix schema (λ (qs, e, fs). cc) ready.0 refl

    validate_all_keys-Judges :
        (v p : Var) (s : Validator Regex)
        → IsReady posix schema s
        → Judges posix schema
            (PartsFit prop_all_keys v p)
            v
            s
            (validate_all_keys posix lhs_first call v p s)
    unfolding validate_all_keys parts_of
    validate_all_keys-Judges (dict ps) p s ready =
        PartsFit-of prop_all_keys p (each_key p ps) refl (
          validate_keys-Judges posix lhs_first schema call judge (dict ps) p ps s (λ k w h. key w h)
            ready)
    validate_all_keys-Judges v p s ready =
        Judges-thrown posix schema (λ (qs, e, fs). cc) ready.0 refl

    validate_opt_items-Judges :
        (v p : Var) (s : Validator Regex)
        → IsReady posix schema s
        → Judges posix schema
            (PartsFit prop_opt_items v p)
            v
            s
            (validate_opt_items posix lhs_first call v p s)
    unfolding validate_opt_items parts_of to_dict
    validate_opt_items-Judges (dict ps) (dict items) s ready =
        PartsFit-of prop_opt_items (dict items) (pick_present (λ k. lookup k ps) items) refl
          (validate_entries-Judges_present posix lhs_first schema call judge ps items s ready)
    validate_opt_items-Judges (dict ps) p s ready =
        Judges-thrown posix schema (λ (qs, e, fs). cc) ready.0 refl
    validate_opt_items-Judges v p s ready =
        Judges-thrown posix schema (λ (qs, e, fs). cc) ready.0 refl

    validate_items-Judges :
        (v p : Var) (s : Validator Regex)
        → IsReady posix schema s
        → Judges posix schema
            (PartsFit prop_items v p)
            v
            s
            (validate_items posix lhs_first call v p s)
    unfolding validate_items parts_of to_dict
    validate_items-Judges (array xs) (dict items) s ready =
        validate_indices-Judges posix lhs_first schema call judge xs items s ready
    validate_items-Judges (array xs) p s ready =
        Judges-thrown posix schema (λ (qs, e, fs). cc) ready.0 refl
    validate_items-Judges (dict ps) (dict items) s ready =
        validate_entries-Judges posix lhs_first schema call judge ps items s ready
    validate_items-Judges (dict ps) p s ready =
        Judges-thrown posix schema (λ (qs, e, fs). cc) ready.0 refl
    validate_items-Judges v p s ready = Judges-thrown posix schema (λ (qs, e, fs). cc) ready.0 refl

    pub validate_property-Judges :
        (i : Property) (v p : Var) (s : Validator Regex)
        → IsReady posix schema s
        → Judges posix schema (Holds i v p) v s (validate_property posix lhs_first call i v p s)
    unfolding validate_property parts_of
    validate_property-Judges prop_type v p s ready =
        Holds-tested prop_type v p refl
          (verdict-Judges posix lhs_first schema v (type_error v p) s (type_error_iff v p) ready)
    validate_property-Judges prop_equal v p s ready = Holds-tested prop_equal v p refl (
        verdict-Judges posix lhs_first schema v (compare_error prop_equal v p) s
          (compare_error_iff prop_equal v p) ready)
    validate_property-Judges prop_not_equal v p s ready = Holds-tested prop_not_equal v p refl (
        verdict-Judges posix lhs_first schema v (compare_error prop_not_equal v p) s
          (compare_error_iff prop_not_equal v p) ready)
    validate_property-Judges prop_lesser v p s ready = Holds-tested prop_lesser v p refl (
        verdict-Judges posix lhs_first schema v (compare_error prop_lesser v p) s
          (compare_error_iff prop_lesser v p) ready)
    validate_property-Judges prop_greater v p s ready = Holds-tested prop_greater v p refl (
        verdict-Judges posix lhs_first schema v (compare_error prop_greater v p) s
          (compare_error_iff prop_greater v p) ready)
    validate_property-Judges prop_lesser_equal v p s ready =
        Holds-tested prop_lesser_equal v p refl (
          verdict-Judges posix lhs_first schema v (compare_error prop_lesser_equal v p) s
            (compare_error_iff prop_lesser_equal v p) ready)
    validate_property-Judges prop_greater_equal v p s ready =
        Holds-tested prop_greater_equal v p refl (
          verdict-Judges posix lhs_first schema v (compare_error prop_greater_equal v p) s
            (compare_error_iff prop_greater_equal v p) ready)
    validate_property-Judges prop_size_equal v p s ready = Holds-tested prop_size_equal v p refl (
        verdict-Judges posix lhs_first schema v (size_error prop_size_equal v p) s
          (size_error_iff prop_size_equal v p) ready)
    validate_property-Judges prop_size_not_equal v p s ready =
        Holds-tested prop_size_not_equal v p refl (
          verdict-Judges posix lhs_first schema v (size_error prop_size_not_equal v p) s
            (size_error_iff prop_size_not_equal v p) ready)
    validate_property-Judges prop_size_lesser v p s ready = Holds-tested prop_size_lesser v p refl (
        verdict-Judges posix lhs_first schema v (size_error prop_size_lesser v p) s
          (size_error_iff prop_size_lesser v p) ready)
    validate_property-Judges prop_size_greater v p s ready =
        Holds-tested prop_size_greater v p refl (
          verdict-Judges posix lhs_first schema v (size_error prop_size_greater v p) s
            (size_error_iff prop_size_greater v p) ready)
    validate_property-Judges prop_size_lesser_equal v p s ready =
        Holds-tested prop_size_lesser_equal v p refl (
          verdict-Judges posix lhs_first schema v (size_error prop_size_lesser_equal v p) s
            (size_error_iff prop_size_lesser_equal v p) ready)
    validate_property-Judges prop_size_greater_equal v p s ready =
        Holds-tested prop_size_greater_equal v p refl (
          verdict-Judges posix lhs_first schema v (size_error prop_size_greater_equal v p) s
            (size_error_iff prop_size_greater_equal v p) ready)
    validate_property-Judges prop_regex v p s ready =
        Holds-tested prop_regex v p refl (validate_regex-Judges posix lhs_first schema v p s ready)
    validate_property-Judges prop_items v p s ready =
        Holds-picked prop_items v p (λ h. h) (validate_items-Judges v p s ready)
    validate_property-Judges prop_opt_items v p s ready =
        Holds-picked prop_opt_items v p (λ h. h) (validate_opt_items-Judges v p s ready)
    validate_property-Judges prop_all_keys v p s ready =
        Holds-picked prop_all_keys v p (λ h. h) (validate_all_keys-Judges v p s ready)
    validate_property-Judges prop_all_items v p s ready =
        Holds-picked prop_all_items v p (λ h. h) (validate_all_items-Judges v p s ready)
