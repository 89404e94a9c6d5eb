-- ===== src/Varval/Correct.antt =====
-- `validate_pair` and `validate` of lib/cclvarval.cc decide whether a value conforms to a schema.
use mathlib.Core.Path.{subst}
use mathlib.Core.List.{reverse, reverse-reverse}
use cclib.Base.{ℕ, zero, suc, ◌≡◌, refl, sym, ap, ◌∙◌, [], ◌++◌, codes, Bool, inl, inr}
use cclib.Str.Regex.{Posix}
use cclib.Var.Value.{Var, Pairs, string, dict, none_left, pair}
use cclib.Var.Access
use cclib.Var.Access.{to_dict, index_var}
use cclib.Varval.Property.{Property, Entry, property, reference, unknown, no_name, entry_of}
use cclib.Varval.State.{fault, out_of_fuel, on_throw, Validator, Outcome, done, thrown}
use cclib.Varval.Validate.{
  validate, at_root, by_entry, Call, validate_entry, validate_properties, validate_pair,
}
use cclib.Varval.Conforms.{
  Conforms, conforms, Meets, meets_none, meets, Satisfies, tested, referred, picked,
}
use cclib.Varval.Inversion.{
  Conforms-Meets, Conforms-dict, Meets-pair, Satisfies-property, Satisfies-reference,
  Satisfies-entry,
}
use cclib.Varval.Path.{Leads, Leads}
use cclib.Varval.Verdict.{
  refuses, CacheOk, IsReady, Judges, accepts, gives_up, Judges-iff, Judges-and_then, Judges-thrown,
}
use cclib.Varval.Judge.{IsJudge, validate_reference-Judges_same}
use cclib.Varval.Decides.{Holds, validate_property-Judges}

module _ {Regex : Type 0} (posix : Posix Regex) (lhs_first : Bool) (schema : Var) where
  module _ (call : Call posix lhs_first) (judge : IsJudge posix lhs_first schema call) where
    Holds-iff :
        {v k p : Var} {i : Property} {s : Validator Regex} {o : Outcome Regex}
        → entry_of k ≡ property i
        → Judges posix schema (Holds posix lhs_first schema i v p) v s o
        → Judges posix schema (Satisfies posix schema v k p) v s o
    Holds-iff e j =
        Judges-iff posix schema (elim [ inl t ↦ tested e t | inr (qs, h, fs) ↦ picked e h fs ])
          (Satisfies-property posix schema e) j

    by_entry-Judges :
        (v k p : Var) (e : Entry) (s : Validator Regex)
        → entry_of k ≡ e
        → IsReady posix schema s
        → Judges posix schema
            (Satisfies posix schema v k p)
            v
            s
            (by_entry posix lhs_first call v k p e s)
    by_entry-Judges v k p (property i) s e ready =
        Holds-iff e (validate_property-Judges posix lhs_first schema call judge i v p s ready)
    by_entry-Judges v k p reference s e ready =
        Judges-iff posix schema (λ (ref, f, c). referred e f c) (Satisfies-reference posix schema e)
          (validate_reference-Judges_same posix lhs_first schema call judge v p s ready)
    by_entry-Judges v k p unknown s e ready =
        Judges-thrown posix schema (Satisfies-entry posix schema (λ h. cc) (λ i h. cc)) ready.0 refl
    by_entry-Judges v k p no_name s e ready =
        Judges-thrown posix schema (Satisfies-entry posix schema (λ h. cc) (λ i h. cc)) ready.0 refl

    validate_entry-Judges :
        (v k p : Var) (s : Validator Regex)
        → IsReady posix schema s
        → Judges posix schema
            (Satisfies posix schema v k p)
            v
            s
            (validate_entry posix lhs_first call v k p s)
    unfolding validate_entry
    validate_entry-Judges v k p s ready = by_entry-Judges v k p (entry_of k) s refl ready

    validate_properties-Judges :
        (v : Var) (ps : Pairs) (s : Validator Regex)
        → IsReady posix schema s
        → Judges posix schema
            (Meets posix schema v ps)
            v
            s
            (validate_properties posix lhs_first call v ps s)
    unfolding validate_properties
    validate_properties-Judges v none_left s ready = accepts meets_none (ready, refl, refl)
    validate_properties-Judges v (pair k p ps) s ready =
        Judges-iff posix schema (λ (h, m). meets h m) (λ m. Meets-pair posix schema m)
          (Judges-and_then posix schema (validate_entry-Judges v k p s ready)
            (λ t rt. validate_properties-Judges v ps t rt))

  -- With any fuel, `validate_pair` accepts a value only if it conforms, and throws only if it does not.
  pub validate_pair-Judges :
      (f : ℕ) (v p : Var) (s : Validator Regex)
      → IsReady posix schema s
      → Judges posix schema (Conforms posix schema v p) v s (validate_pair posix lhs_first f v p s)
  unfolding validate_pair to_dict
  validate_pair-Judges zero v p s ready = gives_up
  validate_pair-Judges (suc f) v (dict ps) s ready =
      Judges-iff posix schema conforms (λ c. Conforms-Meets posix schema c)
        (validate_properties-Judges (validate_pair posix lhs_first f) (validate_pair-Judges f) v ps
          s ready)
  validate_pair-Judges (suc f) v p s ready =
      Judges-thrown posix schema
        (λ c. let (ps, e, m) = Conforms-dict posix schema c in absurd (cc e)) ready.0 refl

  -- What the end of a validation says: acceptance that the value conforms, with nothing on the stacks,
  -- and an exception that it does not, with a path to the part of the value that is to blame.
  abbrev pub Tells : Var → Var → Outcome Regex → Type 0
  Tells v root (done t) = Conforms posix schema v root × (t.value_stack ≡ []) × (t.props_stack ≡ [])
  Tells v root (thrown e t) = (¬ Conforms posix schema v root) × Leads v t.value_stack
  Tells v root fault = ⊥
  Tells v root out_of_fuel = Unit

  at_root-Tells :
      {v root : Var} {s : Validator Regex} {o : Outcome Regex}
      → s.value_stack ≡ []
      → s.props_stack ≡ []
      → Judges posix schema (Conforms posix schema v root) v s o
      → Tells v root (on_throw (at_root posix lhs_first) o)
  at_root-Tells hv hp (accepts c (ready, hv', hp')) = (c, hv' ∙ hv, hp' ∙ hp)
  at_root-Tells {v} {s = s} hv hp (refuses {t = t} c (path, hs, hv', l)) =
      let stack : reverse t.value_stack ≡ path =
        ap reverse (hv' ∙ ap (λ w. w ++ reverse path) hv) ∙ reverse-reverse path in
      (c, subst (Leads v) (sym stack) l)
  at_root-Tells hv hp gives_up = tt

  -- Where the schema has a root, or gets a blank one, and the cache holds compiled expressions, a
  -- validation that ends accepts exactly the values that conform to the root, leaves both stacks
  -- empty then, and otherwise reports a path from the value to a part of it; it never calls through
  -- a null pointer.
  pub validate-Tells :
      (f : ℕ) (v root : Var) (s : Validator Regex)
      → CacheOk posix schema s.regex_map
      → index_var s.schema (string (codes "root")) ≡ Access.ok (root, schema)
      → Tells v root (validate posix lhs_first f v s)
  unfolding validate
  validate-Tells f v root s cache h =
      let t = record s { schema = schema; value_stack = []; props_stack = [] } in
      rw (h, validate)
        (at_root-Tells {s = t} refl refl (validate_pair-Judges f v root t (refl, cache)))
