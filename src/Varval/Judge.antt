-- ===== src/Varval/Judge.antt =====
-- `validate_pair` of lib/cclvarval.cc decides `Conforms`: the loops over the parts of a value.
use mathlib.Core.Path.{subst}
use cclib.Base.{◌≡◌, ◌≢◌, refl, sym, ap, arith, Option, none, some, Bytes, Bool}
use cclib.Str.Regex.{Posix}
use cclib.Var.Value.{Var, string, type}
use cclib.Var.Access
use cclib.Var.Access.{to_int, to_str, to_dict, nth, at, has_key}
use cclib.Varval.State.{Validator}
use cclib.Varval.Validate.{
  find_schema, Call, push_pair, push_ref, follow, validate_reference, validate_call,
}
use cclib.Varval.Conforms.{Conforms, Fits, direct, named}
use cclib.Varval.Inversion.{Fits-direct, Fits-named}
use cclib.Varval.Path.{Child}
use cclib.Varval.Verdict.{IsReady, Judges, Judges-iff, Judges-thrown, Judges-Child, Judges-same}

module _ {Regex : Type 0} (posix : Posix Regex) (lhs_first : Bool) (schema : Var)
    (call : Call posix lhs_first) where
  -- A call decides whether a value conforms to a schema.
  abbrev pub IsJudge : Type 0
  IsJudge =
      (v p : Var) (s : Validator Regex)
      → IsReady posix schema s
      → Judges posix schema (Conforms posix schema v p) v s (call v p s)

  -- What the name of a schema stands for conforms.
  abbrev pub Refers : Var → Var → Type 0
  Refers v p =
      (ref : Var) × (find_schema schema p ≡ Access.ok (some ref)) × Conforms posix schema v ref

  module _ (judge : IsJudge) where
    follow-Judges_same :
        (v p : Var) (r : Access.Result (Option Var)) (s : Validator Regex)
        → find_schema schema p ≡ r
        → IsReady posix schema s
        → Judges posix schema (Refers v p) v s (follow posix lhs_first call (λ t. t) v p r s)
    follow-Judges_same v p (Access.err e) s h ready =
        Judges-thrown posix schema (λ (ref, h', _). cc) ready.0 refl
    follow-Judges_same v p (Access.ok none) s h ready =
        Judges-thrown posix schema (λ (ref, h', _). cc) ready.0 refl
    follow-Judges_same v p (Access.ok (some ref)) s h ready =
        Judges-iff posix schema (λ c. (ref, h, c))
          (λ (ref', h', c). subst (λ r. Conforms posix schema v r) (cc) c)
          (Judges-same posix schema (push_ref posix lhs_first p) (λ t. (refl, refl))
            (judge v ref s ready))

    -- A reference, where the handler pushes nothing on the stack of values.
    pub validate_reference-Judges_same :
        (v p : Var) (s : Validator Regex)
        → IsReady posix schema s
        → Judges posix schema
            (Refers v p)
            v
            s
            (validate_reference posix lhs_first call (λ t. t) v p s)
    unfolding validate_reference
    validate_reference-Judges_same v p s ready =
        follow-Judges_same v p (find_schema s.schema p) s (ap (λ m. find_schema m p) (sym ready.0))
          ready

    follow-Judges :
        (v k c p : Var) (name : Bytes) (r : Access.Result (Option Var)) (s : Validator Regex)
        → Child v k c
        → find_schema schema p ≡ r
        → IsReady posix schema s
        → Judges posix schema
            (Refers c p)
            v
            s
            (follow posix lhs_first call (push_pair posix lhs_first k name) c p r s)
    follow-Judges v k c p name (Access.err e) s child h ready =
        Judges-thrown posix schema (λ (ref, h', _). cc) ready.0 refl
    follow-Judges v k c p name (Access.ok none) s child h ready =
        Judges-Child posix schema
          (λ t. push_pair posix lhs_first k name (push_ref posix lhs_first p t)) (λ t. (refl, refl))
          child (Judges-thrown posix schema {s = s} {t = s} (λ (ref, h', _). cc) ready.0 refl)
    follow-Judges v k c p name (Access.ok (some ref)) s child h ready =
        Judges-iff posix schema (λ d. (ref, h, d))
          (λ (ref', h', d). subst (λ r. Conforms posix schema c r) (cc) d)
          (Judges-Child posix schema
            (λ t. push_pair posix lhs_first k name (push_ref posix lhs_first p t))
            (λ t. (refl, refl)) child (judge c ref s ready))

    -- A part of the value, with its schema or the name of one.
    pub validate_call-Judges :
        (v k c p : Var) (name : Bytes) (s : Validator Regex)
        → Child v k c
        → IsReady posix schema s
        → Judges posix schema
            (Fits posix schema c p)
            v
            s
            (validate_call posix lhs_first call (push_pair posix lhs_first k name) c p s)
    unfolding validate_call validate_reference
    validate_call-Judges v k c (string n) name s child ready =
        Judges-iff posix schema (λ (ref, h, d). named refl h d)
          (λ f. Fits-named posix schema refl f)
          (follow-Judges v k c (string n) name (find_schema s.schema (string n)) s child
            (ap (λ m. find_schema m (string n)) (sym ready.0)) ready)
    validate_call-Judges v k c p name s child ready =
        let ne : type p ≢ 4 = omega arith in
        Judges-iff posix schema (λ d. direct ne d) (λ f. Fits-direct posix schema ne f)
          (Judges-Child posix schema (push_pair posix lhs_first k name) (λ t. (refl, refl)) child
            (judge c p s ready))
