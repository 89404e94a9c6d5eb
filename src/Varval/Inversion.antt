-- ===== src/Varval/Inversion.antt =====
-- What a derivation of `Conforms` consists of.
use mathlib.Core.Path.{subst}
use cclib.Base.{◌≡◌, ◌≢◌, ◌⊎◌, inl, inr, refl, some}
use cclib.Str.Regex.{Posix}
use cclib.Var.Value.{Var, Pairs, dict, pair, type}
use cclib.Var.Access
use cclib.Varval.Property.{Property, property, reference, entry_of}
use cclib.Varval.Validate.{find_schema}
use cclib.Varval.Conforms.{
  Conforms, conforms, Meets, meets, Satisfies, tested, referred, picked, AllFit, fit, Fits, direct,
  named, Tests, parts_of,
}

module _ {Regex : Type 0} (posix : Posix Regex) (schema : Var) where
  pub Conforms-dict :
      {v p : Var}
      → Conforms posix schema v p
      → (ps : Pairs) × (p ≡ dict ps) × Meets posix schema v ps
  Conforms-dict (conforms {ps = ps} m) = (ps, refl, m)

  pub Conforms-Meets :
      {v : Var} {ps : Pairs} → Conforms posix schema v (dict ps) → Meets posix schema v ps
  Conforms-Meets (conforms m) = m

  pub Meets-pair :
      {v k p : Var} {ps : Pairs}
      → Meets posix schema v (pair k p ps)
      → Satisfies posix schema v k p × Meets posix schema v ps
  Meets-pair (meets s m) = (s, m)

  pub AllFit-pair :
      {v p : Var} {qs : Pairs}
      → AllFit posix schema (pair v p qs)
      → Fits posix schema v p × AllFit posix schema qs
  AllFit-pair (fit f fs) = (f, fs)

  -- A derivation for an entry with a property: a test, or parts that fit.
  pub Satisfies-property :
      {v k p : Var} {i : Property}
      → entry_of k ≡ property i
      → Satisfies posix schema v k p
      → Tests posix schema i v p
        ⊎ ((qs : Pairs) × (parts_of i v p ≡ some qs) × AllFit posix schema qs)
  Satisfies-property {v} {p = p} e (tested e' t) =
      inl (subst (λ j. Tests posix schema j v p) (cc) t)
  Satisfies-property e (referred e' f c) = absurd (cc)
  Satisfies-property {v} {p = p} e (picked {qs = qs} e' ps f) =
      inr (qs, subst (λ j. parts_of j v p ≡ some qs) (cc) ps, f)

  -- A derivation for a reference.
  pub Satisfies-reference :
      {v k p : Var}
      → entry_of k ≡ reference
      → Satisfies posix schema v k p
      → (ref : Var) × (find_schema schema p ≡ Access.ok (some ref)) × Conforms posix schema v ref
  Satisfies-reference e (tested e' t) = absurd (cc)
  Satisfies-reference e (referred {ref = ref} e' f c) = (ref, f, c)
  Satisfies-reference e (picked e' ps f) = absurd (cc)

  -- Any other entry has none.
  pub Satisfies-entry :
      {v k p : Var}
      → entry_of k ≢ reference
      → ((i : Property) → entry_of k ≢ property i)
      → ¬ Satisfies posix schema v k p
  Satisfies-entry r n (tested {i = i} e t) = n i e
  Satisfies-entry r n (referred e f c) = r e
  Satisfies-entry r n (picked {i = i} e ps f) = n i e

  -- A derivation for a value and its schema.
  pub Fits-direct : {v p : Var} → type p ≢ 4 → Fits posix schema v p → Conforms posix schema v p
  Fits-direct ne (direct ne' c) = c
  Fits-direct ne (named e f c) = absurd (ne e)

  pub Fits-named :
      {v p : Var}
      → type p ≡ 4
      → Fits posix schema v p
      → (ref : Var) × (find_schema schema p ≡ Access.ok (some ref)) × Conforms posix schema v ref
  Fits-named e (direct ne c) = absurd (ne e)
  Fits-named e (named {ref = ref} e' f c) = (ref, f, c)
