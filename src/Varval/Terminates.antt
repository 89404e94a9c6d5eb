-- ===== src/Varval/Terminates.antt =====
-- `validate` of lib/cclvarval.cc ends, also for schemas that refer to themselves, unless references
-- at one value go round in a circle; then it never ends.
use cclib.Base.{
  ◌↔◌, ℕ, zero, suc, ◌+◌, ◌*◌, ◌≤◌, ◌<◌, ◌≡◌, ◌≢◌, refl, sym, ap, ◌∙◌, arith, some, [], codes, Bool,
  inl, inr,
}
use cclib.Str.Regex.{Posix}
use cclib.Var.Value.{Var, Pairs, string, dict, none_left, pair}
use cclib.Var.Access
use cclib.Var.Access.{to_dict, index_var}
use cclib.Varval.Property.{
  Property, Entry, prop_regex, prop_items, prop_opt_items, prop_all_keys, prop_all_items, property,
  reference, unknown, no_name, entry_of,
}
use cclib.Varval.State.{Validator, Outcome, done, thrown, fault, out_of_fuel}
use cclib.Varval.Validate.{
  Call, find_schema, by_entry, validate_reference, validate_property, validate_entry,
  validate_properties, validate_pair, at_root, validate,
}
use cclib.Varval.Path.{HasEntry}
use cclib.Varval.Conforms.{Conforms}
use cclib.Varval.Verdict.{CacheOk}
use cclib.Varval.Correct.{Tells, validate-Tells}
use cclib.Varval.Height.{height}
use cclib.Varval.Ends.{
  Ends, ends_done, ends_thrown, Ends-and_then, Ends-on_throw, verdict-Ends, follow-Ends,
  validate_regex-Ends, validate_items-Ends, validate_opt_items-Ends, validate_all_keys-Ends,
  validate_all_items-Ends, Ends-ne,
}

-- Each reference from one schema to another, at the same value, goes to a schema of a lower rank.
pub record IsRanked (schema : Var) (rank : Var → ℕ) (top : ℕ) : Type 0 where
  pub bounded : (p : Var) → rank p ≤ top
  pub falls :
      (ps : Pairs) (k p ref : Var)
      → HasEntry k p ps
      → entry_of k ≡ reference
      → find_schema schema p ≡ Access.ok (some ref)
      → rank ref < rank (dict ps)

module _ {Regex : Type 0} (posix : Posix Regex) (lhs_first : Bool) (schema : Var) where
  module _ (call : Call posix lhs_first) (v : Var)
      (ends : (c p : Var) (s : Validator Regex)
        → height c < height v
        → s.schema ≡ schema
        → Ends schema (call c p s)) where
    validate_property-Ends :
        (i : Property) (p : Var) (s : Validator Regex)
        → s.schema ≡ schema
        → Ends schema (validate_property posix lhs_first call i v p s)
    unfolding validate_property
    validate_property-Ends prop_items p s hs =
        validate_items-Ends posix lhs_first schema call (height v) ends v p s (omega arith) hs
    validate_property-Ends prop_opt_items p s hs =
        validate_opt_items-Ends posix lhs_first schema call (height v) ends v p s (omega arith) hs
    validate_property-Ends prop_all_keys p s hs =
        validate_all_keys-Ends posix lhs_first schema call (height v) ends v p s (omega arith) hs
    validate_property-Ends prop_all_items p s hs =
        validate_all_items-Ends posix lhs_first schema call (height v) ends v p s (omega arith) hs
    validate_property-Ends prop_regex p s hs = validate_regex-Ends posix lhs_first schema v p s hs
    validate_property-Ends i p s hs = verdict-Ends posix lhs_first schema _ s hs

    by_entry-Ends :
        (k p : Var) (e : Entry) (s : Validator Regex)
        → ((ref : Var)
            → e ≡ reference
            → find_schema schema p ≡ Access.ok (some ref)
            → Ends schema (call v ref s))
        → s.schema ≡ schema
        → Ends schema (by_entry posix lhs_first call v k p e s)
    unfolding validate_reference
    by_entry-Ends k p (property i) s next hs = validate_property-Ends i p s hs
    by_entry-Ends k p reference s next hs =
        follow-Ends posix lhs_first schema call (λ t. t) v p (find_schema s.schema p) s
          (λ ref e. next ref refl (ap (λ m. find_schema m p) (sym hs) ∙ e))
    by_entry-Ends k p unknown s next hs = ends_thrown
    by_entry-Ends k p no_name s next hs = ends_thrown

    validate_properties-Ends :
        (ps : Pairs) (s : Validator Regex)
        → ((k p ref : Var) (t : Validator Regex)
            → HasEntry k p ps
            → entry_of k ≡ reference
            → find_schema schema p ≡ Access.ok (some ref)
            → t.schema ≡ schema
            → Ends schema (call v ref t))
        → s.schema ≡ schema
        → Ends schema (validate_properties posix lhs_first call v ps s)
    unfolding validate_properties validate_entry
    validate_properties-Ends none_left s next hs = ends_done hs
    validate_properties-Ends (pair k p ps) s next hs =
        Ends-and_then schema
          (by_entry-Ends k p (entry_of k) s (λ ref e f. next k p ref s (inl (refl, refl)) e f hs)
            hs)
          (λ t ht. validate_properties-Ends ps t (λ j q ref u m. next j q ref u (inr m)) ht)

  -- The fuel for a deeper level is below that for this one.
  fuel_below :
      (a b r r' top f : ℕ) → a < b → r' ≤ top → b * suc top + r < suc f → a * suc top + r' < f
  fuel_below a b r r' top f hab hr h = grind arith

  decided :
      {v root : Var} (o : Outcome Regex)
      → o ≢ out_of_fuel
      → Tells posix lhs_first schema v root o
      → ((t : Validator Regex) × (o ≡ done t)) ↔ Conforms posix schema v root
  decided (done t) ne (c, hv, hp) = ((λ e. c), (λ e. (t, refl)))
  decided (thrown e t) ne (c, h) = ((λ (u, e). absurd (cc)), (λ d. absurd (c d)))
  decided fault ne h = absurd h
  decided out_of_fuel ne h = absurd (ne refl)

  module _ (rank : Var → ℕ) (top : ℕ) (ranked : IsRanked schema rank top) where
    validate_pair-Ends :
        (f : ℕ) (v p : Var) (s : Validator Regex)
        → height v * suc top + rank p < f
        → s.schema ≡ schema
        → Ends schema (validate_pair posix lhs_first f v p s)
    unfolding validate_pair to_dict
    validate_pair-Ends zero v p s h hs = absurd (omega arith)
    validate_pair-Ends (suc f) v (dict ps) s h hs =
        validate_properties-Ends (validate_pair posix lhs_first f) v
          (λ c p t lower ht.
            validate_pair-Ends f c p t
              (fuel_below (height c) (height v) (rank (dict ps)) (rank p) top f lower
                (ranked.bounded p) h)
              ht)
          ps s
          (λ k p ref t m e found ht.
            validate_pair-Ends f v ref t (omega (arith, ranked.falls ps k p ref m e found)) ht)
          hs
    validate_pair-Ends (suc f) v p s h hs = ends_thrown

    -- Where references at one value fall in rank, the fuel for the depth of the value and the ranks is
    -- enough for a validation to end.
    pub validate_total :
        (f : ℕ) (v root : Var) (s : Validator Regex)
        → index_var s.schema (string (codes "root")) ≡ Access.ok (root, schema)
        → height v * suc top + rank root < f
        → validate posix lhs_first f v s ≢ out_of_fuel
    unfolding validate
    validate_total f v root s h enough =
        let t = record s { schema = schema; value_stack = []; props_stack = [] } in
        rw (h, validate)
          (Ends-ne schema (
            Ends-on_throw schema (at_root posix lhs_first)
              (validate_pair-Ends f v root t enough refl)))

    -- With that fuel and a cache of compiled expressions, a validation ends with acceptance of a value
    -- that conforms to the root, or with an exception for a value that does not conform, and a path
    -- from the value to a part of it; so it accepts exactly the values that conform.
    pub validate_iff :
        (f : ℕ) (v root : Var) (s : Validator Regex)
        → CacheOk posix schema s.regex_map
        → index_var s.schema (string (codes "root")) ≡ Access.ok (root, schema)
        → height v * suc top + rank root < f
        → ((t : Validator Regex) × (validate posix lhs_first f v s ≡ done t))
          ↔ Conforms posix schema v root
    validate_iff f v root s cache h enough =
        decided (validate posix lhs_first f v s) (validate_total f v root s h enough)
          (validate-Tells posix lhs_first schema f v root s cache h)

module _ {Regex : Type 0} (posix : Posix Regex) (lhs_first : Bool) where
  -- Where the first property of a schema is a reference to that schema, `validate_pair` does not end,
  -- for any fuel.
  pub validate_pair_circle :
      (f : ℕ) (v k p : Var) (ps : Pairs) (s : Validator Regex)
      → entry_of k ≡ reference
      → find_schema s.schema p ≡ Access.ok (some (dict (pair k p ps)))
      → validate_pair posix lhs_first f v (dict (pair k p ps)) s ≡ out_of_fuel
  unfolding validate_pair to_dict validate_properties validate_entry validate_reference
  validate_pair_circle zero v k p ps s e h = refl
  validate_pair_circle (suc f) v k p ps s e h =
      rw (e, validate_pair) (rw (h, validate_pair) (rw (validate_pair_circle f v k p ps s e h)))
