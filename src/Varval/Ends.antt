-- ===== src/Varval/Ends.antt =====
-- The parts of `validate_pair` of lib/cclvarval.cc end where the calls for the parts of a value do.
use cclib.Base.{
  ◌≢◌, ℕ, ◌+◌, ◌≤◌, ◌<◌, ◌≡◌, refl, arith, Option, none, some, Bytes, codes, true, false, Bool, inl,
  inr, Option-cases,
}
use cclib.Base.Int.{pos, negsuc}
use cclib.Str.Regex.{Posix, regex_c, is_match, Result, ok as compiled, err as refused}
use cclib.Var.Value.{
  Var, Vars, Pairs, integer, string, array, set, list, dict, nil, cons, none_left, pair,
}
use cclib.Var.Dict.{lookup}
use cclib.Var.Access
use cclib.Var.Access.{nth, at, to_int, to_str, to_dict, has_key}
use cclib.Varval.Property.{Error, invalid_value, map_at}
use cclib.Varval.State.{out_of_fuel, Validator, Outcome, done, thrown, fault, ◌and_then◌, on_throw}
use cclib.Varval.Validate.{
  push_ref, add_regex, Call, find_schema, follow, push_pair, verdict, match_value, compile,
  validate_text, validate_regex, validate_reference, validate_call, validate_indices,
  validate_entries, missing_key, validate_items, validate_opt_items, validate_keys,
  validate_all_keys, validate_elements, validate_values, validate_all_items,
}
use cclib.Varval.Height.{height, height_items, height_pairs, height-nth, height-lookup}

module _ {Regex : Type 0} (schema : Var) where
  -- The outcome is an end, with the schema as it was.
  pub data Ends : Outcome Regex → Type 0 where
    ends_done : {t : Validator Regex} → t.schema ≡ schema → Ends (done t)
    ends_thrown : {e : Error} {t : Validator Regex} → Ends (thrown e t)
    ends_fault : Ends fault

  pub Ends-ne : {o : Outcome Regex} → Ends o → o ≢ out_of_fuel
  Ends-ne (ends_done h) e = cc
  Ends-ne ends_thrown e = cc
  Ends-ne ends_fault e = cc

  pub Ends-and_then :
      {o : Outcome Regex} {k : Validator Regex → Outcome Regex}
      → Ends o
      → ((t : Validator Regex) → t.schema ≡ schema → Ends (k t))
      → Ends (o and_then k)
  Ends-and_then (ends_done {t = t} h) next = next t h
  Ends-and_then ends_thrown next = ends_thrown
  Ends-and_then ends_fault next = ends_fault

  pub Ends-on_throw :
      {o : Outcome Regex} (f : Validator Regex → Validator Regex) → Ends o → Ends (on_throw f o)
  Ends-on_throw f (ends_done h) = ends_done h
  Ends-on_throw f ends_thrown = ends_thrown
  Ends-on_throw f ends_fault = ends_fault

module _ {Regex : Type 0} (posix : Posix Regex) (lhs_first : Bool) (schema : Var) where
  pub verdict-Ends :
      (o : Option Error) (s : Validator Regex)
      → s.schema ≡ schema
      → Ends schema (verdict posix lhs_first o s)
  verdict-Ends none s hs = ends_done hs
  verdict-Ends (some e) s hs = ends_thrown

  match_value-Ends :
      (r : Regex) (text : Bytes) (s : Validator Regex)
      → s.schema ≡ schema
      → Ends schema (match_value posix lhs_first r text s)
  match_value-Ends r text s hs = answer (is_match posix r text)
    where
      answer : (b : Bool) → Ends schema (elim b [ true ↦ done s | false ↦ thrown invalid_value s ])
      answer true = ends_done hs
      answer false = ends_thrown

  pub follow-Ends :
      (call : Call posix lhs_first) (invalid : Validator Regex → Validator Regex) (v p : Var)
      (r : Access.Result (Option Var)) (s : Validator Regex)
      → ((ref : Var) → r ≡ Access.ok (some ref) → Ends schema (call v ref s))
      → Ends schema (follow posix lhs_first call invalid v p r s)
  follow-Ends call invalid v p (Access.err e) s next = ends_thrown
  follow-Ends call invalid v p (Access.ok none) s next = ends_thrown
  follow-Ends call invalid v p (Access.ok (some ref)) s next =
      Ends-on_throw schema (λ t. invalid (push_ref posix lhs_first p t)) (next ref refl)

  compile-Ends :
      (text key : Bytes) (o : Result Regex) (s : Validator Regex)
      → s.schema ≡ schema
      → Ends schema (compile posix lhs_first text key o s)
  compile-Ends text key (refused e) s hs = ends_thrown
  compile-Ends text key (compiled r) s hs =
      match_value-Ends r text (add_regex posix lhs_first key (some r) s) hs

  validate_text-Ends :
      (text key : Bytes) (s : Validator Regex)
      → s.schema ≡ schema
      → Ends schema (validate_text posix lhs_first text key s)
  unfolding validate_text
  validate_text-Ends text key s hs = elim (Option-cases (map_at s.regex_map key)) [
    | inl e ↦ rw (e, validate_text) (compile-Ends text key (regex_c posix key) s hs)
    | inr (none, e) ↦ rw (e, validate_text) ends_fault
    | inr (some r, e) ↦ rw (e, validate_text) (match_value-Ends r text s hs)
  ]

  pub validate_regex-Ends :
      (v p : Var) (s : Validator Regex)
      → s.schema ≡ schema
      → Ends schema (validate_regex posix lhs_first v p s)
  unfolding validate_regex to_str
  validate_regex-Ends (string text) (string key) s hs = validate_text-Ends text key s hs
  validate_regex-Ends (string text) p s hs = ends_thrown
  validate_regex-Ends v p s hs = ends_thrown

  module _ (call : Call posix lhs_first) (h : ℕ)
      (ends : (c p : Var) (s : Validator Regex)
        → height c < h
        → s.schema ≡ schema
        → Ends schema (call c p s)) where
    validate_call-Ends :
        (k : Var) (name : Bytes) (c p : Var) (s : Validator Regex)
        → height c < h
        → s.schema ≡ schema
        → Ends schema (validate_call posix lhs_first call (push_pair posix lhs_first k name) c p s)
    unfolding validate_call validate_reference
    validate_call-Ends k name c (string n) s hc hs =
        follow-Ends call (push_pair posix lhs_first k name) c (string n)
          (find_schema s.schema (string n)) s (λ ref e. ends c ref s hc hs)
    validate_call-Ends k name c p s hc hs =
        Ends-on_throw schema (push_pair posix lhs_first k name) (ends c p s hc hs)

    validate_elements-Ends :
        (p : Var) (position : ℕ) (xs : Vars) (s : Validator Regex)
        → height_items xs < h
        → s.schema ≡ schema
        → Ends schema (validate_elements posix lhs_first call p position xs s)
    unfolding validate_elements height_items
    validate_elements-Ends p position nil s hx hs = ends_done hs
    validate_elements-Ends p position (cons x xs) s hx hs =
        Ends-and_then schema
          (validate_call-Ends (integer (pos position)) (codes "all-items") x p s (omega arith) hs)
          (λ t ht. validate_elements-Ends p (position + 1) xs t (omega arith) ht)

    validate_keys-Ends :
        (p : Var) (ps : Pairs) (s : Validator Regex)
        → height_pairs ps < h
        → s.schema ≡ schema
        → Ends schema (validate_keys posix lhs_first call p ps s)
    unfolding validate_keys height_pairs
    validate_keys-Ends p none_left s hx hs = ends_done hs
    validate_keys-Ends p (pair k v ps) s hx hs =
        Ends-and_then schema (validate_call-Ends k (codes "all-keys") k p s (omega arith) hs)
          (λ t ht. validate_keys-Ends p ps t (omega arith) ht)

    validate_values-Ends :
        (p : Var) (ps : Pairs) (s : Validator Regex)
        → height_pairs ps < h
        → s.schema ≡ schema
        → Ends schema (validate_values posix lhs_first call p ps s)
    unfolding validate_values height_pairs
    validate_values-Ends p none_left s hx hs = ends_done hs
    validate_values-Ends p (pair k v ps) s hx hs =
        Ends-and_then schema (validate_call-Ends k (codes "all-items") v p s (omega arith) hs)
          (λ t ht. validate_values-Ends p ps t (omega arith) ht)

    validate_indices-Ends :
        (xs : Vars) (items : Pairs) (s : Validator Regex)
        → height_items xs < h
        → s.schema ≡ schema
        → Ends schema (validate_indices posix lhs_first call xs items s)
    unfolding validate_indices to_int
    validate_indices-Ends xs none_left s hx hs = ends_done hs
    validate_indices-Ends xs (pair (integer (pos n)) p items) s hx hs =
        elim (Option-cases (nth xs n)) [
          | inl e ↦ rw (e, validate_indices, to_int) ends_thrown
          | inr (c, e) ↦
              rw (e, validate_indices, to_int)
                (Ends-and_then schema
                  (validate_call-Ends (integer (pos n)) (codes "items") c p s
                    (omega (arith, height-nth xs n c e)) hs)
                  (λ t ht. validate_indices-Ends xs items t hx ht))
        ]
    validate_indices-Ends xs (pair (integer (negsuc n)) p items) s hx hs = ends_thrown
    validate_indices-Ends xs (pair k p items) s hx hs = ends_thrown

    validate_entries-Ends :
        (missing : Var → Validator Regex → Outcome Regex) (name : Bytes) (ps items : Pairs)
        (s : Validator Regex)
        → ((k : Var) (t : Validator Regex) → t.schema ≡ schema → Ends schema (missing k t))
        → height_pairs ps < h
        → s.schema ≡ schema
        → Ends schema (validate_entries posix lhs_first call missing name (dict ps) items s)
    unfolding validate_entries has_key
    validate_entries-Ends missing name ps none_left s hm hx hs = ends_done hs
    validate_entries-Ends missing name ps (pair k p items) s hm hx hs =
        elim (Option-cases (lookup k ps)) [
          | inl e ↦
              rw (e, validate_entries, has_key)
                (Ends-and_then schema (hm k s hs)
                  (λ t ht. validate_entries-Ends missing name ps items t hm hx ht))
          | inr (c, e) ↦
              rw (e, validate_entries, has_key)
                (Ends-and_then schema
                  (validate_call-Ends k name c p s (omega (arith, height-lookup ps k c e)) hs)
                  (λ t ht. validate_entries-Ends missing name ps items t hm hx ht))
        ]

    pub validate_items-Ends :
        (v p : Var) (s : Validator Regex)
        → height v ≤ h
        → s.schema ≡ schema
        → Ends schema (validate_items posix lhs_first call v p s)
    unfolding validate_items to_dict height missing_key
    validate_items-Ends (array xs) (dict items) s hv hs =
        validate_indices-Ends xs items s (omega arith) hs
    validate_items-Ends (array xs) p s hv hs = ends_thrown
    validate_items-Ends (dict ps) (dict items) s hv hs =
        validate_entries-Ends (missing_key posix lhs_first call) (codes "items") ps items s
          (λ k t ht. ends_thrown) (omega arith) hs
    validate_items-Ends (dict ps) p s hv hs = ends_thrown
    validate_items-Ends v p s hv hs = ends_thrown

    pub validate_opt_items-Ends :
        (v p : Var) (s : Validator Regex)
        → height v ≤ h
        → s.schema ≡ schema
        → Ends schema (validate_opt_items posix lhs_first call v p s)
    unfolding validate_opt_items to_dict height
    validate_opt_items-Ends (dict ps) (dict items) s hv hs =
        validate_entries-Ends (λ k t. done t) (codes "opt-items") ps items s
          (λ k t ht. ends_done ht) (omega arith) hs
    validate_opt_items-Ends (dict ps) p s hv hs = ends_thrown
    validate_opt_items-Ends v p s hv hs = ends_thrown

    pub validate_all_keys-Ends :
        (v p : Var) (s : Validator Regex)
        → height v ≤ h
        → s.schema ≡ schema
        → Ends schema (validate_all_keys posix lhs_first call v p s)
    unfolding validate_all_keys height
    validate_all_keys-Ends (dict ps) p s hv hs = validate_keys-Ends p ps s (omega arith) hs
    validate_all_keys-Ends v p s hv hs = ends_thrown

    pub validate_all_items-Ends :
        (v p : Var) (s : Validator Regex)
        → height v ≤ h
        → s.schema ≡ schema
        → Ends schema (validate_all_items posix lhs_first call v p s)
    unfolding validate_all_items height
    validate_all_items-Ends (array xs) p s hv hs = validate_elements-Ends p 0 xs s (omega arith) hs
    validate_all_items-Ends (set xs) p s hv hs = validate_elements-Ends p 0 xs s (omega arith) hs
    validate_all_items-Ends (list xs) p s hv hs = validate_elements-Ends p 0 xs s (omega arith) hs
    validate_all_items-Ends (dict ps) p s hv hs = validate_values-Ends p ps s (omega arith) hs
    validate_all_items-Ends v p s hv hs = ends_thrown
