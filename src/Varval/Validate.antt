-- ===== src/Varval/Validate.antt =====
-- `validate_pair` and `validate` of lib/cclvarval.cc. A call of `validate_pair` for a part takes a
-- unit of fuel; the loops take the call as an argument.
use cclib.Base.{
  ℕ, zero, suc, ◌+◌, Bool, true, false, Option, none, some, [], ◌∷◌, Bytes, codes, if◌then◌else◌,
}
use mathlib.Core.List.{reverse}
use cclib.Base.Int.{pos}
use cclib.Str.Regex.{Result as Compiled, ok as compiled, err as refused, Posix, regex_c, is_match}
use cclib.Var.Value.{
  Var, Vars, Pairs, blank, integer, string, array, set, list, dict, nil, cons, none_left, pair,
}
use cclib.Var.Access
use cclib.Var.Access.{to_int, to_str, to_dict, at, has_key, index_var}
use cclib.Varval.Property.{
  Entry, Property, Error, prop_type, prop_equal, prop_not_equal, prop_lesser, prop_greater,
  prop_lesser_equal, prop_greater_equal, prop_regex, prop_items, prop_opt_items, prop_all_keys,
  prop_all_items, invalid_schema_reference, invalid_schema_property, invalid_type, invalid_value,
  array_invalid_size, dict_missing_key, variable, invalid_expression_string, map_at, property,
  reference, unknown, no_name, entry_of,
}
use cclib.Varval.State.{
  Validator, Outcome, done, thrown, fault, out_of_fuel, ◌and_then◌, on_throw, push_value,
  push_props,
}
use cclib.Varval.Simple.{type_error, compare_error, size_error}

-- The schema's entry of the name, where `m_schema.has_key` finds it.
unfoldable pub find_schema : Var → Var → Access.Result (Option Var)
find_schema schema (string name) = elim (has_key schema (string name) blank) [
  | Access.err e ↦ Access.err e
  | Access.ok (true, ref) ↦ Access.ok (some ref)
  | Access.ok (false, ref) ↦ Access.ok none
]
find_schema schema _ = Access.ok none

-- `lhs_first` says in which order the compiler evaluates the two sides of the assignment to
-- `m_regex_map[…]`, which C++11 leaves open.
module _ {Regex : Type 0} (posix : Posix Regex) (lhs_first : Bool) where
  abbrev pub Call : Type 0
  Call = Var → Var → Validator Regex → Outcome Regex

  -- What INVALID_CODE pushes for the key and the name of the property.
  abbrev pub push_pair : Var → Bytes → Validator Regex → Validator Regex
  push_pair k name s = push_props (string name) (push_props k (push_value k s))

  abbrev pub push_ref : Var → Validator Regex → Validator Regex
  push_ref props_ref s = push_props (string (codes "ref")) (push_props props_ref s)

  -- VALIDATE_PAIR_REFERENCE, with what the schema has under the name.
  abbrev pub follow :
      Call
      → (Validator Regex → Validator Regex)
      → Var
      → Var
      → Access.Result (Option Var)
      → Validator Regex
      → Outcome Regex
  follow call invalid value props_ref (Access.err e) s = thrown (variable e) s
  follow call invalid value props_ref (Access.ok none) s =
      thrown invalid_schema_reference (invalid (push_ref props_ref s))
  follow call invalid value props_ref (Access.ok (some ref)) s =
      on_throw (λ t. invalid (push_ref props_ref t)) (call value ref s)

  -- VALIDATE_PAIR_REFERENCE.
  unfoldable pub validate_reference : Call → (Validator Regex → Validator Regex) → Call
  unfolding find_schema
  validate_reference call invalid value props_ref s =
      follow call invalid value props_ref (find_schema s.schema props_ref) s

  -- VALIDATE_PAIR_CALL.
  unfoldable pub validate_call : Call → (Validator Regex → Validator Regex) → Call
  unfolding validate_reference
  validate_call call invalid value (string name) s =
      validate_reference call invalid value (string name) s
  validate_call call invalid value props_ref s = on_throw invalid (call value props_ref s)

  abbrev pub verdict : Option Error → Validator Regex → Outcome Regex
  verdict none s = done s
  verdict (some e) s = thrown e s

  abbrev pub add_regex : Bytes → Option Regex → Validator Regex → Validator Regex
  add_regex k r s = record s { regex_map = (k, r) ∷ s.regex_map }

  abbrev pub match_value : Regex → Bytes → Validator Regex → Outcome Regex
  match_value r text s = elim (is_match posix r text) [
    | true ↦ done s
    | false ↦ thrown invalid_value s
  ]

  -- An expression that is not in the map is compiled.
  abbrev pub compile : Bytes → Bytes → Compiled Regex → Validator Regex → Outcome Regex
  compile text key (refused e) s =
      thrown invalid_expression_string (if lhs_first then add_regex key none s else s)
  compile text key (compiled r) s = match_value r text (add_regex key (some r) s)

  -- The look-up in `m_regex_map`.
  unfoldable pub validate_text : Bytes → Bytes → Validator Regex → Outcome Regex
  unfolding map_at
  validate_text text key s = elim (map_at s.regex_map key) [
    | some none ↦ fault
    | some (some r) ↦ match_value r text s
    | none ↦ compile text key (regex_c posix key) s
  ]

  -- The case of `prop_regex`.
  unfoldable pub validate_regex : Call
  unfolding validate_text
  validate_regex (string text) prop s = elim (to_str prop) [
    | Access.err e ↦ thrown (variable e) s
    | Access.ok key ↦ validate_text text key s
  ]
  validate_regex _ prop s = thrown invalid_type s

  module _ (call : Call) where
    -- The loop over the indices of an array, in the case of `prop_items`.
    unfoldable pub validate_indices : Vars → Pairs → Validator Regex → Outcome Regex
    unfolding validate_call
    validate_indices xs none_left s = done s
    validate_indices xs (pair k props items) s = elim (to_int k) [
      | Access.err e ↦ thrown (variable e) s
      | Access.ok index ↦ elim (at xs index) [
        | none ↦ thrown array_invalid_size (push_pair k (codes "items") s)
        | some v ↦
            validate_call call (push_pair k (codes "items")) v props s
            and_then validate_indices xs items
      ]
    ]

    -- The loop over the keys of a dictionary, in the cases of `prop_items` and `prop_opt_items`;
    -- `missing` is what a missing key leads to.
    unfoldable pub validate_entries :
        (Var → Validator Regex → Outcome Regex)
        → Bytes
        → Var
        → Pairs
        → Validator Regex
        → Outcome Regex
    unfolding validate_call
    validate_entries missing name value none_left s = done s
    validate_entries missing name value (pair k props items) s = elim (has_key value k blank) [
      | Access.err e ↦ thrown (variable e) s
      | Access.ok (false, v) ↦ missing k s and_then validate_entries missing name value items
      | Access.ok (true, v) ↦
          validate_call call (push_pair k name) v props s
          and_then validate_entries missing name value items
    ]

    unfoldable pub missing_key : Var → Validator Regex → Outcome Regex
    missing_key k s = thrown dict_missing_key (push_pair k (codes "items") s)

    unfoldable pub validate_items : Call
    unfolding validate_indices validate_entries missing_key
    validate_items (array xs) prop s = elim (to_dict prop) [
      | Access.err e ↦ thrown (variable e) s
      | Access.ok items ↦ validate_indices xs items s
    ]
    validate_items (dict ps) prop s = elim (to_dict prop) [
      | Access.err e ↦ thrown (variable e) s
      | Access.ok items ↦ validate_entries missing_key (codes "items") (dict ps) items s
    ]
    validate_items _ prop s = thrown invalid_type s

    unfoldable pub validate_opt_items : Call
    unfolding validate_entries
    validate_opt_items (dict ps) prop s = elim (to_dict prop) [
      | Access.err e ↦ thrown (variable e) s
      | Access.ok items ↦ validate_entries (λ k t. done t) (codes "opt-items") (dict ps) items s
    ]
    validate_opt_items _ prop s = thrown invalid_type s

    -- The loop over the keys.
    unfoldable pub validate_keys : Var → Pairs → Validator Regex → Outcome Regex
    unfolding validate_call
    validate_keys prop none_left s = done s
    validate_keys prop (pair k v ps) s =
        validate_call call (push_pair k (codes "all-keys")) k prop s and_then validate_keys prop ps

    unfoldable pub validate_all_keys : Call
    unfolding validate_keys
    validate_all_keys (dict ps) prop s = validate_keys prop ps s
    validate_all_keys _ prop s = thrown invalid_type s

    -- The loop over the elements of an array, a set or a list, with the position.
    unfoldable pub validate_elements : Var → ℕ → Vars → Validator Regex → Outcome Regex
    unfolding validate_call
    validate_elements prop position nil s = done s
    validate_elements prop position (cons x xs) s =
        validate_call call (push_pair (integer (pos position)) (codes "all-items")) x prop s
        and_then validate_elements prop (position + 1) xs

    -- The loop over the entries.
    unfoldable pub validate_values : Var → Pairs → Validator Regex → Outcome Regex
    unfolding validate_call
    validate_values prop none_left s = done s
    validate_values prop (pair k v ps) s =
        validate_call call (push_pair k (codes "all-items")) v prop s
        and_then validate_values prop ps

    unfoldable pub validate_all_items : Call
    unfolding validate_elements validate_values
    validate_all_items (array xs) prop s = validate_elements prop 0 xs s
    validate_all_items (set xs) prop s = validate_elements prop 0 xs s
    validate_all_items (list xs) prop s = validate_elements prop 0 xs s
    validate_all_items (dict ps) prop s = validate_values prop ps s
    validate_all_items _ prop s = thrown invalid_type s

    -- The `switch` on the property.
    unfoldable pub validate_property : Property → Call
    unfolding type_error compare_error size_error validate_regex validate_items validate_opt_items
        validate_all_keys validate_all_items
    validate_property prop_type value prop s = verdict (type_error value prop) s
    validate_property prop_equal value prop s = verdict (compare_error prop_equal value prop) s
    validate_property prop_not_equal value prop s =
        verdict (compare_error prop_not_equal value prop) s
    validate_property prop_lesser value prop s = verdict (compare_error prop_lesser value prop) s
    validate_property prop_greater value prop s = verdict (compare_error prop_greater value prop) s
    validate_property prop_lesser_equal value prop s =
        verdict (compare_error prop_lesser_equal value prop) s
    validate_property prop_greater_equal value prop s =
        verdict (compare_error prop_greater_equal value prop) s
    validate_property prop_regex value prop s = validate_regex value prop s
    validate_property prop_items value prop s = validate_items value prop s
    validate_property prop_opt_items value prop s = validate_opt_items value prop s
    validate_property prop_all_keys value prop s = validate_all_keys value prop s
    validate_property prop_all_items value prop s = validate_all_items value prop s
    validate_property size value prop s = verdict (size_error size value prop) s

    abbrev pub by_entry : Var → Var → Var → Entry → Validator Regex → Outcome Regex
    by_entry value k prop (property p) s = validate_property p value prop s
    by_entry value k prop reference s = validate_reference call (λ t. t) value prop s
    by_entry value k prop unknown s = thrown invalid_schema_property (push_props k s)
    by_entry value k prop no_name s = thrown (variable Access.invalid_type_requested) s

    -- The body of the loop over the properties.
    unfoldable pub validate_entry : Var → Var → Var → Validator Regex → Outcome Regex
    unfolding validate_property validate_reference entry_of
    validate_entry value k prop s = by_entry value k prop (entry_of k) s

    -- The loop over the properties.
    unfoldable pub validate_properties : Var → Pairs → Validator Regex → Outcome Regex
    unfolding validate_entry
    validate_properties value none_left s = done s
    validate_properties value (pair k prop ps) s =
        validate_entry value k prop s and_then validate_properties value ps

  unfoldable pub validate_pair : ℕ → Call
  unfolding validate_properties
  validate_pair zero value props s = out_of_fuel
  validate_pair (suc fuel) value props s = elim (to_dict props) [
    | Access.err e ↦ thrown (variable e) s
    | Access.ok ps ↦ validate_properties (validate_pair fuel) value ps s
  ]

  -- What the handler of `validate` does.
  abbrev pub at_root : Validator Regex → Validator Regex
  at_root s =
      let t = push_props (string (codes "root")) s in
      record t { value_stack = reverse t.value_stack; props_stack = reverse t.props_stack }

  -- `operator []` adds a missing root to the schema.
  unfoldable pub validate : ℕ → Var → Validator Regex → Outcome Regex
  unfolding validate_pair
  validate fuel value s =
      let t = record s { value_stack = []; props_stack = [] } in
      elim (index_var s.schema (string (codes "root"))) [
        | Access.err e ↦ thrown (variable e) (at_root t)
        | Access.ok (root, schema) ↦
            on_throw at_root (validate_pair fuel value root (record t { schema = schema }))
      ]
