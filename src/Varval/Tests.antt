-- ===== src/Varval/Tests.antt =====
-- Runs of lib/cclvarval.cc, and its theorems at concrete schemas.
use cclib.Base.{
  List, Bytes, codes, length, bytes_eq, true, false, some, none, [], ◌∷◌, ◌≡◌, ◌≢◌, ◌↔◌, refl,
  arith,
}
use cclib.Base.Int.{pos}
use cclib.Str.Regex.{regex_c, is_match, Posix}
use cclib.Var.Value.{Var, Pairs, blank, integer, string, list, dict, nil, cons, none_left, pair}
use cclib.Var.Compare.{compare}
use cclib.Var.Dict.{lookup}
use cclib.Varval.Property.{entry_of, type_of_name, invalid_value}
use cclib.Var.Access.{index_var, to_dict, has_key, to_str}
use cclib.Varval.Simple.{value_size, passes}
use cclib.Varval.Object.{new_validator, destroy_validator}
use cclib.Varval.State.{Outcome, Validator, done, thrown, out_of_fuel}
use cclib.Varval.Validate.{find_schema, validate, validate_pair}
use cclib.Varval.Conforms.{Conforms}
use cclib.Varval.Path.{Leads}
use cclib.Varval.Height.{height}
use cclib.Varval.Correct.{validate-Tells}
use cclib.Varval.Terminates.{validate_total, validate_iff, validate_pair_circle}
use cclib.Varval.Ranks.{references, reference_rank, count_referring, count_referring-IsRanked}

-- Expressions that match nothing but themselves.
abbrev literal : Posix Bytes
literal = record {
  regcomp = λ s. some s;
  regexec = λ r s n. elim (bytes_eq r s) [
    | true ↦ some (record { rm_so = pos 0; rm_eo = pos (length s) } ∷ [])
    | false ↦ none
  ];
}

-- {"item":{"regex":"x"},"root":{"all-items":"item","size <":3,"type":"list"}}
abbrev sample_schema : Pairs
sample_schema =
    pair (string (codes "item"))
      (dict (pair (string (codes "regex")) (string (codes "x")) none_left))
      (pair (string (codes "root"))
        (dict (
          pair (string (codes "all-items")) (string (codes "item")) (
            pair (string (codes "size <")) (integer (pos 3))
              (pair (string (codes "type")) (string (codes "list")) none_left))))
        none_left)

abbrev sample_root : Var
sample_root = dict (
    pair (string (codes "all-items")) (string (codes "item")) (
      pair (string (codes "size <")) (integer (pos 3))
        (pair (string (codes "type")) (string (codes "list")) none_left)))

abbrev sample_validator : Validator Bytes
sample_validator = record {
  schema = dict sample_schema;
  regex_map = [];
  value_stack = blank ∷ [];
  props_stack = [];
}

abbrev good_list : Var
good_list = list (cons (string (codes "x")) (cons (string (codes "x")) nil))

abbrev bad_list : Var
bad_list = list (cons (string (codes "x")) (cons (string (codes "y")) nil))

-- The expression is compiled once and stays in the map.
validate-good_list :
    validate literal false 10 good_list sample_validator
    ≡ done (record sample_validator {
      regex_map = (codes "x", some (codes "x")) ∷ [];
      value_stack = [];
    })
unfolding validate compare lookup index_var to_dict has_key to_str regex_c is_match value_size
    passes type_of_name
validate-good_list = refl

validate-bad_list :
    validate literal false 10 bad_list sample_validator
    ≡ thrown invalid_value (record sample_validator {
      regex_map = (codes "x", some (codes "x")) ∷ [];
      value_stack = integer (pos 1) ∷ [];
      props_stack =
          string (codes "root")
          ∷ string (codes "all-items")
          ∷ integer (pos 1)
          ∷ string (codes "ref")
          ∷ string (codes "item")
          ∷ [];
    })
unfolding validate compare lookup index_var to_dict has_key to_str regex_c is_match
validate-bad_list = refl

validate-Tells_example :
    (¬ Conforms literal (dict sample_schema) bad_list sample_root)
    × Leads bad_list (integer (pos 1) ∷ [])
unfolding validate compare lookup index_var to_dict has_key to_str regex_c is_match
validate-Tells_example =
    validate-Tells literal false (dict sample_schema) 10 bad_list sample_root sample_validator tt
      refl

validate_total_example : validate literal false 10 good_list sample_validator ≢ out_of_fuel
unfolding compare lookup count_referring references entry_of index_var height
validate_total_example =
    validate_total literal false (dict sample_schema) reference_rank 1
      (count_referring-IsRanked sample_schema refl) 10 good_list sample_root sample_validator refl
      (omega arith)

validate_iff_example :
    ((t : Validator Bytes) × (validate literal false 10 good_list sample_validator ≡ done t))
    ↔ Conforms literal (dict sample_schema) good_list sample_root
unfolding compare lookup count_referring references entry_of index_var height
validate_iff_example =
    validate_iff literal false (dict sample_schema) reference_rank 1
      (count_referring-IsRanked sample_schema refl) 10 good_list sample_root sample_validator tt
      refl (omega arith)

-- {"root":{"ref":"root"}}
abbrev circle_schema : Pairs
circle_schema = pair (string (codes "ref")) (string (codes "root")) none_left

abbrev circle_validator : Validator Bytes
circle_validator = record {
  schema = dict (pair (string (codes "root")) (dict circle_schema) none_left);
  regex_map = [];
  value_stack = [];
  props_stack = [];
}

validate_pair_circle_example :
    validate_pair literal true 1000 blank (dict circle_schema) circle_validator ≡ out_of_fuel
unfolding find_schema has_key compare lookup entry_of
validate_pair_circle_example =
    validate_pair_circle literal true 1000 blank (string (codes "ref")) (string (codes "root"))
      none_left circle_validator refl refl

-- The expressions that are freed with a validator, the last one first.
abbrev freed : Outcome Bytes → List Bytes
unfolding destroy_validator
freed (done s) = destroy_validator (λ r w. r ∷ w) s []
freed o = []

-- An expression that two elements were matched with is compiled and freed once.
freed_once :
    freed (validate literal false 10 good_list (new_validator (dict sample_schema)))
    ≡ codes "x" ∷ []
unfolding new_validator destroy_validator validate index_var to_dict lookup compare has_key to_str
    regex_c is_match value_size passes type_of_name
freed_once = refl
