-- ===== src/Varval/Property.antt =====
-- The properties of a schema, the tables of their names, and the errors of lib/cclvarval.h.
use cclib.Base.{ℕ, true, false, Option, none, some, List, [], ◌∷◌, Bytes, codes, bytes_eq}
use cclib.Str.Find.{is_prefix}
use cclib.Var.Value.{Var, string}
use cclib.Var.Access

pub data Property : Type 0 where
  prop_type prop_equal prop_not_equal prop_lesser prop_greater prop_lesser_equal : Property
  prop_greater_equal prop_size_equal prop_size_not_equal prop_size_lesser : Property
  prop_size_greater prop_size_lesser_equal prop_size_greater_equal prop_regex : Property
  prop_items prop_opt_items prop_all_keys prop_all_items : Property

-- The exceptions of the validator, of a variable's operations, and of a regular expression.
pub data Error : Type 0 where
  invalid_schema_reference invalid_schema_property invalid_schema_type : Error
  invalid_type invalid_value value_invalid_size array_invalid_size dict_missing_key : Error
  variable : Access.Error → Error
  invalid_expression_string : Error

-- `unordered_map::at` on a map that is listed; `none` is an exception.
unfoldable pub map_at {ℓ} : {A : Type ℓ} → List (Bytes × A) → Bytes → Option A
map_at [] k = none
map_at ((j, a) ∷ m) k = elim (bytes_eq j k) [ true ↦ some a | false ↦ map_at m k ]

abbrev pub c_type_map : List (Bytes × ℕ)
c_type_map =
    (codes "blank", 0)
    ∷ (codes "bool", 1)
    ∷ (codes "integer", 2)
    ∷ (codes "float", 3)
    ∷ (codes "string", 4)
    ∷ (codes "array", 5)
    ∷ (codes "set", 6)
    ∷ (codes "list", 7)
    ∷ (codes "dict", 8)
    ∷ []

abbrev pub c_prop_map : List (Bytes × Property)
c_prop_map =
    (codes "type", prop_type)
    ∷ (codes "==", prop_equal)
    ∷ (codes "!=", prop_not_equal)
    ∷ (codes "<", prop_lesser)
    ∷ (codes ">", prop_greater)
    ∷ (codes "<=", prop_lesser_equal)
    ∷ (codes ">=", prop_greater_equal)
    ∷ (codes "size ==", prop_size_equal)
    ∷ (codes "size !=", prop_size_not_equal)
    ∷ (codes "size <", prop_size_lesser)
    ∷ (codes "size >", prop_size_greater)
    ∷ (codes "size <=", prop_size_lesser_equal)
    ∷ (codes "size >=", prop_size_greater_equal)
    ∷ (codes "regex", prop_regex)
    ∷ (codes "items", prop_items)
    ∷ (codes "opt-items", prop_opt_items)
    ∷ (codes "all-keys", prop_all_keys)
    ∷ (codes "all-items", prop_all_items)
    ∷ []

-- What an entry of a schema's dictionary is, by its key: a key that is no string throws again in the
-- handler, and a name that begins with "ref" is a reference.
pub data Entry : Type 0 where
  property : Property → Entry
  reference unknown no_name : Entry

unfoldable pub entry_of : Var → Entry
unfolding map_at
entry_of (string name) = elim (map_at c_prop_map name) [
  | some p ↦ property p
  | none ↦ elim (is_prefix (codes "ref") name) [ true ↦ reference | false ↦ unknown ]
]
entry_of _ = no_name

unfoldable pub type_of_name : Var → Option ℕ
unfolding map_at
type_of_name (string name) = map_at c_type_map name
type_of_name _ = none
