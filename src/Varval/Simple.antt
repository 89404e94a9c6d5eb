-- ===== src/Varval/Simple.antt =====
-- The cases of `validate_pair` that test the value itself: type, comparisons and sizes.
use Prim.Native.Nat.{Ordering}
use cclib.Base.{ℕ, Bool, true, false, not, Option, none, some, length, ◌==◌}
use cclib.Base.Int.{pos}
use cclib.Var.Value.{Var, string, array, set, list, dict, type, size, pairs_size}
use cclib.Var.Compare.{compare, compare_ℤ}
use cclib.Var.Access
use cclib.Var.Access.{to_int}
use cclib.Varval.Property.{
  Property, Error, prop_equal, prop_not_equal, prop_lesser, prop_greater, prop_lesser_equal,
  prop_greater_equal, prop_size_equal, prop_size_not_equal, prop_size_lesser, prop_size_greater,
  prop_size_lesser_equal, prop_size_greater_equal, invalid_schema_type, invalid_type, invalid_value,
  value_invalid_size, variable, type_of_name,
}

-- The error that the case of `prop_type` throws.
unfoldable pub type_error : Var → Var → Option Error
type_error value prop = elim (type_of_name prop) [
  | none ↦ some invalid_schema_type
  | some t ↦ elim (type value == t) [ true ↦ none | false ↦ some invalid_type ]
]

abbrev pub is_lt : Ordering → Bool
is_lt Ordering.lt = true
is_lt _ = false

abbrev pub is_eq : Ordering → Bool
is_eq Ordering.eq = true
is_eq _ = false

abbrev pub is_gt : Ordering → Bool
is_gt Ordering.gt = true
is_gt _ = false

-- Whether a property lets a value pass that compares so with the property's value.
unfoldable pub passes : Property → Ordering → Bool
passes prop_equal o = is_eq o
passes prop_not_equal o = not (is_eq o)
passes prop_lesser o = is_lt o
passes prop_greater o = is_gt o
passes prop_lesser_equal o = not (is_gt o)
passes prop_greater_equal o = not (is_lt o)
passes prop_size_equal o = is_eq o
passes prop_size_not_equal o = not (is_eq o)
passes prop_size_lesser o = is_lt o
passes prop_size_greater o = is_gt o
passes prop_size_lesser_equal o = not (is_gt o)
passes prop_size_greater_equal o = not (is_lt o)
passes _ o = false

unfoldable pub compare_error : Property → Var → Var → Option Error
compare_error p value prop = elim (passes p (compare value prop)) [
  | true ↦ none
  | false ↦ some invalid_value
]

-- `value_size`; `none` is the `default` of the inner `switch`.
unfoldable pub value_size : Var → Option ℕ
value_size (string s) = some (length s)
value_size (array xs) = some (size xs)
value_size (set xs) = some (size xs)
value_size (list xs) = some (size xs)
value_size (dict ps) = some (pairs_size ps)
value_size _ = none

unfoldable pub size_error : Property → Var → Var → Option Error
size_error p value prop = elim (value_size value) [
  | none ↦ some invalid_type
  | some n ↦ elim (to_int prop) [
    | Access.err e ↦ some (variable e)
    | Access.ok m ↦ elim (passes p (compare_ℤ (pos n) m)) [
      | true ↦ none
      | false ↦ some value_invalid_size
    ]
  ]
]
