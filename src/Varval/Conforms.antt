-- ===== src/Varval/Conforms.antt =====
-- What a schema of lib/cclvarval.cc says of a value, as an inductive relation: no stacks, no order of
-- the checks, and no bound on the depth. A circle of references has no derivation.
use Prim.Native.Nat.{Ordering}
use cclib.Base.{ℕ, ◌≡◌, ◌≢◌, true, Option, none, some, Bytes}
use cclib.Base.Int.{ℤ, pos}
use cclib.Str.Regex.{Posix, regex_c, is_match, ok as compiled}
use cclib.Var.Value.{
  Var, Vars, Pairs, integer, string, array, set, list, dict, nil, cons, none_left, pair, type,
}
use cclib.Var.Compare.{compare, compare_ℤ}
use cclib.Var.Dict.{lookup}
use cclib.Var.Access
use cclib.Var.Access.{at}
use cclib.Varval.Property.{
  Property, prop_type, prop_equal, prop_not_equal, prop_lesser, prop_greater, prop_lesser_equal,
  prop_greater_equal, prop_size_equal, prop_size_not_equal, prop_size_lesser, prop_size_greater,
  prop_size_lesser_equal, prop_size_greater_equal, prop_regex, prop_items, prop_opt_items,
  prop_all_keys, prop_all_items, property, reference, entry_of, type_of_name,
}
use cclib.Varval.Simple.{value_size}
use cclib.Varval.Validate.{find_schema}

-- What a comparison has to give.
abbrev pub Compares : Property → Ordering → Type 0
Compares prop_equal o = o ≡ Ordering.eq
Compares prop_not_equal o = o ≢ Ordering.eq
Compares prop_lesser o = o ≡ Ordering.lt
Compares prop_greater o = o ≡ Ordering.gt
Compares prop_lesser_equal o = o ≢ Ordering.gt
Compares prop_greater_equal o = o ≢ Ordering.lt
Compares prop_size_equal o = o ≡ Ordering.eq
Compares prop_size_not_equal o = o ≢ Ordering.eq
Compares prop_size_lesser o = o ≡ Ordering.lt
Compares prop_size_greater o = o ≡ Ordering.gt
Compares prop_size_lesser_equal o = o ≢ Ordering.gt
Compares prop_size_greater_equal o = o ≢ Ordering.lt
Compares _ o = ⊥

-- The size of the value compares so with the integer of the property.
abbrev pub Sizes : Property → Var → Var → Type 0
Sizes i v p =
    (n : ℕ) × (m : ℤ) × (value_size v ≡ some n) × (p ≡ integer m) × Compares i (compare_ℤ (pos n) m)

-- The values that a property picks, each with the schema that it has to meet; `none` where the value
-- has a type that the property is not for, or lacks a part.
abbrev pub pick : (Var → Option Var) → Pairs → Option Pairs
pick part none_left = some none_left
pick part (pair k p items) = elim (part k) [
  | none ↦ none
  | some v ↦ elim (pick part items) [ none ↦ none | some qs ↦ some (pair v p qs) ]
]

abbrev pub pick_present : (Var → Option Var) → Pairs → Pairs
pick_present part none_left = none_left
pick_present part (pair k p items) = elim (part k) [
  | none ↦ pick_present part items
  | some v ↦ pair v p (pick_present part items)
]

abbrev pub element : Vars → Var → Option Var
element xs (integer n) = at xs n
element xs _ = none

abbrev pub each_key : Var → Pairs → Pairs
each_key p none_left = none_left
each_key p (pair k v ps) = pair k p (each_key p ps)

abbrev pub each_value : Var → Pairs → Pairs
each_value p none_left = none_left
each_value p (pair k v ps) = pair v p (each_value p ps)

abbrev pub each_element : Var → Vars → Pairs
each_element p nil = none_left
each_element p (cons x xs) = pair x p (each_element p xs)

unfoldable pub parts_of : Property → Var → Var → Option Pairs
parts_of prop_items (array xs) (dict items) = pick (element xs) items
parts_of prop_items (dict ps) (dict items) = pick (λ k. lookup k ps) items
parts_of prop_opt_items (dict ps) (dict items) = some (pick_present (λ k. lookup k ps) items)
parts_of prop_all_keys (dict ps) p = some (each_key p ps)
parts_of prop_all_items (array xs) p = some (each_element p xs)
parts_of prop_all_items (set xs) p = some (each_element p xs)
parts_of prop_all_items (list xs) p = some (each_element p xs)
parts_of prop_all_items (dict ps) p = some (each_value p ps)
parts_of _ v p = none

module _ {Regex : Type 0} (posix : Posix Regex) (schema : Var) where
  -- The properties of the value itself.
  abbrev pub Tests : Property → Var → Var → Type 0
  Tests prop_type v p = type_of_name p ≡ some (type v)
  Tests prop_equal v p = Compares prop_equal (compare v p)
  Tests prop_not_equal v p = Compares prop_not_equal (compare v p)
  Tests prop_lesser v p = Compares prop_lesser (compare v p)
  Tests prop_greater v p = Compares prop_greater (compare v p)
  Tests prop_lesser_equal v p = Compares prop_lesser_equal (compare v p)
  Tests prop_greater_equal v p = Compares prop_greater_equal (compare v p)
  Tests prop_regex v p =
      (text : Bytes) × (key : Bytes) × (r : Regex) × (v ≡ string text)
      × (p ≡ string key)
      × (regex_c posix key ≡ compiled r)
      × (is_match posix r text ≡ true)
  Tests prop_items v p = ⊥
  Tests prop_opt_items v p = ⊥
  Tests prop_all_keys v p = ⊥
  Tests prop_all_items v p = ⊥
  Tests i v p = Sizes i v p

  mutual
    pub data Conforms : Var → Var → Type 0 where
      conforms : {v : Var} {ps : Pairs} → Meets v ps → Conforms v (dict ps)

    -- All properties hold.
    pub data Meets : Var → Pairs → Type 0 where
      meets_none : {v : Var} → Meets v none_left
      meets : {v k p : Var} {ps : Pairs} → Satisfies v k p → Meets v ps → Meets v (pair k p ps)

    pub data Satisfies : Var → Var → Var → Type 0 where
      tested :
          {v k p : Var} {i : Property} → entry_of k ≡ property i → Tests i v p → Satisfies v k p
      referred :
          {v k p ref : Var}
          → entry_of k ≡ reference
          → find_schema schema p ≡ Access.ok (some ref)
          → Conforms v ref
          → Satisfies v k p
      picked :
          {v k p : Var} {i : Property} {qs : Pairs}
          → entry_of k ≡ property i
          → parts_of i v p ≡ some qs
          → AllFit qs
          → Satisfies v k p

    -- Each value with its schema.
    pub data AllFit : Pairs → Type 0 where
      fit_none : AllFit none_left
      fit : {v p : Var} {qs : Pairs} → Fits v p → AllFit qs → AllFit (pair v p qs)

    -- A schema that is a string is a name.
    pub data Fits : Var → Var → Type 0 where
      direct : {v p : Var} → type p ≢ 4 → Conforms v p → Fits v p
      named :
          {v p ref : Var}
          → type p ≡ 4
          → find_schema schema p ≡ Access.ok (some ref)
          → Conforms v ref
          → Fits v p
