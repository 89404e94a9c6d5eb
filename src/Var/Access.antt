-- ===== src/Var/Access.antt =====
-- Reading variables: the conversions, `operator []`, `keys`, `has_idx` and `has_key` of
-- lib/cclvar.h and lib/cclvar.cc. A thrown error is a value, and an operation that may change the
-- container returns it.
pub mod Laws
use cclib.Base.{ℕ, zero, suc, Bool, true, false, Option, none, some, Bytes}
use cclib.Base.Int.{ℤ, pos, negsuc}
use cclib.Var.Value.{
  Var, Vars, Pairs, blank, bool, integer, float, string, array, set, list, dict, nil, cons,
  none_left, pair, type, push_back,
}
use cclib.Var.Dict.{lookup, assign}

-- error_VARIABLE_INVALID_TYPE_REQUESTED, error_INVALID_OPERATION_ON_VARIABLE and
-- error_ARRAY_INDEX_EXCEEDS_RANGE.
pub data Error : Type 0 where
  invalid_type_requested invalid_operation index_exceeds_range : Error

pub data Result {ℓ} (A : Type ℓ) : Type ℓ where
  ok : A → Result A
  err : Error → Result A

-- The conversions check the type.
unfoldable pub to_bool : Var → Result Bool
to_bool (bool b) = ok b
to_bool _ = err invalid_type_requested

unfoldable pub to_int : Var → Result ℤ
to_int (integer n) = ok n
to_int _ = err invalid_type_requested

unfoldable pub to_str : Var → Result Bytes
to_str (string s) = ok s
to_str _ = err invalid_type_requested

unfoldable pub to_array : Var → Result Vars
to_array (array xs) = ok xs
to_array _ = err invalid_type_requested

unfoldable pub to_dict : Var → Result Pairs
to_dict (dict ps) = ok ps
to_dict _ = err invalid_type_requested

abbrev pub nth : Vars → ℕ → Option Var
nth nil n = none
nth (cons x xs) zero = some x
nth (cons x xs) (suc n) = nth xs n

-- `vector::at` of an `int64_t`: a negative index is a huge `size_t`.
abbrev pub at : Vars → ℤ → Option Var
at xs (pos n) = nth xs n
at xs (negsuc n) = none

-- `(*dict)[key]`: a missing key is added with a blank value.
unfoldable pub dict_index : Var → Pairs → Var × Pairs
dict_index k ps = elim (lookup k ps) [ some v ↦ (v, ps) | none ↦ (blank, assign k blank ps) ]

array_index : Vars → ℤ → Result (Var × Var)
array_index xs i = elim (at xs i) [ none ↦ err index_exceeds_range | some x ↦ ok (x, array xs) ]

-- `operator [](int64_t)`: the element, and the variable afterwards.
unfoldable pub index_int : Var → ℤ → Result (Var × Var)
unfolding array_index dict_index
index_int (array xs) i = array_index xs i
index_int (dict ps) i = let (v, qs) = dict_index (integer i) ps in ok (v, dict qs)
index_int _ i = err invalid_operation

-- `operator [](const var_c &)`: the index of an array must be an integer.
unfoldable pub index_var : Var → Var → Result (Var × Var)
unfolding array_index dict_index to_int
index_var (array xs) k = elim (to_int k) [ err e ↦ err e | ok i ↦ array_index xs i ]
index_var (dict ps) k = let (v, qs) = dict_index k ps in ok (v, dict qs)
index_var _ k = err invalid_operation

keys_loop : Pairs → Vars → Vars
keys_loop none_left res_array = res_array
keys_loop (pair k v ps) res_array = keys_loop ps (push_back res_array k)

unfoldable pub keys : Var → Result Var
unfolding keys_loop
keys (dict ps) = ok (array (keys_loop ps nil))
keys _ = err invalid_operation

-- The answer, and `a_value` afterwards.
unfoldable pub has_idx : Var → ℤ → Var → Result (Bool × Var)
has_idx (array xs) i value = elim (at xs i) [ none ↦ ok (false, value) | some x ↦ ok (true, x) ]
has_idx _ i value = err invalid_operation

unfoldable pub has_key : Var → Var → Var → Result (Bool × Var)
has_key (dict ps) k value = elim (lookup k ps) [ none ↦ ok (false, value) | some v ↦ ok (true, v) ]
has_key _ k value = err invalid_operation
