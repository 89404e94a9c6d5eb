-- ===== src/Var/Tests.antt =====
-- The theorems on lib/cclvar.cc at concrete variables.
use Prim.Native.Nat.{Ordering}
use cclib.Json.Escape.{show_int}
use cclib.Str.Split.{join}
use cclib.Var.Print.{show, to_string, show-Prints}
use cclib.Var.Access
use cclib.Base.{Bytes, ℕ, ◌≡◌, ◌≢◌, ◌⊎◌, refl, true, false, none, some, codes, ◌++◌, ◌∷◌, []}
use cclib.Base.Int.{pos}
use cclib.Var.Value.{
  Var, Vars, Pairs, blank, integer, float, string, array, dict, nil, cons, none_left, pair, size,
  pairs_size, list,
}
use cclib.Var.Compare.{compare, is_nan}
use cclib.Var.Compare.Order.{Chain, flip}
use cclib.Var.Compare.Total.{NoNan, NoNanPairs, compare-flip, compare-Chain}
use cclib.Var.Dict.{lookup, assign}
use cclib.Var.Dict.Laws.{Ascending, assign-Ascending, lookup-assign}
use cclib.Var.Copy.{copy, copy_same}
use cclib.Var.Access.{
  ok, err, index_exceeds_range, index_int, index_var, keys, has_idx, has_key, nth,
}
use cclib.Var.Access.Laws.{InRange, index-array, index-dict, nth_pair, keys-has_key}

abbrev one : Var
one = integer (pos 1)

abbrev two : Var
two = integer (pos 2)

abbrev numbers : Var
numbers = array (cons one (cons (float 0x4000_0000_0000_0000) nil))

abbrev entries : Pairs
entries = pair one (string (codes "x")) (pair (string (codes "k")) numbers none_left)

compare-flip_example : compare numbers two ≡ flip (compare two numbers)
compare-flip_example = compare-flip two numbers

numbers-NoNan : NoNan numbers
unfolding is_nan
numbers-NoNan = (tt, (refl, tt))

compare-Chain_example : Chain (compare numbers numbers) (compare numbers two) (compare numbers two)
compare-Chain_example = compare-Chain numbers numbers two numbers-NoNan numbers-NoNan tt

nan_is_nan : is_nan 0x7ff8_0000_0000_0000 ≡ true
unfolding is_nan
nan_is_nan = refl

entries-Ascending : Ascending entries
unfolding compare
entries-Ascending = ((refl, tt), (tt, tt))

entries-NoNan : NoNanPairs entries
entries-NoNan = (tt, tt, (tt, numbers-NoNan, tt))

assign-Ascending_example : Ascending (assign two blank entries)
assign-Ascending_example = assign-Ascending two blank entries tt entries-NoNan entries-Ascending

lookup-assign_example : lookup one (assign two blank entries) ≡ elim (compare one two) [
  | Ordering.lt ↦ lookup one entries
  | Ordering.eq ↦ some blank
  | Ordering.gt ↦ lookup one entries
]
lookup-assign_example = lookup-assign one two blank entries tt tt entries-NoNan

copy_same_example : copy (dict entries) ≡ dict entries
copy_same_example = copy_same (dict entries) (entries-Ascending, (tt, tt, (tt, (tt, (tt, tt)), tt)))

index-array_example :
    (InRange (pos 1) (cons one (cons two nil))
      × ((x : Var) × (index_int (array (cons one (cons two nil))) (pos 1)
            ≡ ok (x, array (cons one (cons two nil))))
          × (index_var (array (cons one (cons two nil))) (integer (pos 1))
              ≡ ok (x, array (cons one (cons two nil))))
          × (has_idx (array (cons one (cons two nil))) (pos 1) blank ≡ ok (true, x))))
    ⊎ ((¬ InRange (pos 1) (cons one (cons two nil)))
        × (index_int (array (cons one (cons two nil))) (pos 1) ≡ err index_exceeds_range)
        × (index_var (array (cons one (cons two nil))) (integer (pos 1)) ≡ err index_exceeds_range)
        × (has_idx (array (cons one (cons two nil))) (pos 1) blank ≡ ok (false, blank)))
index-array_example = index-array (cons one (cons two nil)) (pos 1) blank

index-dict_example :
    (v : Var) × (qs : Pairs) × (index_var (dict entries) two ≡ ok (v, dict qs))
    × ((value : Var) → has_key (dict qs) two value ≡ ok (true, v))
    × ((lookup two entries ≡ some v) ⊎ ((lookup two entries ≡ none) × (v ≡ blank)))
    × ((j : Var) → NoNan j → compare j two ≢ Ordering.eq → lookup j qs ≡ lookup j entries)
index-dict_example = index-dict two entries tt entries-NoNan

keys-has_key_example :
    (ks : Vars) × (keys (dict entries) ≡ ok (array ks))
    × (size ks ≡ pairs_size entries)
    × ((n : ℕ) (k : Var)
        → nth ks n ≡ some k
        → (v : Var) × (nth_pair entries n ≡ some (k, v))
          × ((value : Var) → has_key (dict entries) k value ≡ ok (true, v)))
keys-has_key_example = keys-has_key entries entries-Ascending

-- A stream that writes every `double` as one half.
abbrev half_text : ℕ → Bytes
half_text d = codes "0.500000"

abbrev printed_list : Var
printed_list = list (cons (integer (pos 1)) (cons (array nil) (cons (string (codes "a")) nil)))

show-printed_list : show half_text printed_list ≡ codes "[1,[],a]"
unfolding show show_int
show-printed_list = refl

show-Prints_example :
    (show half_text printed_list
      ≡ codes "[" ++ join (codes "1" ∷ codes "[]" ∷ codes "a" ∷ []) (codes ",") ++ codes "]")
    × (to_string half_text (codes "; ") printed_list
        ≡ Access.ok (join (codes "1" ∷ codes "[]" ∷ codes "a" ∷ []) (codes "; ")))
unfolding show show_int
show-Prints_example = show-Prints half_text (codes "; ") printed_list
