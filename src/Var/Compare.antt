-- ===== src/Var/Compare.antt =====
-- `loc_c::compare` and `loc_c::compare_value`. Of the returned `int` only the sign is kept, as an
-- `Ordering`.
pub mod Order
pub mod Total
use Prim.Native.Nat.{compare as compare_ℕ, Ordering}
use cclib.Base.{
  ℕ, ◌+◌, ◌*◌, ◌^◌, ◌/◌, ◌%◌, Bool, true, false, ◌||◌, [], ◌∷◌, Bytes, ltb, ◌==◌, if◌then◌else◌,
}
use cclib.Base.Int.{ℤ, pos_part, neg_part}
use cclib.Var.Value.{
  Var, Vars, Pairs, blank, bool, integer, float, string, array, set, list, dict, nil, cons,
  none_left, pair, type, size, pairs_size,
}

-- The second comparison, where the first finds no difference.
abbrev pub then_by : Ordering → Ordering → Ordering
then_by Ordering.lt o = Ordering.lt
then_by Ordering.eq o = o
then_by Ordering.gt o = Ordering.gt

abbrev pub bool_value : Bool → ℕ
bool_value true = 1
bool_value false = 0

-- `first < second ? -1 : (first > second ? 1 : 0)` on `int64_t`.
abbrev pub compare_ℤ : ℤ → ℤ → Ordering
compare_ℤ a b = compare_ℕ (pos_part a + neg_part b) (pos_part b + neg_part a)

-- The 64 bits of a `double`, as IEEE 754 reads them: the sign and the magnitude, whose order is
-- that of the numbers, and the magnitudes above infinity, which are no numbers.
abbrev magnitude : ℕ → ℕ
magnitude d = d % 2 ^ 63

abbrev sign : ℕ → ℕ
sign d = d / 2 ^ 63

unfoldable pub is_nan : ℕ → Bool
is_nan d = ltb (2047 * 2 ^ 52) (magnitude d)

unfoldable pub positive : ℕ → ℕ
positive d = if sign d == 0 then magnitude d else 0

unfoldable pub negative : ℕ → ℕ
negative d = if sign d == 0 then 0 else magnitude d

-- `<` on `double`.
unfoldable pub ltb_double : ℕ → ℕ → Bool
unfolding is_nan positive negative
ltb_double a b =
    if is_nan a || is_nan b then false else ltb (positive a + negative b) (positive b + negative a)

unfoldable pub compare_double : ℕ → ℕ → Ordering
unfolding ltb_double
compare_double a b =
    if ltb_double a b then Ordering.lt else if ltb_double b a then Ordering.gt else Ordering.eq

-- `std::string::compare`: bytes as unsigned, then the lengths.
unfoldable pub compare_string : Bytes → Bytes → Ordering
compare_string [] [] = Ordering.eq
compare_string [] (b ∷ t) = Ordering.lt
compare_string (a ∷ s) [] = Ordering.gt
compare_string (a ∷ s) (b ∷ t) = then_by (compare_ℕ a b) (compare_string s t)

-- Two values of one type are compared by `compare_value`, others by their types. The loops over
-- elements run to the end of the first container; the sizes were compared before.
unfoldable mutual
  unfolding compare_double compare_string

  pub compare : Var → Var → Ordering
  compare blank blank = Ordering.eq
  compare (bool a) (bool b) = compare_ℕ (bool_value a) (bool_value b)
  compare (integer a) (integer b) = compare_ℤ a b
  compare (float a) (float b) = compare_double a b
  compare (string a) (string b) = compare_string a b
  compare (array xs) (array ys) = then_by (compare_ℕ (size xs) (size ys)) (compare_items xs ys)
  compare (list xs) (list ys) = then_by (compare_ℕ (size xs) (size ys)) (compare_items xs ys)
  compare (set xs) (set ys) = then_by (compare_ℕ (size xs) (size ys)) (compare_items xs ys)
  compare (dict ps) (dict qs) =
      then_by (compare_ℕ (pairs_size ps) (pairs_size qs)) (compare_pairs ps qs)
  compare a b = compare_ℕ (type a) (type b)

  pub compare_items : Vars → Vars → Ordering
  compare_items nil ys = Ordering.eq
  compare_items (cons x xs) nil = Ordering.eq
  compare_items (cons x xs) (cons y ys) = then_by (compare x y) (compare_items xs ys)

  pub compare_pairs : Pairs → Pairs → Ordering
  compare_pairs none_left qs = Ordering.eq
  compare_pairs (pair k v ps) none_left = Ordering.eq
  compare_pairs (pair k v ps) (pair j w qs) =
      then_by (compare k j) (then_by (compare v w) (compare_pairs ps qs))
