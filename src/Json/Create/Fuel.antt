-- ===== src/Json/Create/Fuel.antt =====
-- The fuel of the loops of lib/ccljson.cc that write a value.
use cclib.Base.{ℕ, suc, ◌+◌, ◌≡◌, arith}
use cclib.Var.Value.{
  Var, Vars, Pairs, blank, bool, integer, float, string, array, set, list, dict, nil, cons,
  none_left, pair,
}
use cclib.Json.Create.Printer.{rounds, rounds_items, rounds_entries}

-- The fuel with which a value leaves `f` behind.
unfoldable mutual
  pub fuel_for : Var → ℕ → ℕ
  fuel_for (array xs) f = suc (fuel_for_items xs f)
  fuel_for (list xs) f = suc (fuel_for_items xs f)
  fuel_for (dict ps) f = suc (fuel_for_entries ps f)
  fuel_for _ f = suc f

  pub fuel_for_items : Vars → ℕ → ℕ
  fuel_for_items nil f = f
  fuel_for_items (cons x xs) f = fuel_for x (suc (fuel_for_items xs f))

  pub fuel_for_entries : Pairs → ℕ → ℕ
  fuel_for_entries none_left f = f
  fuel_for_entries (pair k v ps) f = fuel_for v (suc (fuel_for_entries ps f))

mutual
  unfolding fuel_for rounds

  pub fuel_for-rounds : (v : Var) (f : ℕ) → fuel_for v f ≡ rounds v + f
  fuel_for-rounds blank f = omega arith
  fuel_for-rounds (bool b) f = omega arith
  fuel_for-rounds (integer n) f = omega arith
  fuel_for-rounds (float d) f = omega arith
  fuel_for-rounds (string s) f = omega arith
  fuel_for-rounds (array xs) f = omega (arith, fuel_for_items-rounds xs f)
  fuel_for-rounds (list xs) f = omega (arith, fuel_for_items-rounds xs f)
  fuel_for-rounds (dict ps) f = omega (arith, fuel_for_entries-rounds ps f)
  fuel_for-rounds (set xs) f = omega arith

  fuel_for_items-rounds : (xs : Vars) (f : ℕ) → fuel_for_items xs f ≡ rounds_items xs + f
  fuel_for_items-rounds nil f = omega arith
  fuel_for_items-rounds (cons x xs) f =
      omega (arith, fuel_for-rounds x (suc (fuel_for_items xs f)), fuel_for_items-rounds xs f)

  fuel_for_entries-rounds : (ps : Pairs) (f : ℕ) → fuel_for_entries ps f ≡ rounds_entries ps + f
  fuel_for_entries-rounds none_left f = omega arith
  fuel_for_entries-rounds (pair k v ps) f =
      omega (arith, fuel_for-rounds v (suc (fuel_for_entries ps f)), fuel_for_entries-rounds ps f)
