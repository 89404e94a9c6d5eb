-- ===== src/Varval/Height.antt =====
-- How deep a value of lib/cclvar.h is.
use Prim.Native.Nat.{max}
use cclib.Base.{ℕ, zero, suc, ◌≤◌, ◌≡◌, arith, none, some, inl, inr, ap, ◌⊎◌}
use Prim.Native.Nat.{Ordering}
use cclib.Var.Value.{Var, Vars, Pairs, array, set, list, dict, nil, cons, none_left, pair}
use cclib.Var.Compare.{compare}
use cclib.Var.Dict.{lookup}
use cclib.Var.Access.{nth}

unfoldable mutual
  pub height : Var → ℕ
  height (array xs) = suc (height_items xs)
  height (set xs) = suc (height_items xs)
  height (list xs) = suc (height_items xs)
  height (dict ps) = suc (height_pairs ps)
  height _ = 0

  pub height_items : Vars → ℕ
  height_items nil = 0
  height_items (cons x xs) = max (height x) (height_items xs)

  pub height_pairs : Pairs → ℕ
  height_pairs none_left = 0
  height_pairs (pair k v ps) = max (height k) (max (height v) (height_pairs ps))

pub height-nth : (xs : Vars) (n : ℕ) (x : Var) → nth xs n ≡ some x → height x ≤ height_items xs
unfolding height_items
height-nth nil n x h = absurd (cc)
height-nth (cons y xs) zero x h = ground (arith, h)
height-nth (cons y xs) (suc n) x h = omega (arith, height-nth xs n x h)

pub lookup_cases :
    (o : Ordering) (k v w : Var) (ps : Pairs)
    → (elim o [ Ordering.lt ↦ none | Ordering.eq ↦ some w | Ordering.gt ↦ lookup k ps ]) ≡ some v
    → (w ≡ v) ⊎ (lookup k ps ≡ some v)
lookup_cases Ordering.lt k v w ps h = absurd (cc)
lookup_cases Ordering.eq k v w ps h = inl (cc)
lookup_cases Ordering.gt k v w ps h = inr h

pub height-lookup : (ps : Pairs) (k v : Var) → lookup k ps ≡ some v → height v ≤ height_pairs ps
unfolding height_pairs lookup
height-lookup none_left k v h = absurd (cc)
height-lookup (pair j w ps) k v h = elim (lookup_cases (compare k j) k v w ps h) [
  | inl e ↦ omega (arith, ap height e)
  | inr e ↦ omega (arith, height-lookup ps k v e)
]
