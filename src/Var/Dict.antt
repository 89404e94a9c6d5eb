-- ===== src/Var/Dict.antt =====
-- The members of `std::map<var_c,var_c>` and `std::set<var_c>` that the library calls, on the
-- entries in the order of iteration. `operator <` of `var_c` is a negative `compare`.
pub mod Laws
use Prim.Native.Nat.{Ordering}
use cclib.Base.{Option, none, some}
use cclib.Var.Value.{Var, Vars, Pairs, nil, cons, none_left, pair}
use cclib.Var.Compare.{compare}

-- `find` and `at`: the value under an equal key.
unfoldable pub lookup : Var → Pairs → Option Var
lookup k none_left = none
lookup k (pair j w ps) = elim (compare k j) [
  | Ordering.lt ↦ none
  | Ordering.eq ↦ some w
  | Ordering.gt ↦ lookup k ps
]

-- `d[k] = v`: an equal key stays, and its value is replaced.
unfoldable pub assign : Var → Var → Pairs → Pairs
assign k v none_left = pair k v none_left
assign k v (pair j w ps) = elim (compare k j) [
  | Ordering.lt ↦ pair k v (pair j w ps)
  | Ordering.eq ↦ pair j v ps
  | Ordering.gt ↦ pair j w (assign k v ps)
]

-- `d.insert({k,v})`: an equal key keeps its value.
unfoldable pub insert : Var → Var → Pairs → Pairs
insert k v none_left = pair k v none_left
insert k v (pair j w ps) = elim (compare k j) [
  | Ordering.lt ↦ pair k v (pair j w ps)
  | Ordering.eq ↦ pair j w ps
  | Ordering.gt ↦ pair j w (insert k v ps)
]

-- `s.insert(x)`, with a hint or without.
unfoldable pub set_insert : Var → Vars → Vars
set_insert x nil = cons x nil
set_insert x (cons y ys) = elim (compare x y) [
  | Ordering.lt ↦ cons x (cons y ys)
  | Ordering.eq ↦ cons y ys
  | Ordering.gt ↦ cons y (set_insert x ys)
]
