-- ===== src/Var/Copy.antt =====
-- `var_c::copy` of lib/cclvar.cc, on values.
use Prim.Native.Nat.{Ordering}
use cclib.Base.{◌≡◌, refl, arith, ap, sym, ◌∙◌}
use cclib.Var.Value.{
  Var, Vars, Pairs, blank, bool, integer, float, string, array, set, list, dict, nil, cons,
  none_left, pair, push_back,
}
use cclib.Var.Compare.{compare}
use cclib.Var.Compare.Total.{compare-flip}
use cclib.Var.Dict.{assign, set_insert}
use cclib.Var.Dict.Laws.{Above, Ascending, ItemsAbove, ItemsAscending}

-- The loops fill `target`, which is empty at the start.
unfoldable mutual
  pub copy : Var → Var
  copy blank = blank
  copy (bool b) = bool b
  copy (integer n) = integer n
  copy (float d) = float d
  copy (string s) = string s
  copy (array xs) = array (copy_items xs nil)
  copy (set xs) = set (copy_set xs nil)
  copy (list xs) = list (copy_items xs nil)
  copy (dict ps) = dict (copy_pairs ps none_left)

  pub copy_items : Vars → Vars → Vars
  copy_items nil target = target
  copy_items (cons x xs) target = copy_items xs (push_back target (copy x))

  pub copy_set : Vars → Vars → Vars
  copy_set nil target = target
  copy_set (cons x xs) target = copy_set xs (set_insert (copy x) target)

  pub copy_pairs : Pairs → Pairs → Pairs
  copy_pairs none_left target = target
  copy_pairs (pair k v ps) target = copy_pairs ps (assign (copy k) (copy v) target)

-- The sets and the maps in a value are in the order of iteration, at every depth.
abbrev mutual
  pub IsOrdered : Var → Type 0
  IsOrdered blank = Unit
  IsOrdered (bool b) = Unit
  IsOrdered (integer n) = Unit
  IsOrdered (float d) = Unit
  IsOrdered (string s) = Unit
  IsOrdered (array xs) = IsOrderedItems xs
  IsOrdered (set xs) = ItemsAscending xs × IsOrderedItems xs
  IsOrdered (list xs) = IsOrderedItems xs
  IsOrdered (dict ps) = Ascending ps × IsOrderedPairs ps

  pub IsOrderedItems : Vars → Type 0
  IsOrderedItems nil = Unit
  IsOrderedItems (cons x xs) = IsOrdered x × IsOrderedItems xs

  pub IsOrderedPairs : Pairs → Type 0
  IsOrderedPairs none_left = Unit
  IsOrderedPairs (pair k v ps) = IsOrdered k × IsOrdered v × IsOrderedPairs ps

abbrev pub append : Vars → Vars → Vars
append nil ys = ys
append (cons x xs) ys = cons x (append xs ys)

abbrev append_pairs : Pairs → Pairs → Pairs
append_pairs none_left qs = qs
append_pairs (pair k v ps) qs = pair k v (append_pairs ps qs)

pub push_back-append :
    (xs : Vars) (x : Var) (ys : Vars) → append (push_back xs x) ys ≡ append xs (cons x ys)
push_back-append nil x ys = refl
push_back-append (cons y xs) x ys = ap (cons y) (push_back-append xs x ys)

pub append-nil : (xs : Vars) → append xs nil ≡ xs
append-nil nil = refl
append-nil (cons x xs) = ap (cons x) (append-nil xs)

append_pairs-none : (ps : Pairs) → append_pairs ps none_left ≡ ps
append_pairs-none none_left = refl
append_pairs-none (pair k v ps) = ap (pair k v) (append_pairs-none ps)

Above-last :
    (j k v : Var) (ps qs : Pairs)
    → Above j (append_pairs ps (pair k v qs))
    → compare j k ≡ Ordering.lt
Above-last j k v none_left qs (lt, above) = lt
Above-last j k v (pair i w ps) qs (lt, above) = Above-last j k v ps qs above

ItemsAbove-last :
    (y x : Var) (xs ys : Vars) → ItemsAbove y (append xs (cons x ys)) → compare y x ≡ Ordering.lt
ItemsAbove-last y x nil ys (lt, above) = lt
ItemsAbove-last y x (cons z xs) ys (lt, above) = ItemsAbove-last y x xs ys above

-- A value above all others is inserted behind them.
set_insert_last :
    (x : Var) (xs ys : Vars)
    → ItemsAscending (append xs (cons x ys))
    → append (set_insert x xs) ys ≡ append xs (cons x ys)
unfolding set_insert
set_insert_last x nil ys asc = refl
set_insert_last x (cons y xs) ys (above, asc) =
    ground (arith, compare-flip y x, ItemsAbove-last y x xs ys above, set_insert_last x xs ys asc)

assign_last :
    (k v : Var) (ps qs : Pairs)
    → Ascending (append_pairs ps (pair k v qs))
    → append_pairs (assign k v ps) qs ≡ append_pairs ps (pair k v qs)
unfolding assign
assign_last k v none_left qs asc = refl
assign_last k v (pair j w ps) qs (above, asc) =
    ground (arith, compare-flip j k, Above-last j k v ps qs above, assign_last k v ps qs asc)

mutual
  unfolding copy

  copy_value : (v : Var) → IsOrdered v → copy v ≡ v
  copy_value blank h = refl
  copy_value (bool b) h = refl
  copy_value (integer n) h = refl
  copy_value (float d) h = refl
  copy_value (string s) h = refl
  copy_value (array xs) h = ap array (copy_items-append xs nil h)
  copy_value (set xs) (asc, h) = ap set (copy_set-append xs nil asc h)
  copy_value (list xs) h = ap list (copy_items-append xs nil h)
  copy_value (dict ps) (asc, h) = ap dict (copy_pairs-append ps none_left asc h)

  copy_items-append : (xs ts : Vars) → IsOrderedItems xs → copy_items xs ts ≡ append ts xs
  copy_items-append nil ts h = sym (append-nil ts)
  copy_items-append (cons x xs) ts (hx, hxs) =
      rw (copy_value x hx) (copy_items-append xs (push_back ts x) hxs ∙ push_back-append ts x xs)

  copy_set-append :
      (xs ts : Vars)
      → ItemsAscending (append ts xs)
      → IsOrderedItems xs
      → copy_set xs ts ≡ append ts xs
  copy_set-append nil ts asc h = sym (append-nil ts)
  copy_set-append (cons x xs) ts asc (hx, hxs) =
      let last = set_insert_last x ts xs asc in
      rw (copy_value x hx) (copy_set-append xs (set_insert x ts) (rw last asc) hxs ∙ last)

  copy_pairs-append :
      (ps ts : Pairs)
      → Ascending (append_pairs ts ps)
      → IsOrderedPairs ps
      → copy_pairs ps ts ≡ append_pairs ts ps
  copy_pairs-append none_left ts asc h = sym (append_pairs-none ts)
  copy_pairs-append (pair k v ps) ts asc (hk, hv, hps) =
      let last = assign_last k v ts ps asc in
      rw (copy_value k hk, copy_value v hv)
        (copy_pairs-append ps (assign k v ts) (rw last asc) hps ∙ last)

-- The copy of a value whose sets and maps are in order is that value: nothing is lost, reordered or
-- merged when its sets and maps are built again.
pub copy_same : (v : Var) → IsOrdered v → copy v ≡ v
copy_same v h = copy_value v h
