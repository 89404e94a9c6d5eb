-- ===== src/Var/Store/Variables.antt =====
-- The `var_c` objects of lib/cclvar.h that stand outside the locations, the table of literals of
-- lib/cclvar.cc, and what their constructors, destructor and assignment do with the locations.
use cclib.Base.{
  ℕ, zero, suc, true, false, Option, none, some, List, [], ◌∷◌, ◌++◌, Bytes, length, take, drop,
  get_elem?, bytes_eq,
}
use cclib.Var.Store.{Address, Data, Loc, Heap, read, elements, Result, done, then_on, ref, unref}
use cclib.Var.Store.Data.{blank, bool, integer, float, string, array, set, list, dict}

abbrev pub Literals : Type 0
Literals = List (Bytes × Address)

-- `vars` are the `m_loc_ptr` of the objects, those that are passed to a constructor included.
pub record State : Type 0 where
  pub heap : Heap
  pub vars : List Address
  pub str_map : Literals

-- `make` takes the elements of a container from the objects, as many as its data says. `copy_part`
-- copies an element of a container.
pub data Call : Type 0 where
  make : Data ℕ → Call
  literal : Bytes → Call
  copy_var : ℕ → Call
  copy_part : ℕ → ℕ → Call
  assign : ℕ → ℕ → Call
  drop_var : ℕ → Call

abbrev pub moved : Data ℕ → ℕ
moved (array n) = n
moved (set n) = n
moved (list n) = n
moved (dict n) = n
moved d = 0

abbrev pub fill_data : Data ℕ → List Address → Data (List Address)
fill_data blank vs = blank
fill_data (bool b) vs = bool b
fill_data (integer m) vs = integer m
fill_data (float x) vs = float x
fill_data (string t) vs = string t
fill_data (array n) vs = array (take n vs)
fill_data (set n) vs = set (take n vs)
fill_data (list n) vs = list (take n vs)
fill_data (dict n) vs = dict (take n vs)

abbrev pub new_loc : Data (List Address) → Heap → Heap
new_loc d h = h ++ some (record { ref_cnt = 1; data_ptr = d }) ∷ []

-- Each location is deleted once, so their number is fuel enough.
abbrev pub drop_ref : Address → Heap → Result Heap
drop_ref p h = unref (length h) p h

abbrev pub find_literal : Bytes → Literals → Option Address
find_literal v [] = none
find_literal v ((t, q) ∷ ls) = elim (bytes_eq v t) [ true ↦ some q | false ↦ find_literal v ls ]

abbrev pub remove : ℕ → List Address → List Address
remove i [] = []
remove zero (p ∷ ps) = ps
remove (suc i) (p ∷ ps) = p ∷ remove i ps

abbrev pub set_at : ℕ → Address → List Address → List Address
set_at i q [] = []
set_at zero q (p ∷ ps) = q ∷ ps
set_at (suc i) q (p ∷ ps) = p ∷ set_at i q ps

abbrev pub loc_part : ℕ → Option Loc → Option Address
loc_part k none = none
loc_part k (some l) = get_elem? (elements l.data_ptr) k

abbrev pub part_of : Heap → ℕ → Option Address → Option Address
part_of h k none = none
part_of h k (some p) = loc_part k (read h p)

abbrev pub with : {A B : Type 0} → Option A → Result B → (A → Result B) → Result B
with none other next = other
with (some x) other next = next x

abbrev pub share : State → Address → Result State
share s p = then_on (ref p s.heap) (λ h. done (record s { heap = h; vars = p ∷ s.vars }))

-- An object whose location is new; elements move into it.
abbrev pub make_var : Data ℕ → State → State
make_var d s = record s {
  heap = new_loc (fill_data d s.vars) s.heap;
  vars = length s.heap ∷ drop (moved d) s.vars;
}

-- A literal has no NUL. The table's slot begins as a blank, to which the new object is assigned.
abbrev pub literal_var : Bytes → State → Result State
literal_var v s =
    let q = length s.heap in
    with (find_literal v s.str_map)
      (then_on (ref q (new_loc blank (new_loc (string v) s.heap))) (λ h.
        then_on (drop_ref (suc q) h)
          (λ g. done (record { heap = g; vars = q ∷ s.vars; str_map = (v, q) ∷ s.str_map }))))
      (share s)

abbrev pub assign_var : ℕ → Address → Address → State → Result State
assign_var i p q s =
    then_on (ref q s.heap)
      (λ h. then_on (drop_ref p h) (λ g. done (record s { heap = g; vars = set_at i q s.vars })))

abbrev pub destroy_var : ℕ → Address → State → Result State
destroy_var i p s =
    then_on (drop_ref p s.heap) (λ h. done (record s { heap = h; vars = remove i s.vars }))

-- A call on an object that is not there is none.
unfoldable pub step : Call → State → Result State
step (make d) s = done (make_var d s)
step (literal v) s = literal_var v s
step (copy_var i) s = with (get_elem? s.vars i) (done s) (share s)
step (copy_part i k) s = with (part_of s.heap k (get_elem? s.vars i)) (done s) (share s)
step (assign i j) s =
    with (get_elem? s.vars j) (done s)
      (λ q. with (get_elem? s.vars i) (done s) (λ p. assign_var i p q s))
step (drop_var i) s = with (get_elem? s.vars i) (done s) (λ p. destroy_var i p s)

unfoldable pub run : List Call → State → Result State
run [] s = done s
run (c ∷ cs) s = then_on (step c s) (run cs)
