-- ===== src/Var/Store.antt =====
-- The locations of lib/cclvar.h and lib/cclvar.cc in memory, with the counts of the `var_c` objects
-- that refer to them: `ref`, `unref`, the destructors, the constructors and the assignment.
mod Counts
mod Less
mod Drops
pub mod Variables
mod Sound
mod Held
mod Steps
mod Runs
mod Tests
use cclib.Base.{
  ℕ, zero, suc, ◌+◌, ◌-◌, ◌%◌, ◌<◌, ◌≤◌, ◌≡◌, ◌≢◌, refl, sym, ap, ◌∙◌, arith, Bool, true, false,
  Option, none, some, Option-cases, List, [], ◌∷◌, ◌++◌, Bytes, length, ltb, leb, ◌==◌, Bool-cases,
  inl, inr, if◌then◌else◌,
}
use cclib.Base.Int.{ℤ}
use Prim.Native.Nat.{ℕ, ◌+◌, suc, ◌%◌}

-- A `loc_c *`. An address is not used again after its location is deleted.
abbrev pub Address : Type 0
Address = ℕ

-- What the union and the type say. `Parts` are the elements, as the pointers of their `var_c`
-- objects in the order in which the container deletes them; a map has keys and values by turns.
pub data Data (Parts : Type 0) : Type 0 where
  blank : Data Parts
  bool : Bool → Data Parts
  integer : ℤ → Data Parts
  float : ℕ → Data Parts
  string : Bytes → Data Parts
  array set list dict : Parts → Data Parts

abbrev pub elements : Data (List Address) → List Address
elements (array xs) = xs
elements (set xs) = xs
elements (list xs) = xs
elements (dict xs) = xs
elements d = []

-- `m_ref_cnt` is an `int`, as its 32 bits.
pub record Loc : Type 0 where
  pub ref_cnt : ℕ
  pub data_ptr : Data (List Address)

-- `none` where the location is deleted.
abbrev pub Heap : Type 0
Heap = List (Option Loc)

abbrev pub read : Heap → Address → Option Loc
read [] p = none
read (c ∷ h) zero = c
read (c ∷ h) (suc p) = read h p

abbrev pub put : Heap → Address → Option Loc → Heap
put [] p d = []
put (c ∷ h) zero d = d ∷ h
put (c ∷ h) (suc p) d = c ∷ put h p d

-- `dangling` where a deleted location is used.
pub data Result (A : Type 0) : Type 0 where
  done : A → Result A
  dangling : Result A
  out_of_fuel : Result A

abbrev pub then_on : {A B : Type 0} → Result A → (A → Result B) → Result B
then_on (done x) next = next x
then_on dangling next = dangling
then_on out_of_fuel next = out_of_fuel

abbrev pub free : Address → Heap → Result Heap
free p h = elim (read h p) [ none ↦ dangling | some l ↦ done (put h p none) ]

abbrev pub add_ref : Loc → Loc
add_ref l = record l { ref_cnt = (l.ref_cnt + 1) % 4294967296 }

abbrev pub sub_ref : Loc → Loc
sub_ref l = record l { ref_cnt = (l.ref_cnt + 4294967295) % 4294967296 }

unfoldable pub ref : Address → Heap → Result Heap
ref p h = elim (read h p) [ none ↦ dangling | some l ↦ done (put h p (some (add_ref l))) ]

-- A container's destructor, which destroys its `var_c` objects.
abbrev pub unref_all : (Address → Heap → Result Heap) → List Address → Heap → Result Heap
unref_all drop [] h = done h
unref_all drop (p ∷ ps) h = then_on (drop p h) (unref_all drop ps)

-- `delete this`: the destructor, and the memory.
abbrev pub delete_loc : (Address → Heap → Result Heap) → Address → Loc → Heap → Result Heap
delete_loc drop p l h = then_on (unref_all drop (elements l.data_ptr) h) (free p)

unfoldable pub unref : ℕ → Address → Heap → Result Heap
unref zero p h = out_of_fuel
unref (suc fuel) p h = elim (read h p) [
  | none ↦ dangling
  | some l ↦
      let m = sub_ref l in
      let g = put h p (some m) in if m.ref_cnt == 0 then delete_loc (unref fuel) p m g else done g
]
