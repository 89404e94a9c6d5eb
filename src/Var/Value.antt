-- ===== src/Var/Value.antt =====
-- The values of lib/cclvar.h: what a `var_c` refers to, by the type of its `loc_c`. The sharing of
-- locations is not part of a value.
use cclib.Base.{ℕ, suc, Bool, Bytes}
use cclib.Base.Int.{ℤ}

-- `integer` holds the `int64_t`, and `float` the 64 bits of the `double`. `Vars` are the elements of
-- a vector, a list or a set, and `Pairs` the entries of a map, in the order of iteration.
mutual
  pub data Var : Type 0 where
    blank : Var
    bool : Bool → Var
    integer : ℤ → Var
    float : ℕ → Var
    string : Bytes → Var
    array : Vars → Var
    set : Vars → Var
    list : Vars → Var
    dict : Pairs → Var

  pub data Vars : Type 0 where
    nil : Vars
    cons : Var → Vars → Vars

  pub data Pairs : Type 0 where
    none_left : Pairs
    pair : Var → Var → Pairs → Pairs

-- The numbers of the enumeration, `type_blank` to `type_dict`.
abbrev pub type : Var → ℕ
type blank = 0
type (bool b) = 1
type (integer n) = 2
type (float d) = 3
type (string s) = 4
type (array xs) = 5
type (set xs) = 6
type (list xs) = 7
type (dict ps) = 8

abbrev pub size : Vars → ℕ
size nil = 0
size (cons x xs) = suc (size xs)

abbrev pub pairs_size : Pairs → ℕ
pairs_size none_left = 0
pairs_size (pair k v ps) = suc (pairs_size ps)

abbrev pub push_back : Vars → Var → Vars
push_back nil x = cons x nil
push_back (cons y ys) x = cons y (push_back ys x)
