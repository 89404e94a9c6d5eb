-- ===== src/Varval/Path.antt =====
-- The path that the stack of values reports when lib/cclvarval.cc rejects a value.
use cclib.Base.{ℕ, ◌≡◌, ◌⊎◌, none, some, List, [], ◌∷◌}
use cclib.Base.Int.{ℤ, pos}
use cclib.Var.Value.{Var, Vars, Pairs, integer, array, set, list, dict, none_left, pair}
use cclib.Var.Dict.{lookup}
use cclib.Var.Access.{nth, at}

-- An entry of a dictionary.
abbrev pub HasEntry : Var → Var → Pairs → Type 0
HasEntry k v none_left = ⊥
HasEntry k v (pair j w ps) = ((k ≡ j) × (v ≡ w)) ⊎ HasEntry k v ps

-- The part of a value that an element of the path stands for: an element of an array, a set or a list
-- by its position, a value of a dictionary by its key, or, for `all-keys`, the key itself.
pub data Child : Var → Var → Var → Type 0 where
  of_array :
      {xs : Vars} {n : ℕ} {c : Var} → nth xs n ≡ some c → Child (array xs) (integer (pos n)) c
  of_set : {xs : Vars} {n : ℕ} {c : Var} → nth xs n ≡ some c → Child (set xs) (integer (pos n)) c
  of_list : {xs : Vars} {n : ℕ} {c : Var} → nth xs n ≡ some c → Child (list xs) (integer (pos n)) c
  found : {ps : Pairs} {k c : Var} → lookup k ps ≡ some c → Child (dict ps) k c
  entry : {ps : Pairs} {k c : Var} → HasEntry k c ps → Child (dict ps) k c
  key : {ps : Pairs} {k : Var} (c : Var) → HasEntry k c ps → Child (dict ps) k k

-- The value has no part under a key that a schema asks for.
pub data Lacks : Var → Var → Type 0 where
  no_element : {xs : Vars} {i : ℤ} → at xs i ≡ none → Lacks (array xs) (integer i)
  no_entry : {ps : Pairs} {k : Var} → lookup k ps ≡ none → Lacks (dict ps) k

-- The path leads from the value to a part of it; only its last element may be a key that the value
-- has no part under.
pub data Leads : Var → List Var → Type 0 where
  here : {v : Var} → Leads v []
  missing : {v k : Var} → Lacks v k → Leads v (k ∷ [])
  down : {v k c : Var} {path : List Var} → Child v k c → Leads c path → Leads v (k ∷ path)
