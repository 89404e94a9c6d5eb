-- ===== src/Var/Store/Tests.antt =====
-- Runs on the variables of lib/cclvar.h, and the theorems on their locations at concrete calls.
use cclib.Base.{◌≡◌, refl, none, some, List, [], ◌∷◌, codes}
use cclib.Base.Int.{pos}
use cclib.Var.Store.{done, ref, unref}
use cclib.Var.Store.Data.{integer, string, array}
use cclib.Var.Store.Variables.{
  State, Call, make, literal, copy_var, copy_part, assign, drop_var, step, run,
}

abbrev no_state : State
no_state = record { heap = []; vars = []; str_map = [] }

-- A vector of two integers is copied, an element of it is taken out, and both vectors go away.
abbrev vector_calls : List Call
vector_calls =
    make (integer (pos 5))
    ∷ make (integer (pos 6))
    ∷ make (array 2)
    ∷ copy_var 0
    ∷ copy_part 0 1
    ∷ drop_var 2
    ∷ literal (codes "ab")
    ∷ assign 2 0
    ∷ literal (codes "ab")
    ∷ []

run-vector_calls :
    run vector_calls no_state
    ≡ done (record {
      heap =
          some (record { ref_cnt = 1; data_ptr = integer (pos 5) })
          ∷ none
          ∷ none
          ∷ some (record { ref_cnt = 4; data_ptr = string (codes "ab") })
          ∷ none
          ∷ [];
      vars = 3 ∷ 3 ∷ 0 ∷ 3 ∷ [];
      str_map = (codes "ab", 3) ∷ [];
    })
unfolding run step ref unref
run-vector_calls = refl
