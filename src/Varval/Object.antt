-- ===== src/Varval/Object.antt =====
-- How a `validator_c` of lib/cclvarval.h begins and ends, and what it tells of its stacks.
use cclib.Base.{Option, none, some, List, [], ◌∷◌, Bytes}
use cclib.Var.Value.{Var, Vars, nil, cons, array}
use cclib.Varval.State.{Validator}

abbrev pub vars_of : List Var → Vars
vars_of [] = nil
vars_of (v ∷ vs) = cons v (vars_of vs)

module _ {Regex : Type 0} where
  unfoldable pub new_validator : Var → Validator Regex
  new_validator schema = record {
    schema = schema;
    regex_map = [];
    value_stack = [];
    props_stack = [];
  }

  unfoldable pub read_value_stack : Validator Regex → Var
  read_value_stack s = array (vars_of s.value_stack)

  unfoldable pub read_props_stack : Validator Regex → Var
  read_props_stack s = array (vars_of s.props_stack)

  -- `free_regex` stands for the destructor of an expression, on what the C library keeps of it. The
  -- deletion of a `nullptr` is nothing.
  module _ {World : Type 0} (free_regex : Regex → World → World) where
    abbrev delete_regex : Option Regex → World → World
    delete_regex none w = w
    delete_regex (some r) w = free_regex r w

    abbrev delete_all : List (Bytes × Option Regex) → World → World
    delete_all [] w = w
    delete_all ((key, r) ∷ rs) w = delete_all rs (delete_regex r w)

    unfoldable pub destroy_validator : Validator Regex → World → World
    destroy_validator s = delete_all s.regex_map
