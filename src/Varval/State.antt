-- ===== src/Varval/State.antt =====
-- The members of `validator_c`, and how a validation ends.
use cclib.Base.{Option, List, [], ◌∷◌, ◌++◌, Bytes}
use cclib.Var.Value.{Var}
use cclib.Varval.Property.{Error}

module _ (Regex : Type 0) where
  -- A `nullptr` in the map of the regular expressions is `none`.
  pub record Validator : Type 0 where
    pub schema : Var
    pub regex_map : List (Bytes × Option Regex)
    pub value_stack : List Var
    pub props_stack : List Var

  -- `fault` is a call through a `nullptr`.
  pub data Outcome : Type 0 where
    done : Validator → Outcome
    thrown : Error → Validator → Outcome
    fault out_of_fuel : Outcome

module _ {Regex : Type 0} where
  infixl 5 ◌and_then◌
  abbrev pub ◌and_then◌ : Outcome Regex → (Validator Regex → Outcome Regex) → Outcome Regex
  done s and_then k = k s
  thrown e s and_then k = thrown e s
  fault and_then k = fault
  out_of_fuel and_then k = out_of_fuel

  -- `catch (...) { f; rethrow; }`.
  abbrev pub on_throw : (Validator Regex → Validator Regex) → Outcome Regex → Outcome Regex
  on_throw f (done s) = done s
  on_throw f (thrown e s) = thrown e (f s)
  on_throw f fault = fault
  on_throw f out_of_fuel = out_of_fuel

  abbrev pub push_value : Var → Validator Regex → Validator Regex
  push_value v s = record s { value_stack = s.value_stack ++ v ∷ [] }

  abbrev pub push_props : Var → Validator Regex → Validator Regex
  push_props v s = record s { props_stack = s.props_stack ++ v ∷ [] }
