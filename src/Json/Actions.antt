-- ===== src/Json/Actions.antt =====
-- The parser's state, of lib/ccljson.h, and its parse actions, of
-- lib/ccljson_parse_actions.cc. A vector that is used as a stack has its back first.
use Prim.Native.Nat.{Ordering}
use cclib.Base.{
  ℕ, ◌+◌, ◌-◌, true, false, Option, none, some, List, [], ◌∷◌, Bytes, take, drop, bytes_eq,
}
use cclib.Base.Int.{ℤ}
use cclib.Var.Value.{
  Var, blank, bool, integer, float, string, array, dict, nil, none_left, push_back,
}
use cclib.Var.Compare.{compare_ℤ, compare_double}
use cclib.Var.Dict.{insert}
use cclib.Json.Text.{plain, unescape, strtoll}

-- `stack_elem_c`.
pub record StackElem : Type 0 where
  pub state : ℕ
  pub term_start : ℕ
  pub term_end : ℕ

-- `parser_c`. The three maps hold the values that were made before; the order of their entries is
-- not observed.
pub record Parser : Type 0 where
  pub source : Bytes
  pub old_input_idx : ℕ
  pub lalr_stack : List StackElem
  pub integer_map : List (ℤ × Var)
  pub double_map : List (ℕ × Var)
  pub string_map : List (Bytes × Var)
  pub strings : List Var
  pub values : List Var
  pub arrays : List Var
  pub objects : List Var

unfoldable pub find_integer : ℤ → List (ℤ × Var) → Option Var
find_integer n [] = none
find_integer n ((m, v) ∷ map) = elim (compare_ℤ n m) [
  | Ordering.eq ↦ some v
  | _ ↦ find_integer n map
]

-- Keys of which neither is less are the same key.
unfoldable pub find_double : ℕ → List (ℕ × Var) → Option Var
find_double d [] = none
find_double d ((e, v) ∷ map) = elim (compare_double d e) [
  | Ordering.eq ↦ some v
  | _ ↦ find_double d map
]

unfoldable pub find_string : Bytes → List (Bytes × Var) → Option Var
find_string s [] = none
find_string s ((t, v) ∷ map) = elim (bytes_eq s t) [ true ↦ some v | false ↦ find_string s map ]

-- An action changes the parser; `none` is a read of the back of an empty vector, a conversion of a
-- variable of another type, or `assert(false)`.
abbrev Action : Type 0
Action = Parser → Option Parser

unfoldable pub pa_json_object_begin : Action
pa_json_object_begin p = some (record p { objects = dict none_left ∷ p.objects })

object_insert : Var → Var → Var → Option Var
object_insert (dict ps) k v = some (dict (insert k v ps))
object_insert _ k v = none

unfoldable pub pa_json_object_pair : Action
unfolding object_insert
pa_json_object_pair p = elim p.objects [
  | [] ↦ none
  | o ∷ os ↦ elim p.strings [
    | [] ↦ none
    | s ∷ ss ↦ elim p.values [
      | [] ↦ none
      | v ∷ vs ↦ elim (object_insert o s v) [
        | none ↦ none
        | some o' ↦ some (record p { objects = o' ∷ os; strings = ss; values = vs })
      ]
    ]
  ]
]

unfoldable pub pa_json_array_begin : Action
pa_json_array_begin p = some (record p { arrays = array nil ∷ p.arrays })

array_push : Var → Var → Option Var
array_push (array xs) v = some (array (push_back xs v))
array_push _ v = none

unfoldable pub pa_json_array_value : Action
unfolding array_push
pa_json_array_value p = elim p.arrays [
  | [] ↦ none
  | a ∷ as' ↦ elim p.values [
    | [] ↦ none
    | v ∷ vs ↦ elim (array_push a v) [
      | none ↦ none
      | some a' ↦ some (record p { arrays = a' ∷ as'; values = vs })
    ]
  ]
]

unfoldable pub pa_json_val_string : Action
pa_json_val_string p = elim p.strings [
  | [] ↦ none
  | s ∷ ss ↦ some (record p { values = s ∷ p.values; strings = ss })
]

unfoldable pub pa_json_val_integer : Action
unfolding find_integer strtoll
pa_json_val_integer p = elim p.lalr_stack [
  | [] ↦ none
  | lse ∷ _ ↦
      let const_int = strtoll (drop lse.term_start p.source) in
      elim (find_integer const_int p.integer_map) [
        | some v ↦ some (record p { values = v ∷ p.values })
        | none ↦
            let v = integer const_int in
            some (record p { values = v ∷ p.values; integer_map = (const_int, v) ∷ p.integer_map })
      ]
]

-- `strtod` is the C library's, from the text on to the bits of the number.
unfoldable pub pa_json_val_float : (Bytes → ℕ) → Action
unfolding find_double compare_double
pa_json_val_float strtod p = elim p.lalr_stack [
  | [] ↦ none
  | lse ∷ _ ↦
      let const_float = strtod (drop lse.term_start p.source) in
      elim (find_double const_float p.double_map) [
        | some v ↦ some (record p { values = v ∷ p.values })
        | none ↦
            let v = float const_float in
            some (record p { values = v ∷ p.values; double_map = (const_float, v) ∷ p.double_map })
      ]
]

unfoldable pub pa_json_val_object : Action
pa_json_val_object p = elim p.objects [
  | [] ↦ none
  | o ∷ os ↦ some (record p { values = o ∷ p.values; objects = os })
]

unfoldable pub pa_json_val_array : Action
pa_json_val_array p = elim p.arrays [
  | [] ↦ none
  | a ∷ as' ↦ some (record p { values = a ∷ p.values; arrays = as' })
]

-- `m_var_true`, `m_var_false` and `m_var_null`.
unfoldable pub pa_json_val_true : Action
pa_json_val_true p = some (record p { values = bool true ∷ p.values })

unfoldable pub pa_json_val_false : Action
pa_json_val_false p = some (record p { values = bool false ∷ p.values })

unfoldable pub pa_json_val_null : Action
pa_json_val_null p = some (record p { values = blank ∷ p.values })

-- The text between the quotes.
abbrev pub quoted : Bytes → StackElem → Bytes
quoted source lse =
    take ((lse.term_end - 1) - (lse.term_start + 1)) (drop (lse.term_start + 1) source)

unfoldable pub pa_json_string : Action
unfolding find_string unescape
pa_json_string p = elim p.lalr_stack [
  | [] ↦ none
  | lse ∷ _ ↦ elim (unescape plain (quoted p.source lse) []) [
    | none ↦ none
    | some const_str ↦ elim (find_string const_str p.string_map) [
      | some v ↦ some (record p { strings = v ∷ p.strings })
      | none ↦
          let v = string const_str in
          some (record p { strings = v ∷ p.strings; string_map = (const_str, v) ∷ p.string_map })
    ]
  ]
]
