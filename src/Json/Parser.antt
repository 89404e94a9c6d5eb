-- ===== src/Json/Parser.antt =====
-- `parser_c::parse_source` and `parse` of lib/ccljson.cc.
use cclib.Base.{
  ℕ, zero, suc, ◌-◌, true, false, Option, none, some, List, [], ◌∷◌, Bytes, drop, length, get_elem?,
  ltb, ◌==◌,
}
use cclib.Var.Value.{Var}
use cclib.Json.Lexer.{recognize_terminal}
use cclib.Json.Table.{
  json_blank, reduce_base, json_rule_head_idxs, json_rule_body_lengths, table_entry,
}
use cclib.Json.Actions.{
  StackElem, Parser, pa_json_object_begin, pa_json_object_pair, pa_json_array_begin,
  pa_json_array_value, pa_json_val_string, pa_json_val_integer, pa_json_val_float,
  pa_json_val_object, pa_json_val_array, pa_json_val_true, pa_json_val_false, pa_json_val_null,
  pa_json_string,
}

-- How a parse ends: with a variable, with one of the thrown errors, with undefined behaviour or a
-- failed assertion (`fault`), or not within the fuel.
pub data Outcome : Type 0 where
  parsed : Var → Outcome
  unrecognized_terminal invalid_syntax : Outcome
  fault out_of_fuel : Outcome

-- What a round of the loop leaves: the end, or the parser, `input_idx` and `ret_term`, where `none`
-- is `c_idx_not_exist`.
pub data Round : Type 0 where
  stop : Outcome → Round
  go : Parser → ℕ → Option ℕ → Round

-- `json_pa_callers`: `none` is `pa_json_null`, which is not called.
unfoldable pub json_pa_callers : (Bytes → ℕ) → List (Option (Parser → Option Parser))
json_pa_callers strtod =
    none
    ∷ none
    ∷ none
    ∷ none
    ∷ none
    ∷ some pa_json_object_begin
    ∷ none
    ∷ none
    ∷ some pa_json_object_pair
    ∷ none
    ∷ none
    ∷ none
    ∷ some pa_json_array_begin
    ∷ some pa_json_array_value
    ∷ some pa_json_array_value
    ∷ some pa_json_val_string
    ∷ some pa_json_val_integer
    ∷ some (pa_json_val_float strtod)
    ∷ some pa_json_val_object
    ∷ some pa_json_val_array
    ∷ some pa_json_val_true
    ∷ some pa_json_val_false
    ∷ some pa_json_val_null
    ∷ some pa_json_string
    ∷ []

-- The call of a rule's action. Every action returns true.
unfoldable pub call_action : (Bytes → ℕ) → ℕ → Parser → Option Parser
unfolding json_pa_callers pa_json_object_begin pa_json_object_pair pa_json_array_begin
    pa_json_array_value pa_json_val_string pa_json_val_integer pa_json_val_float pa_json_val_object
    pa_json_val_array pa_json_val_true pa_json_val_false pa_json_val_null pa_json_string
call_action strtod rule p = elim (get_elem? (json_pa_callers strtod) rule) [
  | none ↦ none
  | some none ↦ some p
  | some (some pa) ↦ pa p
]

-- `emplace_back(state)`.
abbrev pub plain_elem : ℕ → StackElem
plain_elem state = record { state = state; term_start = 0; term_end = 0 }

-- `resize(size() - count)`: a count above the size wraps around.
abbrev pub pop_count : ℕ → List StackElem → Option (List StackElem)
pop_count count stack = elim (ltb (length stack) count) [
  | true ↦ none
  | false ↦ some (drop count stack)
]

-- The goto of the head of the rule, from the state that the rule's body uncovers.
unfoldable pub goto_head : ℕ → Parser → Option Parser
unfolding json_rule_body_lengths json_rule_head_idxs table_entry
goto_head rule p = elim (get_elem? json_rule_body_lengths rule) [
  | none ↦ none
  | some count ↦ elim (pop_count count p.lalr_stack) [
    | none ↦ none
    | some [] ↦ none
    | some (e ∷ es) ↦ elim (get_elem? json_rule_head_idxs rule) [
      | none ↦ none
      | some head ↦ elim (table_entry e.state head) [
        | none ↦ none
        | some goto_val ↦ some (record p { lalr_stack = plain_elem goto_val ∷ e ∷ es })
      ]
    ]
  ]
]

-- The action JSON_REDUCE.
unfoldable pub reduce : (Bytes → ℕ) → ℕ → Parser → ℕ → ℕ → Round
unfolding call_action goto_head
reduce strtod rule p input_idx ret_term = elim (call_action strtod rule p) [
  | none ↦ stop fault
  | some p' ↦ elim (goto_head rule p') [
    | none ↦ stop fault
    | some p'' ↦ go p'' input_idx (some ret_term)
  ]
]

-- The action JSON_SHIFT.
unfoldable pub shift : ℕ → Parser → ℕ → Round
shift state p input_idx =
    go
      (record p {
        lalr_stack =
            (record { state = state; term_start = p.old_input_idx; term_end = input_idx })
            ∷ p.lalr_stack;
      })
      input_idx none

-- `return m_objects.back()`.
unfoldable pub finish : Parser → Outcome
finish p = elim p.objects [ [] ↦ fault | o ∷ _ ↦ parsed o ]

-- The part of a round behind the retrieval of the terminal symbol.
unfoldable pub act : (Bytes → ℕ) → Parser → ℕ → ℕ → Round
unfolding reduce shift finish table_entry
act strtod p input_idx ret_term = elim p.lalr_stack [
  | [] ↦ stop fault
  | e ∷ _ ↦ elim (table_entry e.state ret_term) [
    | none ↦ stop fault
    | some parse_action ↦ elim (parse_action == json_blank) [
      | true ↦ stop invalid_syntax
      | false ↦ elim (ltb parse_action reduce_base) [
        | true ↦ elim (ret_term == 13) [
          | true ↦ stop (finish p)
          | false ↦ shift parse_action p input_idx
        ]
        | false ↦ reduce strtod (parse_action - reduce_base) p input_idx ret_term
      ]
    ]
  ]
]

-- A round of the inner `while`, which skips terminal 12, and then of the outer loop. Each costs a
-- unit of fuel.
unfoldable pub round : (Bytes → ℕ) → Parser → ℕ → Option ℕ → Round
unfolding act recognize_terminal
round strtod p input_idx (some ret_term) = act strtod p input_idx ret_term
round strtod p input_idx none =
    let (ret_term, idx') = recognize_terminal p.source input_idx in
    let p' = record p { old_input_idx = input_idx } in
    elim ret_term [
      | none ↦ stop unrecognized_terminal
      | some t ↦ elim (t == 12) [ true ↦ go p' idx' none | false ↦ go p' idx' (some t) ]
    ]

unfoldable pub parse_loop : (Bytes → ℕ) → ℕ → Parser → ℕ → Option ℕ → Outcome
unfolding round
parse_loop strtod zero p input_idx ret_term = out_of_fuel
parse_loop strtod (suc fuel) p input_idx ret_term = elim (round strtod p input_idx ret_term) [
  | stop outcome ↦ outcome
  | go p' idx' term' ↦ parse_loop strtod fuel p' idx' term'
]

-- A new `parser_c` at the start of `parse_source`.
abbrev pub parser : Bytes → Parser
parser source = record {
  source = source;
  old_input_idx = 0;
  lalr_stack = plain_elem 0 ∷ [];
  integer_map = [];
  double_map = [];
  string_map = [];
  strings = [];
  values = [];
  arrays = [];
  objects = [];
}

unfoldable pub parse : (Bytes → ℕ) → ℕ → Bytes → Outcome
unfolding parse_loop
parse strtod fuel source = parse_loop strtod fuel (parser source) 0 none
