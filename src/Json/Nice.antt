-- ===== src/Json/Nice.antt =====
-- `create_nice` of lib/ccljson.cc: the loop of `create`, with line breaks and an indentation.
pub mod Printer
pub mod Indentation
pub mod Loop
pub mod Refines
use cclib.Base.{
  ℕ, zero, suc, ◌+◌, ◌-◌, Bool, true, false, List, [], ◌∷◌, ◌++◌, Bytes, codes, length, take, ltb,
  if◌then◌else◌,
}
use cclib.Var.Value.{
  Var, Vars, Pairs, blank, bool, integer, float, string, array, set, list, dict, nil, cons,
  none_left, pair,
}
use cclib.Json.Escape.{show_int}
use cclib.Json.Create.{
  CreateError, unsupported_variable_type, no_string_dict_key, CreateElem, create_elem, quote,
  Created, text, failed, out_of_fuel,
}

-- `indent_buffer` and `indent_size`.
pub record Indent : Type 0 where
  pub buffer : Bytes
  pub size : ℕ

-- CCLJSON_CREATE_NICE_PUSH_TAB.
abbrev pub push_tab : Bytes → Indent → Indent
push_tab tab_str indent =
    let size' = indent.size + length tab_str in
    record {
      buffer = if ltb (length indent.buffer) size' then indent.buffer ++ tab_str else indent.buffer;
      size = size';
    }

-- CCLJSON_CREATE_NICE_POP_TAB.
abbrev pub pop_tab : Bytes → Indent → Indent
pop_tab tab_str indent = record indent { size = indent.size - length tab_str }

-- CCLJSON_CREATE_NICE_INDENT.
abbrev pub put_indent : Indent → Bytes → Bytes
put_indent indent strbuf = strbuf ++ b'\n' ∷ take indent.size indent.buffer

-- What a round does to the stack, with the indentation behind it.
pub data NiceStep : Type 0 where
  popped : Bytes → Indent → NiceStep
  pushed : CreateElem → Var → Bytes → Indent → NiceStep
  thrown : CreateError → NiceStep

-- The opening bracket.
abbrev pub put_open : Bytes → ℕ → Bool → Indent → Bytes → Bytes × Indent
put_open tab_str bracket true indent strbuf = (strbuf ++ bracket ∷ [], indent)
put_open tab_str bracket false indent strbuf =
    let deeper = push_tab tab_str indent in (put_indent deeper (strbuf ++ bracket ∷ []), deeper)

-- The closing bracket.
abbrev pub put_close : Bytes → ℕ → Bool → Indent → Bytes → NiceStep
put_close tab_str bracket true indent strbuf = popped (strbuf ++ bracket ∷ []) indent
put_close tab_str bracket false indent strbuf =
    let outer = pop_tab tab_str indent in popped (put_indent outer strbuf ++ bracket ∷ []) outer

abbrev pub items_empty : Vars → Bool
items_empty nil = true
items_empty (cons x xs) = false

abbrev pub entries_empty : Pairs → Bool
entries_empty none_left = true
entries_empty (pair k v ps) = false

-- The case of an array and of a list `ys`, with the iterator set.
unfoldable pub next_item : Bytes → CreateElem → Vars → Vars → Bytes → Indent → NiceStep
next_item tab_str cs_elm ys nil strbuf indent =
    put_close tab_str b']' (items_empty ys) indent strbuf
next_item tab_str cs_elm ys (cons x xs) strbuf indent =
    pushed (record cs_elm { init = false; items = xs }) x strbuf indent

-- The comma and the line break, in front of another element.
abbrev pub item_comma : Vars → Bytes → Indent → Bytes
item_comma nil strbuf indent = strbuf
item_comma (cons x xs) strbuf indent = put_indent indent (strbuf ++ b',' ∷ [])

unfoldable pub items_round : Bytes → CreateElem → Vars → Bytes → Indent → NiceStep
unfolding next_item
items_round tab_str cs_elm ys strbuf indent = elim cs_elm.init [
  | true ↦
      let (strbuf', indent') = put_open tab_str b'[' (items_empty ys) indent strbuf in
      next_item tab_str cs_elm ys ys strbuf' indent'
  | false ↦ next_item tab_str cs_elm ys cs_elm.items (item_comma cs_elm.items strbuf indent) indent
]

-- The case of a dictionary, with the iterator set.
unfoldable pub next_entry : Bytes → CreateElem → Pairs → Pairs → Bytes → Indent → NiceStep
next_entry tab_str cs_elm qs none_left strbuf indent =
    put_close tab_str b'}' (entries_empty qs) indent strbuf
next_entry tab_str cs_elm qs (pair (string k) v ps) strbuf indent =
    pushed (record cs_elm { init = false; entries = ps }) v (quote strbuf k ++ b':' ∷ []) indent
next_entry tab_str cs_elm qs (pair _ v ps) strbuf indent = thrown no_string_dict_key

abbrev pub entry_comma : Pairs → Bytes → Indent → Bytes
entry_comma none_left strbuf indent = strbuf
entry_comma (pair k v ps) strbuf indent = put_indent indent (strbuf ++ b',' ∷ [])

unfoldable pub entries_round : Bytes → CreateElem → Pairs → Bytes → Indent → NiceStep
unfolding next_entry
entries_round tab_str cs_elm qs strbuf indent = elim cs_elm.init [
  | true ↦
      let (strbuf', indent') = put_open tab_str b'{' (entries_empty qs) indent strbuf in
      next_entry tab_str cs_elm qs qs strbuf' indent'
  | false ↦
      next_entry tab_str cs_elm qs cs_elm.entries (entry_comma cs_elm.entries strbuf indent) indent
]

-- The `switch` on the type; `show_double` is what a stream writes for a `double`.
unfoldable pub type_round : (ℕ → Bytes) → Bytes → CreateElem → Var → Bytes → Indent → NiceStep
unfolding items_round entries_round
type_round show_double tab_str cs_elm blank strbuf indent = popped (strbuf ++ codes "null") indent
type_round show_double tab_str cs_elm (bool true) strbuf indent =
    popped (strbuf ++ codes "true") indent
type_round show_double tab_str cs_elm (bool false) strbuf indent =
    popped (strbuf ++ codes "false") indent
type_round show_double tab_str cs_elm (integer n) strbuf indent =
    popped (strbuf ++ show_int n) indent
type_round show_double tab_str cs_elm (float d) strbuf indent =
    popped (strbuf ++ show_double d) indent
type_round show_double tab_str cs_elm (string s) strbuf indent = popped (quote strbuf s) indent
type_round show_double tab_str cs_elm (array xs) strbuf indent =
    items_round tab_str cs_elm xs strbuf indent
type_round show_double tab_str cs_elm (list xs) strbuf indent =
    items_round tab_str cs_elm xs strbuf indent
type_round show_double tab_str cs_elm (dict ps) strbuf indent =
    entries_round tab_str cs_elm ps strbuf indent
type_round show_double tab_str cs_elm (set xs) strbuf indent = thrown unsupported_variable_type

-- The `do … while(!create_stack.empty())`.
unfoldable pub create_nice_loop :
    (ℕ → Bytes) → Bytes → ℕ → List CreateElem → Bytes → Indent → Created
unfolding type_round
create_nice_loop show_double tab_str fuel [] strbuf indent = text strbuf
create_nice_loop show_double tab_str zero (e ∷ stack) strbuf indent = out_of_fuel
create_nice_loop show_double tab_str (suc fuel) (e ∷ stack) strbuf indent =
    elim (type_round show_double tab_str e e.var strbuf indent) [
      | popped strbuf' indent' ↦ create_nice_loop show_double tab_str fuel stack strbuf' indent'
      | pushed e' v strbuf' indent' ↦
          create_nice_loop show_double tab_str fuel (create_elem v ∷ e' ∷ stack) strbuf' indent'
      | thrown error ↦ failed error
    ]

unfoldable pub create_nice : (ℕ → Bytes) → Bytes → ℕ → Var → Created
unfolding create_nice_loop
create_nice show_double tab_str fuel v =
    create_nice_loop show_double tab_str fuel (create_elem v ∷ []) []
      (record { buffer = []; size = 0 })
