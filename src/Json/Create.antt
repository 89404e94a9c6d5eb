-- ===== src/Json/Create.antt =====
-- `create` of lib/ccljson.cc: a loop over a stack of half-written containers.
pub mod Printer
pub mod Fuel
pub mod Refines
use cclib.Base.{ℕ, zero, suc, Bool, true, false, List, [], ◌∷◌, ◌++◌, Bytes, codes, if◌then◌else◌}
use cclib.Var.Value.{
  Var, Vars, Pairs, blank, bool, integer, float, string, array, set, list, dict, nil, cons,
  none_left, pair,
}
use cclib.Json.Escape.{append_string, show_int}

-- error_JSON_CREATE_UNSUPPORTED_VARIABLE_TYPE and error_JSON_CREATE_NO_STRING_DICT_KEY.
pub data CreateError : Type 0 where
  unsupported_variable_type no_string_dict_key : CreateError

-- `create_elem_c`; the iterators are the elements that they have still to pass.
pub record CreateElem : Type 0 where
  pub var : Var
  pub init : Bool
  pub items : Vars
  pub entries : Pairs

abbrev pub create_elem : Var → CreateElem
create_elem v = record { var = v; init = true; items = nil; entries = none_left }

-- What a round does to the stack: it takes the top off, or pushes a variable on a changed top.
pub data Step : Type 0 where
  popped : Bytes → Step
  pushed : CreateElem → Var → Bytes → Step
  thrown : CreateError → Step

abbrev pub quote : Bytes → Bytes → Bytes
quote strbuf s = append_string (strbuf ++ b'"' ∷ []) s ++ b'"' ∷ []

-- The case of an array and of a list, with the iterator set.
unfoldable pub next_item : CreateElem → Vars → Bytes → Step
next_item cs_elm nil strbuf = popped (strbuf ++ b']' ∷ [])
next_item cs_elm (cons x xs) strbuf = pushed (record cs_elm { init = false; items = xs }) x strbuf

-- The comma, in front of another element.
abbrev item_comma : Vars → Bytes → Bytes
item_comma nil strbuf = strbuf
item_comma (cons x xs) strbuf = strbuf ++ b',' ∷ []

unfoldable pub items_round : CreateElem → Vars → Bytes → Step
unfolding next_item
items_round cs_elm xs strbuf =
    if cs_elm.init
    then next_item cs_elm xs (strbuf ++ b'[' ∷ [])
    else next_item cs_elm cs_elm.items (item_comma cs_elm.items strbuf)

-- The case of a dictionary, with the iterator set.
unfoldable pub next_entry : CreateElem → Pairs → Bytes → Step
next_entry cs_elm none_left strbuf = popped (strbuf ++ b'}' ∷ [])
next_entry cs_elm (pair (string k) v ps) strbuf =
    pushed (record cs_elm { init = false; entries = ps }) v (quote strbuf k ++ b':' ∷ [])
next_entry cs_elm (pair _ v ps) strbuf = thrown no_string_dict_key

abbrev entry_comma : Pairs → Bytes → Bytes
entry_comma none_left strbuf = strbuf
entry_comma (pair k v ps) strbuf = strbuf ++ b',' ∷ []

unfoldable pub entries_round : CreateElem → Pairs → Bytes → Step
unfolding next_entry
entries_round cs_elm ps strbuf =
    if cs_elm.init
    then next_entry cs_elm ps (strbuf ++ b'{' ∷ [])
    else next_entry cs_elm cs_elm.entries (entry_comma cs_elm.entries strbuf)

-- The `switch` on the type; `show_double` is what a stream writes for a `double`.
unfoldable pub type_round : (ℕ → Bytes) → CreateElem → Var → Bytes → Step
unfolding items_round entries_round
type_round show_double cs_elm blank strbuf = popped (strbuf ++ codes "null")
type_round show_double cs_elm (bool true) strbuf = popped (strbuf ++ codes "true")
type_round show_double cs_elm (bool false) strbuf = popped (strbuf ++ codes "false")
type_round show_double cs_elm (integer n) strbuf = popped (strbuf ++ show_int n)
type_round show_double cs_elm (float d) strbuf = popped (strbuf ++ show_double d)
type_round show_double cs_elm (string s) strbuf = popped (quote strbuf s)
type_round show_double cs_elm (array xs) strbuf = items_round cs_elm xs strbuf
type_round show_double cs_elm (list xs) strbuf = items_round cs_elm xs strbuf
type_round show_double cs_elm (dict ps) strbuf = entries_round cs_elm ps strbuf
type_round show_double cs_elm (set xs) strbuf = thrown unsupported_variable_type

pub data Created : Type 0 where
  text : Bytes → Created
  failed : CreateError → Created
  out_of_fuel : Created

-- The `do … while(!create_stack.empty())`.
unfoldable pub create_loop : (ℕ → Bytes) → ℕ → List CreateElem → Bytes → Created
unfolding type_round
create_loop show_double fuel [] strbuf = text strbuf
create_loop show_double zero (e ∷ stack) strbuf = out_of_fuel
create_loop show_double (suc fuel) (e ∷ stack) strbuf =
    elim (type_round show_double e e.var strbuf) [
      | popped strbuf' ↦ create_loop show_double fuel stack strbuf'
      | pushed e' v strbuf' ↦ create_loop show_double fuel (create_elem v ∷ e' ∷ stack) strbuf'
      | thrown error ↦ failed error
    ]

unfoldable pub create : (ℕ → Bytes) → ℕ → Var → Created
unfolding create_loop
create show_double fuel v = create_loop show_double fuel (create_elem v ∷ []) []
