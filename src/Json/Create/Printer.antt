-- ===== src/Json/Create/Printer.antt =====
-- What `create` of lib/ccljson.cc is to write, by recursion on the value.
use cclib.Base.{ℕ, suc, ◌+◌, true, false, [], ◌∷◌, ◌++◌, Bytes, codes}
use cclib.Var.Value.{
  Var, Vars, Pairs, blank, bool, integer, float, string, array, set, list, dict, nil, cons,
  none_left, pair,
}
use cclib.Json.Escape.{append_string, show_int}
use cclib.Json.Create.{CreateError, unsupported_variable_type, no_string_dict_key}

pub data Printed : Type 0 where
  printed : Bytes → Printed
  refused : CreateError → Printed

abbrev pub map_printed : (Bytes → Bytes) → Printed → Printed
map_printed f (printed t) = printed (f t)
map_printed f (refused e) = refused e

-- Two texts one behind the other; the first error counts.
abbrev pub join_printed : Printed → Printed → Printed
join_printed (printed s) (printed t) = printed (s ++ t)
join_printed (printed s) (refused e) = refused e
join_printed (refused e) q = refused e

abbrev pub quoted_text : Bytes → Bytes
quoted_text s = b'"' ∷ (append_string [] s ++ b'"' ∷ [])

abbrev pub key_text : Var → Printed
key_text (string k) = printed (quoted_text k ++ b':' ∷ [])
key_text _ = refused no_string_dict_key

module _ (show_double : ℕ → Bytes) where
  unfoldable mutual
    pub print : Var → Printed
    print blank = printed (codes "null")
    print (bool true) = printed (codes "true")
    print (bool false) = printed (codes "false")
    print (integer n) = printed (show_int n)
    print (float d) = printed (show_double d)
    print (string s) = printed (quoted_text s)
    print (array xs) = map_printed (λ t. b'[' ∷ t) (print_items xs)
    print (list xs) = map_printed (λ t. b'[' ∷ t) (print_items xs)
    print (dict ps) = map_printed (λ t. b'{' ∷ t) (print_entries ps)
    print (set xs) = refused unsupported_variable_type

    -- The elements with the commas between them, and the closing bracket.
    pub print_items : Vars → Printed
    print_items nil = printed (b']' ∷ [])
    print_items (cons x xs) = join_printed (print x) (print_more xs)

    pub print_more : Vars → Printed
    print_more nil = printed (b']' ∷ [])
    print_more (cons x xs) = map_printed (λ t. b',' ∷ t) (join_printed (print x) (print_more xs))

    pub print_entries : Pairs → Printed
    print_entries none_left = printed (b'}' ∷ [])
    print_entries (pair k v ps) =
        join_printed (key_text k) (join_printed (print v) (print_more_entries ps))

    pub print_more_entries : Pairs → Printed
    print_more_entries none_left = printed (b'}' ∷ [])
    print_more_entries (pair k v ps) =
        map_printed (λ t. b',' ∷ t)
          (join_printed (key_text k) (join_printed (print v) (print_more_entries ps)))

-- The rounds that a value takes: one, and for a container one more for each element.
unfoldable mutual
  pub rounds : Var → ℕ
  rounds blank = 1
  rounds (bool b) = 1
  rounds (integer n) = 1
  rounds (float d) = 1
  rounds (string s) = 1
  rounds (array xs) = suc (rounds_items xs)
  rounds (list xs) = suc (rounds_items xs)
  rounds (dict ps) = suc (rounds_entries ps)
  rounds (set xs) = 1

  pub rounds_items : Vars → ℕ
  rounds_items nil = 0
  rounds_items (cons x xs) = suc (rounds x + rounds_items xs)

  pub rounds_entries : Pairs → ℕ
  rounds_entries none_left = 0
  rounds_entries (pair k v ps) = suc (rounds v + rounds_entries ps)
