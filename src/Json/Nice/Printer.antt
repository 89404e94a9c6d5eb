-- ===== src/Json/Nice/Printer.antt =====
-- What `create_nice` of lib/ccljson.cc is to write, by recursion on the value: each element on a
-- line of its own, behind one tabulator for each container that it stands in.
use cclib.Base.{ℕ, zero, suc, true, false, [], ◌∷◌, ◌++◌, Bytes, codes}
use cclib.Var.Value.{
  Var, Vars, Pairs, blank, bool, integer, float, string, array, set, list, dict, nil, cons,
  none_left, pair,
}
use cclib.Json.Escape.{show_int}
use cclib.Json.Create.{unsupported_variable_type}
use cclib.Json.Create.Printer.{
  Printed, printed, refused, map_printed, join_printed, quoted_text, key_text,
}

unfoldable pub indentation : Bytes → ℕ → Bytes
indentation tab_str zero = []
indentation tab_str (suc depth) = indentation tab_str depth ++ tab_str

-- A character, and a line break with the indentation of a depth.
abbrev pub break_behind : Bytes → ℕ → ℕ → Bytes
break_behind tab_str c depth = c ∷ b'\n' ∷ indentation tab_str depth

-- The closing bracket on a line of its own.
abbrev pub last_line : Bytes → ℕ → ℕ → Bytes
last_line tab_str c depth = b'\n' ∷ (indentation tab_str depth ++ c ∷ [])

module _ (show_double : ℕ → Bytes) (tab_str : Bytes) where
  unfoldable mutual
    pub print_nice : ℕ → Var → Printed
    print_nice d blank = printed (codes "null")
    print_nice d (bool true) = printed (codes "true")
    print_nice d (bool false) = printed (codes "false")
    print_nice d (integer n) = printed (show_int n)
    print_nice d (float x) = printed (show_double x)
    print_nice d (string s) = printed (quoted_text s)
    print_nice d (array nil) = printed (codes "[]")
    print_nice d (array (cons x xs)) =
        map_printed (λ t. break_behind tab_str b'[' (suc d) ++ t)
          (join_printed (print_nice (suc d) x) (more_lines d xs))
    print_nice d (list nil) = printed (codes "[]")
    print_nice d (list (cons x xs)) =
        map_printed (λ t. break_behind tab_str b'[' (suc d) ++ t)
          (join_printed (print_nice (suc d) x) (more_lines d xs))
    print_nice d (dict none_left) = printed (codes "{}")
    print_nice d (dict (pair k v ps)) =
        map_printed (λ t. break_behind tab_str b'{' (suc d) ++ t)
          (join_printed (key_text k) (join_printed (print_nice (suc d) v) (more_entry_lines d ps)))
    print_nice d (set xs) = refused unsupported_variable_type

    -- The elements behind the first one, and the closing bracket.
    pub more_lines : ℕ → Vars → Printed
    more_lines d nil = printed (last_line tab_str b']' d)
    more_lines d (cons x xs) =
        map_printed (λ t. break_behind tab_str b',' (suc d) ++ t)
          (join_printed (print_nice (suc d) x) (more_lines d xs))

    pub more_entry_lines : ℕ → Pairs → Printed
    more_entry_lines d none_left = printed (last_line tab_str b'}' d)
    more_entry_lines d (pair k v ps) =
        map_printed (λ t. break_behind tab_str b',' (suc d) ++ t)
          (join_printed (key_text k) (join_printed (print_nice (suc d) v) (more_entry_lines d ps)))
