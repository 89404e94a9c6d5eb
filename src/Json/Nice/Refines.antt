-- ===== src/Json/Nice/Refines.antt =====
-- The loop of `create_nice` of lib/ccljson.cc writes what the printer by recursion writes.
use cclib.Base.{
  ℕ, suc, ◌+◌, Bool, true, false, List, [], ◌∷◌, ◌++◌, ◌≡◌, refl, ap, ◌∙◌, sym, Bytes, codes,
}
use cclib.Var.Value.{
  Var, Vars, Pairs, blank, bool, integer, float, string, array, set, list, dict, nil, cons,
  none_left, pair,
}
use cclib.Json.Create.{CreateElem, create_elem, text}
use cclib.Json.Create.Printer.{rounds, key_text, quoted_text}
use cclib.Json.Create.Fuel.{fuel_for, fuel_for_items, fuel_for_entries, fuel_for-rounds}
use cclib.Json.Create.Refines.{after, quote-quoted_text, items_frame, entries_frame}
use cclib.Json.Nice.{
  put_indent, push_tab, next_item, items_round, next_entry, entries_round, type_round,
  create_nice_loop, create_nice,
}
use cclib.Json.Nice.Printer.{print_nice, more_lines, more_entry_lines}
use cclib.Json.Nice.Indentation.{start-IsIndent, push_tab-IsIndent}
use cclib.Json.Nice.Loop.{
  next_entry-keyed, Writes, create_nice_loop-keyed, create_nice_loop-line, create_nice_loop-entry,
  create_nice_loop-last, create_nice_loop-none,
}

module _ (show : ℕ → Bytes) (tab_str : Bytes) where
  mutual
    unfolding create_nice_loop type_round items_round entries_round next_item next_entry print_nice
        fuel_for

    create_nice_loop-print :
        (v : Var) (d f : ℕ) (stack : List CreateElem)
        → Writes show tab_str
            (fuel_for v f)
            (create_elem v ∷ stack)
            d
            f
            stack
            d
            (print_nice show tab_str d v)
    create_nice_loop-print blank d f stack strbuf indent r hi h = h indent (codes "null") hi
    create_nice_loop-print (bool true) d f stack strbuf indent r hi h = h indent (codes "true") hi
    create_nice_loop-print (bool false) d f stack strbuf indent r hi h = h indent (codes "false") hi
    create_nice_loop-print (integer n) d f stack strbuf indent r hi h = h indent _ hi
    create_nice_loop-print (float x) d f stack strbuf indent r hi h = h indent (show x) hi
    create_nice_loop-print (string s) d f stack strbuf indent r hi h =
        ap (λ t. create_nice_loop show tab_str f stack t indent) (quote-quoted_text strbuf s)
        ∙ h indent (quoted_text s) hi
    create_nice_loop-print (array nil) d f stack strbuf indent r hi h =
        create_nice_loop-none show tab_str f d b'[' b']' stack strbuf indent r hi h
    create_nice_loop-print (array (cons x xs)) d f stack strbuf indent r hi h =
        let frame = items_frame true (cons x xs) xs in
        let n = suc (fuel_for_items xs f) in
        create_nice_loop-line show tab_str (fuel_for x n) n f d (create_elem x) frame stack
          (print_nice show tab_str (suc d) x) (more_lines show tab_str d xs) b'[' strbuf
          (push_tab tab_str indent) r (create_nice_loop-print x (suc d) n (frame ∷ stack))
          (more_items true x xs xs d f stack) (push_tab-IsIndent tab_str d indent hi) h
    create_nice_loop-print (list nil) d f stack strbuf indent r hi h =
        create_nice_loop-none show tab_str f d b'[' b']' stack strbuf indent r hi h
    create_nice_loop-print (list (cons x xs)) d f stack strbuf indent r hi h =
        let frame = items_frame false (cons x xs) xs in
        let n = suc (fuel_for_items xs f) in
        create_nice_loop-line show tab_str (fuel_for x n) n f d (create_elem x) frame stack
          (print_nice show tab_str (suc d) x) (more_lines show tab_str d xs) b'[' strbuf
          (push_tab tab_str indent) r (create_nice_loop-print x (suc d) n (frame ∷ stack))
          (more_items false x xs xs d f stack) (push_tab-IsIndent tab_str d indent hi) h
    create_nice_loop-print (dict none_left) d f stack strbuf indent r hi h =
        create_nice_loop-none show tab_str f d b'{' b'}' stack strbuf indent r hi h
    create_nice_loop-print (dict (pair k v ps)) d f stack strbuf indent r hi h =
        let e = create_elem (dict (pair k v ps)) in
        let frame = entries_frame (pair k v ps) ps in
        let n = suc (fuel_for_entries ps f) in
        let m = fuel_for v n in
        let s = put_indent (push_tab tab_str indent) (strbuf ++ b'{' ∷ []) in
        create_nice_loop-keyed show tab_str m e frame stack strbuf s indent
          (push_tab tab_str indent) v (key_text k)
          (next_entry-keyed tab_str e (pair k v ps) k v ps s (push_tab tab_str indent))
        ∙ create_nice_loop-entry show tab_str m n f d (create_elem v) frame stack (key_text k)
            (print_nice show tab_str (suc d) v) (more_entry_lines show tab_str d ps) b'{' strbuf
            (push_tab tab_str indent) r (create_nice_loop-print v (suc d) n (frame ∷ stack))
            (more_entries k v ps ps d f stack) (push_tab-IsIndent tab_str d indent hi) h
    create_nice_loop-print (set xs) d f stack strbuf indent r hi h = refl

    more_items :
        (b : Bool) (y : Var) (ys xs : Vars) (d f : ℕ) (stack : List CreateElem)
        → Writes show tab_str
            (suc (fuel_for_items xs f))
            (items_frame b (cons y ys) xs ∷ stack)
            (suc d)
            f
            stack
            d
            (more_lines show tab_str d xs)
    more_items true y ys nil d f stack strbuf indent r hi h =
        create_nice_loop-last show tab_str f d b']' stack strbuf indent r hi h
    more_items false y ys nil d f stack strbuf indent r hi h =
        create_nice_loop-last show tab_str f d b']' stack strbuf indent r hi h
    more_items true y ys (cons x xs) d f stack strbuf indent r hi h =
        let frame = items_frame true (cons y ys) xs in
        let n = suc (fuel_for_items xs f) in
        create_nice_loop-line show tab_str (fuel_for x n) n f d (create_elem x) frame stack
          (print_nice show tab_str (suc d) x) (more_lines show tab_str d xs) b',' strbuf indent r
          (create_nice_loop-print x (suc d) n (frame ∷ stack)) (more_items true y ys xs d f stack)
          hi h
    more_items false y ys (cons x xs) d f stack strbuf indent r hi h =
        let frame = items_frame false (cons y ys) xs in
        let n = suc (fuel_for_items xs f) in
        create_nice_loop-line show tab_str (fuel_for x n) n f d (create_elem x) frame stack
          (print_nice show tab_str (suc d) x) (more_lines show tab_str d xs) b',' strbuf indent r
          (create_nice_loop-print x (suc d) n (frame ∷ stack)) (more_items false y ys xs d f stack)
          hi h

    more_entries :
        (j w : Var) (qs ps : Pairs) (d f : ℕ) (stack : List CreateElem)
        → Writes show tab_str
            (suc (fuel_for_entries ps f))
            (entries_frame (pair j w qs) ps ∷ stack)
            (suc d)
            f
            stack
            d
            (more_entry_lines show tab_str d ps)
    more_entries j w qs none_left d f stack strbuf indent r hi h =
        create_nice_loop-last show tab_str f d b'}' stack strbuf indent r hi h
    more_entries j w qs (pair k v ps) d f stack strbuf indent r hi h =
        let e = entries_frame (pair j w qs) (pair k v ps) in
        let frame = entries_frame (pair j w qs) ps in
        let n = suc (fuel_for_entries ps f) in
        let m = fuel_for v n in
        let s = put_indent indent (strbuf ++ b',' ∷ []) in
        create_nice_loop-keyed show tab_str m e frame stack strbuf s indent indent v (key_text k)
          (next_entry-keyed tab_str e (pair j w qs) k v ps s indent)
        ∙ create_nice_loop-entry show tab_str m n f d (create_elem v) frame stack (key_text k)
            (print_nice show tab_str (suc d) v) (more_entry_lines show tab_str d ps) b',' strbuf
            indent r (create_nice_loop-print v (suc d) n (frame ∷ stack))
            (more_entries j w qs ps d f stack) hi h

  -- With a unit of fuel for each round that the value takes, or more, `create_nice` ends with the
  -- text that the printer by recursion writes, in which each element stands on a line of its own
  -- behind one tabulator for each container around it, and throws the first error where that
  -- printer refuses the value.
  pub create_nice-print :
      (v : Var) (f : ℕ)
      → create_nice show tab_str (rounds v + f) v ≡ after text (print_nice show tab_str 0 v)
  create_nice-print v f =
      unfold create_nice in
      ap
        (λ n.
          create_nice_loop show tab_str n (create_elem v ∷ []) []
            (record { buffer = []; size = 0 }))
        (sym (fuel_for-rounds v f))
      ∙ create_nice_loop-print v 0 f [] [] (record { buffer = []; size = 0 }) text
          (start-IsIndent tab_str) (λ indent t hi. unfold create_nice_loop in refl)
