-- ===== src/Json/Create/Refines.antt =====
-- The loop of `create` of lib/ccljson.cc writes what the printer by recursion writes.
use cclib.Base.{
  ℕ, suc, ◌+◌, Bool, true, false, List, [], ◌∷◌, ◌++◌, ◌≡◌, refl, ap, ◌∙◌, sym, Bytes, append_assoc,
}
use cclib.Var.Value.{
  Var, Vars, Pairs, blank, bool, integer, float, string, array, set, list, dict, nil, cons,
  none_left, pair,
}
use cclib.Json.Escape.{append_string-append}
use cclib.Json.Create.{
  CreateElem, create_elem, Step, pushed, thrown, quote, next_item, next_entry, items_round,
  entries_round, type_round, Created, text, failed, create_loop, create,
}
use cclib.Json.Create.Fuel.{fuel_for, fuel_for_items, fuel_for_entries, fuel_for-rounds}
use cclib.Json.Create.Printer.{
  Printed, printed, refused, map_printed, join_printed, quoted_text, key_text, print, print_items,
  print_more, print_entries, print_more_entries, rounds,
}

pub quote-quoted_text : (strbuf s : Bytes) → quote strbuf s ≡ strbuf ++ quoted_text s
quote-quoted_text strbuf s =
    rw (append_string-append (strbuf ++ b'"' ∷ []) s, append_assoc, append_assoc)

-- Goes on behind a text, or fails.
abbrev pub after : (Bytes → Created) → Printed → Created
after k (printed t) = k t
after k (refused e) = failed e

pub after-join :
    (k : Bytes → Created) (s : Bytes) (p q : Printed)
    → after (λ t. after (λ u. k ((s ++ t) ++ u)) q) p ≡ after (λ t. k (s ++ t)) (join_printed p q)
after-join k s (printed t) (printed u) = rw append_assoc
after-join k s (printed t) (refused e) = refl
after-join k s (refused e) q = refl

after-map :
    (k : Bytes → Created) (s : Bytes) (c : ℕ) (p : Printed)
    → after (λ t. k ((s ++ c ∷ []) ++ t)) p ≡ after (λ t. k (s ++ t)) (map_printed (λ t. c ∷ t) p)
after-map k s c (printed t) = rw append_assoc
after-map k s c (refused e) = refl

after-ap : (k l : Bytes → Created) (p : Printed) → ((t : Bytes) → k t ≡ l t) → after k p ≡ after l p
after-ap k l (printed t) h = h t
after-ap k l (refused e) h = refl

-- An array or a list.
abbrev pub sequence : Bool → Vars → Var
sequence true xs = array xs
sequence false xs = list xs

abbrev pub items_frame : Bool → Vars → Vars → CreateElem
items_frame b ys xs = record { var = sequence b ys; init = false; items = xs; entries = none_left }

abbrev pub entries_frame : Pairs → Pairs → CreateElem
entries_frame qs ps = record { var = dict qs; init = false; items = nil; entries = ps }

-- What the text of a key does to a frame.
abbrev keyed : CreateElem → Var → Bytes → Printed → Step
keyed e v strbuf (printed t) = pushed e v (strbuf ++ t)
keyed e v strbuf (refused error) = thrown error

next_entry-keyed :
    (e : CreateElem) (k v : Var) (ps : Pairs) (strbuf : Bytes)
    → next_entry e (pair k v ps) strbuf
      ≡ keyed (record e { init = false; entries = ps }) v strbuf (key_text k)
unfolding next_entry
next_entry-keyed e blank v ps strbuf = refl
next_entry-keyed e (bool b) v ps strbuf = refl
next_entry-keyed e (integer n) v ps strbuf = refl
next_entry-keyed e (float d) v ps strbuf = refl
next_entry-keyed e (string s) v ps strbuf = rw (quote-quoted_text strbuf s, append_assoc)
next_entry-keyed e (array xs) v ps strbuf = refl
next_entry-keyed e (list xs) v ps strbuf = refl
next_entry-keyed e (set xs) v ps strbuf = refl
next_entry-keyed e (dict qs) v ps strbuf = refl

module _ (show : ℕ → Bytes) where
  create_loop-keyed :
      (n : ℕ) (e e' : CreateElem) (stack : List CreateElem) (s s' : Bytes) (v : Var) (p : Printed)
      → type_round show e e.var s ≡ keyed e' v s' p
      → create_loop show (suc n) (e ∷ stack) s
        ≡ after (λ t. create_loop show n (create_elem v ∷ e' ∷ stack) (s' ++ t)) p
  unfolding create_loop
  create_loop-keyed n e e' stack s s' v (printed t) h = rw (create_loop, h)
  create_loop-keyed n e e' stack s s' v (refused error) h = rw (create_loop, h)

  -- A value on top of a frame: the text of the value, then that of the frame.
  create_loop-join :
      (v : Var) (n f : ℕ) (frame : CreateElem) (stack : List CreateElem) (strbuf : Bytes)
      (q : Printed)
      → create_loop show (fuel_for v n) (create_elem v ∷ frame ∷ stack) strbuf
        ≡ after (λ t. create_loop show n (frame ∷ stack) (strbuf ++ t)) (print show v)
      → ((s : Bytes)
          → create_loop show n (frame ∷ stack) s ≡ after (λ t. create_loop show f stack (s ++ t)) q)
      → create_loop show (fuel_for v n) (create_elem v ∷ frame ∷ stack) strbuf
        ≡ after (λ t. create_loop show f stack (strbuf ++ t)) (join_printed (print show v) q)
  create_loop-join v n f frame stack strbuf q first rest =
      first
      ∙ after-ap _ _ (print show v) (λ t. rest (strbuf ++ t))
      ∙ after-join (create_loop show f stack) strbuf (print show v) q

  mutual
    unfolding create_loop type_round items_round entries_round next_item next_entry print fuel_for

    create_loop-print :
        (v : Var) (f : ℕ) (stack : List CreateElem) (strbuf : Bytes)
        → create_loop show (fuel_for v f) (create_elem v ∷ stack) strbuf
          ≡ after (λ t. create_loop show f stack (strbuf ++ t)) (print show v)
    create_loop-print blank f stack strbuf = refl
    create_loop-print (bool true) f stack strbuf = refl
    create_loop-print (bool false) f stack strbuf = refl
    create_loop-print (integer n) f stack strbuf = refl
    create_loop-print (float d) f stack strbuf = refl
    create_loop-print (string s) f stack strbuf =
        ap (create_loop show f stack) (quote-quoted_text strbuf s)
    create_loop-print (array xs) f stack strbuf =
        first_items true xs f stack strbuf
        ∙ after-map (create_loop show f stack) strbuf b'[' (print_items show xs)
    create_loop-print (list xs) f stack strbuf =
        first_items false xs f stack strbuf
        ∙ after-map (create_loop show f stack) strbuf b'[' (print_items show xs)
    create_loop-print (dict ps) f stack strbuf =
        first_entries ps f stack strbuf
        ∙ after-map (create_loop show f stack) strbuf b'{' (print_entries show ps)
    create_loop-print (set xs) f stack strbuf = refl

    first_items :
        (b : Bool) (xs : Vars) (f : ℕ) (stack : List CreateElem) (strbuf : Bytes)
        → create_loop show (suc (fuel_for_items xs f)) (create_elem (sequence b xs) ∷ stack) strbuf
          ≡ after (λ t. create_loop show f stack ((strbuf ++ b'[' ∷ []) ++ t)) (print_items show xs)
    first_items true nil f stack strbuf = refl
    first_items false nil f stack strbuf = refl
    first_items true (cons x xs) f stack strbuf =
        create_loop-join x (suc (fuel_for_items xs f)) f (items_frame true (cons x xs) xs) stack
          (strbuf ++ b'[' ∷ []) (print_more show xs)
          (create_loop-print x (suc (fuel_for_items xs f)) (items_frame true (cons x xs) xs ∷ stack)
            (strbuf ++ b'[' ∷ []))
          (λ s. more_items true (cons x xs) xs f stack s)
    first_items false (cons x xs) f stack strbuf =
        create_loop-join x (suc (fuel_for_items xs f)) f (items_frame false (cons x xs) xs) stack
          (strbuf ++ b'[' ∷ []) (print_more show xs)
          (create_loop-print x (suc (fuel_for_items xs f))
            (items_frame false (cons x xs) xs ∷ stack) (strbuf ++ b'[' ∷ []))
          (λ s. more_items false (cons x xs) xs f stack s)

    more_items :
        (b : Bool) (ys xs : Vars) (f : ℕ) (stack : List CreateElem) (strbuf : Bytes)
        → create_loop show (suc (fuel_for_items xs f)) (items_frame b ys xs ∷ stack) strbuf
          ≡ after (λ t. create_loop show f stack (strbuf ++ t)) (print_more show xs)
    more_items true ys nil f stack strbuf = refl
    more_items false ys nil f stack strbuf = refl
    more_items true ys (cons x xs) f stack strbuf =
        create_loop-join x (suc (fuel_for_items xs f)) f (items_frame true ys xs) stack
          (strbuf ++ b',' ∷ []) (print_more show xs)
          (create_loop-print x (suc (fuel_for_items xs f)) (items_frame true ys xs ∷ stack)
            (strbuf ++ b',' ∷ []))
          (λ s. more_items true ys xs f stack s)
        ∙ after-map (create_loop show f stack) strbuf b','
            (join_printed (print show x) (print_more show xs))
    more_items false ys (cons x xs) f stack strbuf =
        create_loop-join x (suc (fuel_for_items xs f)) f (items_frame false ys xs) stack
          (strbuf ++ b',' ∷ []) (print_more show xs)
          (create_loop-print x (suc (fuel_for_items xs f)) (items_frame false ys xs ∷ stack)
            (strbuf ++ b',' ∷ []))
          (λ s. more_items false ys xs f stack s)
        ∙ after-map (create_loop show f stack) strbuf b','
            (join_printed (print show x) (print_more show xs))

    first_entries :
        (ps : Pairs) (f : ℕ) (stack : List CreateElem) (strbuf : Bytes)
        → create_loop show (suc (fuel_for_entries ps f)) (create_elem (dict ps) ∷ stack) strbuf
          ≡ after
              (λ t. create_loop show f stack ((strbuf ++ b'{' ∷ []) ++ t))
              (print_entries show ps)
    first_entries none_left f stack strbuf = refl
    first_entries (pair k v ps) f stack strbuf =
        let e = create_elem (dict (pair k v ps)) in
        let s = strbuf ++ b'{' ∷ [] in
        create_loop-keyed _ e (entries_frame (pair k v ps) ps) stack strbuf s v (key_text k)
          (next_entry-keyed e k v ps s)
        ∙ after-ap _ _ (key_text k) (λ t.
          create_loop-join v (suc (fuel_for_entries ps f)) f (entries_frame (pair k v ps) ps) stack
            (s ++ t) (print_more_entries show ps)
            (create_loop-print v (suc (fuel_for_entries ps f))
              (entries_frame (pair k v ps) ps ∷ stack) (s ++ t))
            (λ u. more_entries (pair k v ps) ps f stack u))
        ∙ after-join (create_loop show f stack) s (key_text k)
            (join_printed (print show v) (print_more_entries show ps))

    more_entries :
        (qs ps : Pairs) (f : ℕ) (stack : List CreateElem) (strbuf : Bytes)
        → create_loop show (suc (fuel_for_entries ps f)) (entries_frame qs ps ∷ stack) strbuf
          ≡ after (λ t. create_loop show f stack (strbuf ++ t)) (print_more_entries show ps)
    more_entries qs none_left f stack strbuf = refl
    more_entries qs (pair k v ps) f stack strbuf =
        let e = entries_frame qs (pair k v ps) in
        let s = strbuf ++ b',' ∷ [] in
        create_loop-keyed _ e (entries_frame qs ps) stack strbuf s v (key_text k)
          (next_entry-keyed e k v ps s)
        ∙ after-ap _ _ (key_text k) (λ t.
          create_loop-join v (suc (fuel_for_entries ps f)) f (entries_frame qs ps) stack (s ++ t)
            (print_more_entries show ps)
            (create_loop-print v (suc (fuel_for_entries ps f)) (entries_frame qs ps ∷ stack)
              (s ++ t))
            (λ u. more_entries qs ps f stack u))
        ∙ after-join (create_loop show f stack) s (key_text k)
            (join_printed (print show v) (print_more_entries show ps))
        ∙ after-map (create_loop show f stack) strbuf b','
            (join_printed (key_text k) (join_printed (print show v) (print_more_entries show ps)))

  -- With a unit of fuel for each round that the value takes, or more, `create` ends with the text
  -- that the printer by recursion writes, and throws the first error where that refuses the value.
  pub create-print : (v : Var) (f : ℕ) → create show (rounds v + f) v ≡ after text (print show v)
  unfolding create
  create-print v f =
      ap (λ n. create_loop show n (create_elem v ∷ []) []) (sym (fuel_for-rounds v f))
      ∙ create_loop-print v f [] []
      ∙ after-ap _ _ (print show v) (λ t. unfold create_loop in refl)
