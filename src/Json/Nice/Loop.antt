-- ===== src/Json/Nice/Loop.antt =====
-- Steps of the loop of `create_nice` of lib/ccljson.cc: what comes behind a text, a value on top of
-- a container, an entry, and the closing bracket.
use cclib.Base.{ℕ, suc, false, List, [], ◌∷◌, ◌++◌, ◌≡◌, refl, ap, ◌∙◌, Bytes, append_assoc}
use cclib.Var.Value.{Var, Pairs, blank, bool, integer, float, string, array, set, list, dict, pair}
use cclib.Json.Create.{CreateElem, create_elem, Created}
use cclib.Json.Create.Printer.{Printed, printed, refused, map_printed, join_printed, key_text}
use cclib.Json.Create.Refines.{after, after-join, quote-quoted_text}
use cclib.Json.Nice.{
  Indent, pop_tab, put_indent, NiceStep, pushed, thrown, next_entry, type_round, create_nice_loop,
}
use cclib.Json.Nice.Printer.{indentation, break_behind, last_line}
use cclib.Json.Nice.Indentation.{IsIndent, put_indent-IsIndent, pop_tab-IsIndent}

after-map_printed :
    (k : Bytes → Created) (g : Bytes → Bytes) (p : Printed)
    → after (λ t. k (g t)) p ≡ after k (map_printed g p)
after-map_printed k g (printed t) = refl
after-map_printed k g (refused e) = refl

after-key :
    (r : Bytes → Created) (prefix t : Bytes) (q : Printed)
    → after r (map_printed (λ u. (prefix ++ t) ++ u) q)
      ≡ after r (map_printed (λ u. prefix ++ u) (join_printed (printed t) q))
after-key r prefix t (printed u) = ap r (append_assoc prefix t u)
after-key r prefix t (refused e) = refl

-- What the text of a key does to a frame.
abbrev pub keyed : CreateElem → Var → Bytes → Indent → Printed → NiceStep
keyed e v strbuf indent (printed t) = pushed e v (strbuf ++ t) indent
keyed e v strbuf indent (refused error) = thrown error

pub next_entry-keyed :
    (tab_str : Bytes) (e : CreateElem) (qs : Pairs) (k v : Var) (ps : Pairs) (strbuf : Bytes)
    (indent : Indent)
    → next_entry tab_str e qs (pair k v ps) strbuf indent
      ≡ keyed (record e { init = false; entries = ps }) v strbuf indent (key_text k)
unfolding next_entry
next_entry-keyed tab_str e qs blank v ps strbuf indent = refl
next_entry-keyed tab_str e qs (bool b) v ps strbuf indent = refl
next_entry-keyed tab_str e qs (integer n) v ps strbuf indent = refl
next_entry-keyed tab_str e qs (float d) v ps strbuf indent = refl
next_entry-keyed tab_str e qs (string s) v ps strbuf indent =
    rw (quote-quoted_text strbuf s, append_assoc)
next_entry-keyed tab_str e qs (array xs) v ps strbuf indent = refl
next_entry-keyed tab_str e qs (list xs) v ps strbuf indent = refl
next_entry-keyed tab_str e qs (set xs) v ps strbuf indent = refl
next_entry-keyed tab_str e qs (dict rs) v ps strbuf indent = refl

-- A line break and the indentation, behind a character.
put_indent-behind :
    (tab_str : Bytes) (d c : ℕ) (indent : Indent) (strbuf : Bytes)
    → IsIndent tab_str d indent
    → put_indent indent (strbuf ++ c ∷ []) ≡ strbuf ++ break_behind tab_str c d
put_indent-behind tab_str d c indent strbuf h =
    put_indent-IsIndent tab_str d indent (strbuf ++ c ∷ []) h
    ∙ append_assoc strbuf (c ∷ []) (b'\n' ∷ indentation tab_str d)

-- A line break, the indentation and a closing bracket.
put_indent-last :
    (tab_str : Bytes) (d c : ℕ) (indent : Indent) (strbuf : Bytes)
    → IsIndent tab_str d indent
    → put_indent indent strbuf ++ c ∷ [] ≡ strbuf ++ last_line tab_str c d
put_indent-last tab_str d c indent strbuf h =
    ap (λ t. t ++ c ∷ []) (put_indent-IsIndent tab_str d indent strbuf h)
    ∙ append_assoc strbuf (b'\n' ∷ indentation tab_str d) (c ∷ [])

module _ (show : ℕ → Bytes) (tab_str : Bytes) where
  pub create_nice_loop-keyed :
      (n : ℕ) (e e' : CreateElem) (stack : List CreateElem) (s s' : Bytes) (indent indent' : Indent)
      (v : Var) (p : Printed)
      → type_round show tab_str e e.var s indent ≡ keyed e' v s' indent' p
      → create_nice_loop show tab_str (suc n) (e ∷ stack) s indent
        ≡ after
            (λ t. create_nice_loop show tab_str n (create_elem v ∷ e' ∷ stack) (s' ++ t) indent')
            p
  unfolding create_nice_loop
  create_nice_loop-keyed n e e' stack s s' indent indent' v (printed t) h = rw (create_nice_loop, h)
  create_nice_loop-keyed n e e' stack s s' indent indent' v (refused error) h =
      rw (create_nice_loop, h)

  -- Behind a text, with an indentation of the depth `d`, the loop comes to `r` of the text.
  abbrev pub Continues : ℕ → List CreateElem → Bytes → ℕ → (Bytes → Created) → Type 0
  Continues f stack strbuf d r =
      (indent : Indent) (t : Bytes)
      → IsIndent tab_str d indent
      → create_nice_loop show tab_str f stack (strbuf ++ t) indent ≡ r t

  -- With the fuel `n`, the loop comes to what follows a printed text.
  abbrev pub Writes : ℕ → List CreateElem → ℕ → ℕ → List CreateElem → ℕ → Printed → Type 0
  Writes n top d f stack d' p =
      (strbuf : Bytes) (indent : Indent) (r : Bytes → Created)
      → IsIndent tab_str d indent
      → Continues f stack strbuf d' r
      → create_nice_loop show tab_str n top strbuf indent ≡ after r p

  Continues-append :
      (f : ℕ) (stack : List CreateElem) (strbuf prefix t : Bytes) (d : ℕ) (r : Bytes → Created)
      → Continues f stack strbuf d r
      → Continues f stack ((strbuf ++ prefix) ++ t) d (λ u. r ((prefix ++ t) ++ u))
  Continues-append f stack strbuf prefix t d r h indent u hi =
      let same : ((strbuf ++ prefix) ++ t) ++ u ≡ strbuf ++ ((prefix ++ t) ++ u) =
        simp append_assoc in
      ap (λ s. create_nice_loop show tab_str f stack s indent) same
      ∙ h indent ((prefix ++ t) ++ u) hi

  -- A value on top of a frame: a prefix, the text of the value, then that of the frame.
  create_nice_loop-join :
      (m n f d : ℕ) (e frame : CreateElem) (stack : List CreateElem) (p q : Printed)
      (prefix strbuf : Bytes) (indent : Indent) (r : Bytes → Created)
      → Writes m (e ∷ frame ∷ stack) (suc d) n (frame ∷ stack) (suc d) p
      → Writes n (frame ∷ stack) (suc d) f stack d q
      → IsIndent tab_str (suc d) indent
      → Continues f stack strbuf d r
      → create_nice_loop show tab_str m (e ∷ frame ∷ stack) (strbuf ++ prefix) indent
        ≡ after r (map_printed (λ t. prefix ++ t) (join_printed p q))
  create_nice_loop-join m n f d e frame stack p q prefix strbuf indent r first rest hi h =
      first (strbuf ++ prefix) indent (λ t. after (λ u. r ((prefix ++ t) ++ u)) q) hi
        (λ indent' t hi'.
          rest ((strbuf ++ prefix) ++ t) indent' (λ u. r ((prefix ++ t) ++ u)) hi'
            (Continues-append f stack strbuf prefix t d r h))
      ∙ after-join r prefix p q
      ∙ after-map_printed r (λ t. prefix ++ t) (join_printed p q)

  -- The same behind a character and a line break.
  pub create_nice_loop-line :
      (m n f d : ℕ) (e frame : CreateElem) (stack : List CreateElem) (p q : Printed) (c : ℕ)
      (strbuf : Bytes) (indent : Indent) (r : Bytes → Created)
      → Writes m (e ∷ frame ∷ stack) (suc d) n (frame ∷ stack) (suc d) p
      → Writes n (frame ∷ stack) (suc d) f stack d q
      → IsIndent tab_str (suc d) indent
      → Continues f stack strbuf d r
      → create_nice_loop show tab_str m
          (e ∷ frame ∷ stack)
          (put_indent indent (strbuf ++ c ∷ []))
          indent
        ≡ after r (map_printed (λ t. break_behind tab_str c (suc d) ++ t) (join_printed p q))
  create_nice_loop-line m n f d e frame stack p q c strbuf indent r first rest hi h =
      ap (λ s. create_nice_loop show tab_str m (e ∷ frame ∷ stack) s indent)
        (put_indent-behind tab_str (suc d) c indent strbuf hi)
      ∙ create_nice_loop-join m n f d e frame stack p q (break_behind tab_str c (suc d)) strbuf
          indent r first rest hi h

  -- The same for an entry: its key, then the value.
  pub create_nice_loop-entry :
      (m n f d : ℕ) (e frame : CreateElem) (stack : List CreateElem) (k p q : Printed) (c : ℕ)
      (strbuf : Bytes) (indent : Indent) (r : Bytes → Created)
      → Writes m (e ∷ frame ∷ stack) (suc d) n (frame ∷ stack) (suc d) p
      → Writes n (frame ∷ stack) (suc d) f stack d q
      → IsIndent tab_str (suc d) indent
      → Continues f stack strbuf d r
      → after
          (λ t.
            create_nice_loop show tab_str m
              (e ∷ frame ∷ stack)
              (put_indent indent (strbuf ++ c ∷ []) ++ t)
              indent)
          k
        ≡ after r (
            map_printed
              (λ t. break_behind tab_str c (suc d) ++ t)
              (join_printed k (join_printed p q)))
  create_nice_loop-entry m n f d e frame stack (refused error) p q c strbuf indent r first rest hi
        h =
      refl
  create_nice_loop-entry m n f d e frame stack (printed t) p q c strbuf indent r first rest hi h =
      let prefix = break_behind tab_str c (suc d) in
      ap (λ s. create_nice_loop show tab_str m (e ∷ frame ∷ stack) s indent)
        (ap (λ s. s ++ t) (put_indent-behind tab_str (suc d) c indent strbuf hi)
          ∙ append_assoc strbuf prefix t)
      ∙ create_nice_loop-join m n f d e frame stack p q (prefix ++ t) strbuf indent r first rest hi
          h
      ∙ after-key r prefix t (join_printed p q)

  -- The closing bracket.
  pub create_nice_loop-last :
      (f d c : ℕ) (stack : List CreateElem) (strbuf : Bytes) (indent : Indent) (r : Bytes → Created)
      → IsIndent tab_str (suc d) indent
      → Continues f stack strbuf d r
      → create_nice_loop show tab_str f stack
          (put_indent (pop_tab tab_str indent) strbuf ++ c ∷ [])
          (pop_tab tab_str indent)
        ≡ r (last_line tab_str c d)
  create_nice_loop-last f d c stack strbuf indent r hi h =
      let outer = pop_tab-IsIndent tab_str d indent hi in
      ap (λ s. create_nice_loop show tab_str f stack s (pop_tab tab_str indent))
        (put_indent-last tab_str d c (pop_tab tab_str indent) strbuf outer)
      ∙ h (pop_tab tab_str indent) (last_line tab_str c d) outer

  -- Two brackets with nothing between them.
  pub create_nice_loop-none :
      (f d b c : ℕ) (stack : List CreateElem) (strbuf : Bytes) (indent : Indent)
      (r : Bytes → Created)
      → IsIndent tab_str d indent
      → Continues f stack strbuf d r
      → create_nice_loop show tab_str f stack ((strbuf ++ b ∷ []) ++ c ∷ []) indent ≡ r (b ∷ c ∷ [])
  create_nice_loop-none f d b c stack strbuf indent r hi h =
      ap (λ s. create_nice_loop show tab_str f stack s indent)
        (append_assoc strbuf (b ∷ []) (c ∷ []))
      ∙ h indent (b ∷ c ∷ []) hi
