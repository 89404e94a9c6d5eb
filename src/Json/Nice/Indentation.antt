-- ===== src/Json/Nice/Indentation.antt =====
-- The indentation of `create_nice` of lib/ccljson.cc: what `indent_buffer` and `indent_size` hold.
use cclib.Base.{
  Bool, true, false, if◌then◌else◌, ℕ, zero, suc, ◌+◌, ◌≤◌, ◌≡◌, refl, ap, sym, ◌∙◌, arith, [], ◌∷◌,
  ◌++◌, Bytes, length, take, ltb, length-append, take-length-append, append-nil, append_assoc,
  ltb→lt,
}
use cclib.Json.Nice.{Indent, push_tab, pop_tab, put_indent}
use cclib.Json.Nice.Printer.{indentation}

-- The buffer holds the tabulators of some depth, and the size is that of the tabulators of depth
-- `d`, which is not deeper.
abbrev pub IsIndent : Bytes → ℕ → Indent → Type 0
IsIndent tab_str d indent =
    (n : ℕ) × (indent.buffer ≡ indentation tab_str (n + d))
    × (indent.size ≡ length (indentation tab_str d))

indentation-prefix :
    (tab_str : Bytes) (n d : ℕ)
    → (rest : Bytes) × (indentation tab_str (n + d) ≡ indentation tab_str d ++ rest)
unfolding indentation
indentation-prefix tab_str zero d =
    let same : 0 + d ≡ d = omega arith in
    ([], ap (indentation tab_str) same ∙ sym (append-nil (indentation tab_str d)))
indentation-prefix tab_str (suc n) d =
    let (rest, e) = indentation-prefix tab_str n d in
    let next : suc n + d ≡ suc (n + d) = omega arith in
    (
      rest ++ tab_str,
      ap (indentation tab_str) next
          ∙ ap (λ t. t ++ tab_str) e
          ∙ append_assoc (indentation tab_str d) rest tab_str,
    )

pub put_indent-IsIndent :
    (tab_str : Bytes) (d : ℕ) (indent : Indent) (strbuf : Bytes)
    → IsIndent tab_str d indent
    → put_indent indent strbuf ≡ strbuf ++ b'\n' ∷ indentation tab_str d
put_indent-IsIndent tab_str d indent strbuf (n, buffer, size) =
    let (rest, e) = indentation-prefix tab_str n d in
    ap (λ t. strbuf ++ b'\n' ∷ t)
      (ap (λ t. take t indent.buffer) size
        ∙ ap (take (length (indentation tab_str d))) (buffer ∙ e)
        ∙ take-length-append (indentation tab_str d) rest)

pub pop_tab-IsIndent :
    (tab_str : Bytes) (d : ℕ) (indent : Indent)
    → IsIndent tab_str (suc d) indent
    → IsIndent tab_str d (pop_tab tab_str indent)
unfolding indentation
pop_tab-IsIndent tab_str d indent (n, buffer, size) =
    let depth : n + suc d ≡ suc n + d = omega arith in
    (
      suc n,
      buffer ∙ ap (indentation tab_str) depth,
      omega (arith, size, length-append (indentation tab_str d) tab_str),
    )

-- The buffer behind a push, whether or not it has to grow.
grown :
    (tab_str : Bytes) (n d : ℕ) (b : Bool)
    → ltb (length (indentation tab_str (n + d))) (length (indentation tab_str d) + length tab_str)
      ≡ b
    → (m : ℕ) × ((if b then indentation tab_str (n + d) ++ tab_str else indentation tab_str (n + d))
        ≡ indentation tab_str (m + suc d))
unfolding indentation
grown tab_str zero d true h =
    let same : 0 + d ≡ d = omega arith in
    let next : 0 + suc d ≡ suc d = omega arith in
    (0, ap (λ m. indentation tab_str m ++ tab_str) same ∙ sym (ap (indentation tab_str) next))
grown [] zero d false h =
    let same : 0 + d ≡ d = omega arith in
    let next : 0 + suc d ≡ suc d = omega arith in
    (
      0,
      ap (indentation []) same
          ∙ sym (append-nil (indentation [] d))
          ∙ sym (ap (indentation []) next),
    )
grown (c ∷ tab_str) zero d false h =
    let same : 0 + d ≡ d = omega arith in
    let size = ap (λ m. length (indentation (c ∷ tab_str) m)) same in
    absurd (ground (arith, h, size))
grown tab_str (suc n) d true h =
    let depth : suc n + d ≡ n + suc d = omega arith in
    let (rest, e) = indentation-prefix tab_str n (suc d) in
    absurd (
      omega (
        arith,
        ltb→lt _ _ h,
        ap (λ m. length (indentation tab_str m)) depth,
        ap length e,
        length-append (indentation tab_str d ++ tab_str) rest,
        length-append (indentation tab_str d) tab_str,
      ))
grown tab_str (suc n) d false h =
    let depth : suc n + d ≡ n + suc d = omega arith in (n, ap (indentation tab_str) depth)

pub push_tab-IsIndent :
    (tab_str : Bytes) (d : ℕ) (indent : Indent)
    → IsIndent tab_str d indent
    → IsIndent tab_str (suc d) (push_tab tab_str indent)
push_tab-IsIndent tab_str d indent (n, buffer, size) =
    let (m, e) = grown tab_str n d _ refl in
    (
      m,
      ap
            (λ s.
              if ltb (length indent.buffer) (s + length tab_str)
              then indent.buffer ++ tab_str
              else indent.buffer)
            size
          ∙ ap
              (λ t.
                if ltb (length t) (length (indentation tab_str d) + length tab_str)
                then t ++ tab_str
                else t)
              buffer
          ∙ e,
      (unfold indentation in omega (arith, size, length-append (indentation tab_str d) tab_str)),
    )

pub start-IsIndent : (tab_str : Bytes) → IsIndent tab_str 0 (record { buffer = []; size = 0 })
unfolding indentation
start-IsIndent tab_str = (0, refl, refl)

IsIndent-fits :
    (tab_str : Bytes) (d : ℕ) (indent : Indent)
    → IsIndent tab_str d indent
    → indent.size ≤ length indent.buffer
IsIndent-fits tab_str d indent (n, buffer, size) =
    let (rest, e) = indentation-prefix tab_str n d in
    omega (arith, size, ap length (buffer ∙ e), length-append (indentation tab_str d) rest)

-- Where the buffer holds the tabulators of some depth, it still does when a tabulator is pushed; the
-- buffer then has the bytes that a line break writes of it, and a pop gives the old size back.
pub push_tab-fits :
    (tab_str : Bytes) (d : ℕ) (indent : Indent)
    → IsIndent tab_str d indent
    → IsIndent tab_str (suc d) (push_tab tab_str indent)
      × ((push_tab tab_str indent).size ≤ length (push_tab tab_str indent).buffer)
      × ((pop_tab tab_str (push_tab tab_str indent)).size ≡ indent.size)
push_tab-fits tab_str d indent h =
    let deeper = push_tab-IsIndent tab_str d indent h in
    (deeper, IsIndent-fits tab_str (suc d) (push_tab tab_str indent) deeper, omega arith)
