-- ===== src/Sys/Stream/Lines.antt =====
-- `readln` of lib/cclsys.cc, and what the C library documents for a stream that holds a text.
use cclib.Base.{
  ℕ, ◌-◌, ◌≡◌, refl, ap, ◌∙◌, arith, Bool, true, false, not, Option, none, some, [], ◌∷◌, ◌++◌,
  Bytes, length, take, drop, length-append, take-length-append, ◌==◌, All, ◌≢◌,
}
use cclib.Sys.Stream.{Stdio, opened, done, readln}

-- A line with its newline, or what is left where there is none, and the text behind it.
unfoldable pub take_line : Bytes → Bytes
take_line [] = []
take_line (c ∷ s) = elim (c == b'\n') [ true ↦ c ∷ [] | false ↦ c ∷ take_line s ]

unfoldable pub drop_line : Bytes → Bytes
drop_line [] = []
drop_line (c ∷ s) = elim (c == b'\n') [ true ↦ s | false ↦ drop_line s ]

unfoldable pub has_line : Bytes → Bool
has_line [] = false
has_line (c ∷ s) = elim (c == b'\n') [ true ↦ true | false ↦ has_line s ]

abbrev pub line_of : Bytes → Option Bytes
line_of [] = none
line_of (c ∷ s) = some (take_line (c ∷ s))

-- What the C library documents for streams that hold a text and have no errors: `fread` gives as many
-- bytes as it is asked for, or all that are left, and `getline` a line with its newline, or what is
-- left behind the last one; they leave the text behind what they gave, and the end is reached where
-- `getline` met no newline.
pub record HoldsText {File : Type 0} (io : Stdio File) (content : File → Bytes) : Type 0 where
  pub fread_takes : (n : ℕ) (f : File) → (io.fread n f).0 ≡ take n (content f)
  pub fread_drops : (n : ℕ) (f : File) → content (io.fread n f).1 ≡ drop n (content f)
  pub fread_fine : (n : ℕ) (f : File) → io.ferror (io.fread n f).1 ≡ false
  pub getline_takes : (f : File) → (io.getline f).0 ≡ line_of (content f)
  pub getline_drops : (f : File) → content (io.getline f).1 ≡ drop_line (content f)
  pub getline_fine : (f : File) → io.ferror (io.getline f).1 ≡ false
  pub getline_ends : (f : File) → io.feof (io.getline f).1 ≡ not (has_line (content f))

-- What a read of a line makes of a text: the line, whether the end is not reached, and the rest. The
-- last byte is lost where the text ends without a newline.
pub data Ahead : Bytes → Bytes → Bool → Bytes → Type 0 where
  at_end : Ahead [] [] false []
  at_line : {l s : Bytes} → All (λ c. c ≢ b'\n') l → Ahead (l ++ b'\n' ∷ s) l true s
  at_rest :
      {l : Bytes} (c : ℕ) → All (λ c. c ≢ b'\n') (l ++ c ∷ []) → Ahead (l ++ c ∷ []) l false []

newline-ne : (c : ℕ) → c ≢ b'\n' → (c == b'\n') ≡ false
newline-ne c h = ground arith

take_line-append :
    (l s : Bytes)
    → All (λ c. c ≢ b'\n') l
    → (take_line (l ++ b'\n' ∷ s) ≡ l ++ b'\n' ∷ [])
      × (drop_line (l ++ b'\n' ∷ s) ≡ s)
      × (has_line (l ++ b'\n' ∷ s) ≡ true)
unfolding take_line drop_line has_line
take_line-append [] s h = (refl, refl, refl)
take_line-append (c ∷ l) s (n, h) =
    let (t, d, b) = take_line-append l s h in
    (
      rw (newline-ne c n, take_line, t),
      rw (newline-ne c n, drop_line, d),
      rw (newline-ne c n, has_line, b),
    )

take_line-All :
    (s : Bytes)
    → All (λ c. c ≢ b'\n') s
    → (take_line s ≡ s) × (drop_line s ≡ []) × (has_line s ≡ false)
unfolding take_line drop_line has_line
take_line-All [] h = (refl, refl, refl)
take_line-All (c ∷ l) (n, h) =
    let (t, d, b) = take_line-All l h in
    (
      rw (newline-ne c n, take_line, t),
      rw (newline-ne c n, drop_line, d),
      rw (newline-ne c n, has_line, b),
    )

line_of-append :
    (l : Bytes) (c : ℕ) (s : Bytes) → line_of (l ++ c ∷ s) ≡ some (take_line (l ++ c ∷ s))
line_of-append [] c s = refl
line_of-append (b ∷ l) c s = refl

without_last : (l : Bytes) (c : ℕ) → take (length (l ++ c ∷ []) - 1) (l ++ c ∷ []) ≡ l
without_last l c =
    let size : length (l ++ c ∷ []) - 1 ≡ length l = omega (arith, length-append l (c ∷ [])) in
    ap (λ n. take n (l ++ c ∷ [])) size ∙ take-length-append l (c ∷ [])

not-not : (b : Bool) → not (not b) ≡ b
not-not true = refl
not-not false = refl

module _ {File : Type 0} (io : Stdio File) (content : File → Bytes)
    (law : HoldsText io content) where
  readln-some :
      (f : File) (s t : Bytes) (b : Bool)
      → content f ≡ s
      → line_of s ≡ some t
      → has_line s ≡ b
      → readln io (opened f) ≡ done (take (length t - 1) t, b) (opened (io.getline f).1)
  unfolding readln
  readln-some f s t b e h k =
      rw (law.getline_takes f, e, h, readln, law.getline_ends f, e, k)
        (ap (λ x. done (take (length t - 1) t, x) (opened (io.getline f).1)) (not-not b))

  content-getline :
      (f : File) (s rest : Bytes)
      → content f ≡ s
      → drop_line s ≡ rest
      → content (io.getline f).1 ≡ rest
  content-getline f s rest e d = law.getline_drops f ∙ ap drop_line e ∙ d

  -- Of a stream that holds a text, `readln` gives the next line without its newline, and that the end
  -- is not reached, and leaves what is behind the newline. Where no newline is left it gives the text
  -- that is left without its last byte, and that the end is reached.
  pub readln-Ahead :
      (f : File) (s l rest : Bytes) (b : Bool)
      → content f ≡ s
      → Ahead s l b rest
      → (readln io (opened f) ≡ done (l, b) (opened (io.getline f).1))
        × (content (io.getline f).1 ≡ rest)
  unfolding readln has_line drop_line
  readln-Ahead f s l rest b e at_end = (
    rw (law.getline_takes f, e, readln, law.getline_fine f, law.getline_ends f, e),
    content-getline f [] [] e refl,
  )
  readln-Ahead f s l rest b e (at_line {s = behind} h) =
      let (t, d, k) = take_line-append l behind h in
      (
        readln-some f s (l ++ b'\n' ∷ []) true e (line_of-append l b'\n' behind ∙ ap some t) k
            ∙ ap (λ x. done (x, true) (opened (io.getline f).1)) (without_last l b'\n'),
        content-getline f s behind e d,
      )
  readln-Ahead f s l rest b e (at_rest c h) =
      let (t, d, k) = take_line-All (l ++ c ∷ []) h in
      (
        readln-some f s (l ++ c ∷ []) false e (line_of-append l c [] ∙ ap some t) k
            ∙ ap (λ x. done (x, false) (opened (io.getline f).1)) (without_last l c),
        content-getline f s [] e d,
      )
