-- ===== src/Sys/Stream/Reads.antt =====
-- `read` of lib/cclsys.cc, from a stream that holds a text.
use Prim.Native.Nat.{min}
use cclib.Base.{
  length-drop, ℕ, zero, suc, ◌+◌, ◌-◌, ◌*◌, ◌<◌, ◌≤◌, ◌≡◌, refl, sym, ap, ◌∙◌, arith, true, false,
  [], ◌∷◌, ◌++◌, append_assoc, append-nil, Bytes, length, take, length-append, length-take,
  take-append-drop, take-length-append, leb, Bool-cases, inl, inr,
}
use cclib.Sys.Stream.{
  Stdio, opened, done, zeros, store, read_loop, file_read_close, read, file_close, null, then_close,
}
use cclib.Sys.Stream.Lines.{HoldsText}

length-zeros : (n : ℕ) → length (zeros n) ≡ n
length-zeros zero = refl
length-zeros (suc n) = omega (arith, length-zeros n)

-- What `read` keeps of its buffer.
abbrev pub kept : Bytes → Bytes → Bytes
kept result got = take (length (store result got) - 1024 + length got) (store result got)

pub kept-short : (result got : Bytes) → length got ≤ 1024 → kept result got ≡ result ++ got
kept-short result got h =
    let pad = zeros (1024 - length got) in
    let size : length ((result ++ got) ++ pad) - 1024 + length got ≡ length (result ++ got) =
      omega (
        arith,
        length-append result got,
        length-append (result ++ got) pad,
        length-zeros (1024 - length got),
      ) in
    ap (λ n. take n ((result ++ got) ++ pad)) size ∙ take-length-append (result ++ got) pad

nil-length : (s : Bytes) → length s ≡ 0 → s ≡ []
nil-length [] h = refl
nil-length (c ∷ s) h = absurd (omega (arith, h))

pub store-full : (result got : Bytes) → length got ≡ 1024 → store result got ≡ result ++ got
store-full result got h =
    let none_left : 1024 - length got ≡ 0 = omega arith in
    ap (λ n. result ++ got ++ zeros n) none_left ∙ simp append-nil

module _ {File : Type 0} (io : Stdio File) (content : File → Bytes)
    (law : HoldsText io content) where
  length-fread : (f : File) → length (io.fread 1024 f).0 ≡ min 1024 (length (content f))
  length-fread f = ap length (law.fread_takes 1024 f) ∙ length-take 1024 (content f)

  length-fread_rest : (f : File) → length (content (io.fread 1024 f).1) ≡ length (content f) - 1024
  length-fread_rest f = ap length (law.fread_drops 1024 f) ∙ length-drop 1024 (content f)

  fread-content : (f : File) → (io.fread 1024 f).0 ++ content (io.fread 1024 f).1 ≡ content f
  fread-content f =
      rw (law.fread_takes 1024 f, law.fread_drops 1024 f) (take-append-drop 1024 (content f))

  -- The stream is read to its end, behind what is read already.
  ReadsAll : ℕ → Bytes → File → Type 0
  ReadsAll fuel result f =
      (g : File) × (read_loop io fuel result f ≡ done (result ++ content f) (opened g))
      × (content g ≡ [])

  ReadsAll-full :
      (fuel : ℕ) (result : Bytes) (f : File)
      → leb 1024 (length (io.fread 1024 f).0) ≡ true
      → ReadsAll fuel (store result (io.fread 1024 f).0) (io.fread 1024 f).1
      → ReadsAll (suc fuel) result f
  unfolding read_loop ReadsAll
  ReadsAll-full fuel result f full (k, r, c) =
      let got = (io.fread 1024 f).0 in
      let rest = content (io.fread 1024 f).1 in
      let size : length got ≡ 1024 = ground (arith, length-fread f, full) in
      let whole : store result got ++ rest ≡ result ++ content f =
        ap (λ s. s ++ rest) (store-full result got size)
        ∙ append_assoc result got rest
        ∙ ap (λ s. result ++ s) (fread-content f) in
      (k, rw (full, read_loop) (r ∙ ap (λ s. done s (opened k)) whole), c)

  ReadsAll-short :
      (fuel : ℕ) (result : Bytes) (f : File)
      → leb 1024 (length (io.fread 1024 f).0) ≡ false
      → ReadsAll (suc fuel) result f
  unfolding read_loop ReadsAll
  ReadsAll-short fuel result f short =
      let got = (io.fread 1024 f).0 in
      let rest : content (io.fread 1024 f).1 ≡ [] =
        nil-length _ (ground (arith, length-fread f, length-fread_rest f, short)) in
      let whole : kept result got ≡ result ++ content f =
        kept-short result got (ground (arith, short))
        ∙ ap (λ s. result ++ s)
            (sym (append-nil got) ∙ ap (λ s. got ++ s) (sym rest) ∙ fread-content f) in
      (
        (io.fread 1024 f).1,
        rw (short, law.fread_fine 1024 f, read_loop)
            (ap (λ s. done s (opened (io.fread 1024 f).1)) whole),
        rest,
      )

  read_loop-content :
      (fuel : ℕ) (result : Bytes) (f : File)
      → length (content f) < fuel * 1024
      → ReadsAll fuel result f
  read_loop-content zero result f h = absurd (omega arith)
  read_loop-content (suc fuel) result f h =
      elim (Bool-cases (leb 1024 (length (io.fread 1024 f).0))) [
        | inl full ↦ ReadsAll-full fuel result f full (
            read_loop-content fuel (store result (io.fread 1024 f).0) (io.fread 1024 f).1
              (ground (arith, length-fread f, length-fread_rest f, full)))
        | inr short ↦ ReadsAll-short fuel result f short
      ]

  -- With fuel for each 1024 bytes of the text and one more round, and a C library that closes the
  -- stream, reading a stream to its end gives the whole text, and closes it.
  pub file_read_close-content :
      (fuel : ℕ) (f : File)
      → ((g : File) → io.fclose g ≡ true)
      → length (content f) < fuel * 1024
      → file_read_close io fuel (opened f) ≡ done (content f) null
  unfolding file_read_close read file_close ReadsAll
  file_read_close-content fuel f closes h =
      let (g, r, c) = read_loop-content fuel [] f h in
      ap (then_close (file_close io)) r ∙ rw (closes g, then_close, file_close)
