-- ===== src/Sys/Descriptor/Transfers.antt =====
-- What `fd_c` of lib/cclsys.cc transfers, whatever the sizes of the transfers are.
use cclib.Sys.Stream.{store}
use cclib.Sys.Stream.Reads.{kept-short, store-full}
use cclib.Base.{
  ◌*◌, take-take-drop, ℕ, zero, suc, ◌+◌, ◌<◌, ◌≤◌, ◌≡◌, ◌≢◌, refl, sym, ap, ◌∙◌, arith, true, none,
  some, Option-cases, [], ◌∷◌, ◌++◌, append_assoc, append-nil, Bytes, length, take, drop,
  length-drop, take_all, ltb, Bool-cases, inl, inr, leb,
}
use cclib.Sys.Descriptor.{
  Device, write_error, Outcome, done, thrown, out_of_fuel, write_loop, fd_write, read_error,
  fd_read_loop, fd_read,
}

-- What the system documents: a write takes at most the bytes that it is given, and at least one where
-- there is one, and appends what it takes to what was taken before; one that fails takes nothing.
pub record IsSink {State : Type 0} (device : Device State) (taken : State → Bytes) : Type 0 where
  pub fails :
      (text : Bytes) (s : State)
      → (device.sys_write text s).0 ≡ none
      → taken (device.sys_write text s).1 ≡ taken s
  pub takes :
      (text : Bytes) (s : State) (cnt : ℕ)
      → (device.sys_write text s).0 ≡ some cnt
      → (cnt ≤ length text)
        × (text ≢ [] → 0 < cnt)
        × (taken (device.sys_write text s).1 ≡ taken s ++ take cnt text)

module _ {State : Type 0} (device : Device State) (taken : State → Bytes)
    (law : IsSink device taken) where
  -- All of the text is taken, or the call fails, and then a part from its begin.
  abbrev pub Writes : Bytes → Bytes → Outcome State Unit → Type 0
  Writes before text (done u t) = taken t ≡ before ++ text
  Writes before text (thrown e t) =
      (e ≡ write_error) × ((n : ℕ) × (n < length text) × (taken t ≡ before ++ take n text))
  Writes before text out_of_fuel = ⊥

  left_over : (text : Bytes) (writed : ℕ) → writed < length text → drop writed text ≢ []
  left_over text writed lt e = absurd (omega (arith, length-drop writed text, ap length e))

  -- One answer more is appended to what was taken.
  taken-more :
      (before text : Bytes) (writed cnt : ℕ) (s : State)
      → (device.sys_write (drop writed text) s).0 ≡ some cnt
      → taken s ≡ before ++ take writed text
      → taken (device.sys_write (drop writed text) s).1 ≡ before ++ take (writed + cnt) text
  taken-more before text writed cnt s n e =
      (law.takes (drop writed text) s cnt n).2
      ∙ ap (λ t. t ++ take cnt (drop writed text)) e
      ∙ append_assoc before (take writed text) (take cnt (drop writed text))
      ∙ ap (λ t. before ++ t) (take-take-drop writed cnt text)

  write_loop-Writes :
      (fuel : ℕ) (before text : Bytes) (writed : ℕ) (s : State)
      → writed < length text
      → length text ≤ writed + fuel
      → taken s ≡ before ++ take writed text
      → Writes before text (write_loop device fuel text writed s)
  unfolding write_loop
  write_loop-Writes zero before text writed s lt h e = absurd (omega arith)
  write_loop-Writes (suc fuel) before text writed s lt h e =
      elim (Option-cases (device.sys_write (drop writed text) s).0) [
        | inl n ↦ rw (n, write_loop) (refl, (writed, lt, law.fails (drop writed text) s n ∙ e))
        | inr (cnt, n) ↦
            let (le, pos_cnt, more) = law.takes (drop writed text) s cnt n in
            let some_cnt : 0 < cnt = pos_cnt (left_over text writed lt) in
            elim (Bool-cases (ltb (writed + cnt) (length text))) [
              | inl b ↦
                  rw (n, write_loop, b)
                    (write_loop-Writes fuel before text (writed + cnt)
                      (device.sys_write (drop writed text) s).1 (ground (arith, b)) (omega arith)
                      (taken-more before text writed cnt s n e))
              | inr b ↦
                  rw (n, write_loop, b)
                    (taken-more before text writed cnt s n e
                      ∙ ap (λ t. before ++ t) (take_all (writed + cnt) text (ground (arith, b))))
            ]
      ]

  -- Whatever parts the system takes at a time, `write` ends within a round for each byte, and all of
  -- the text is taken, in order and once; or it throws the write error, and a proper part from the
  -- begin of the text is taken.
  pub fd_write-Writes :
      (fuel : ℕ) (text : Bytes) (s : State)
      → length text ≤ fuel
      → Writes (taken s) text (fd_write device fuel text true s)
  unfolding fd_write
  fd_write-Writes fuel [] s h = sym (append-nil (taken s))
  fd_write-Writes fuel (c ∷ text) s h =
      write_loop-Writes fuel (taken s) (c ∷ text) 0 s (omega arith) (omega arith)
        (sym (append-nil (taken s)))

-- What the system documents: a read gives at most as many bytes as it is asked for; `given` is what
-- was given, and `left` a bound on the bytes that are to come.
pub record IsSource {State : Type 0} (device : Device State) (given : State → Bytes)
    (left : State → ℕ) : Type 0 where
  pub gives :
      (n : ℕ) (s : State) (got : Bytes)
      → (device.sys_read n s).0 ≡ some got
      → (length got ≤ n)
        × (given (device.sys_read n s).1 ≡ given s ++ got)
        × (left (device.sys_read n s).1 + length got ≤ left s)

module _ {State : Type 0} (device : Device State) (given : State → Bytes) (left : State → ℕ)
    (law : IsSource device given left) where
  -- All that was given meanwhile is the result, or the call fails.
  abbrev pub Reads : Bytes → Outcome State Bytes → Type 0
  Reads before (done result t) = given t ≡ before ++ result
  Reads before (thrown e t) = e ≡ read_error
  Reads before out_of_fuel = ⊥

  fd_read_loop-Reads :
      (fuel : ℕ) (before result : Bytes) (s : State)
      → left s < fuel * 1024
      → given s ≡ before ++ result
      → Reads before (fd_read_loop device fuel result s)
  unfolding fd_read_loop
  fd_read_loop-Reads zero before result s h e = absurd (omega arith)
  fd_read_loop-Reads (suc fuel) before result s h e =
      elim (Option-cases (device.sys_read 1024 s).0) [
        | inl n ↦ rw (n, fd_read_loop) refl
        | inr (got, n) ↦
            let t = (device.sys_read 1024 s).1 in
            let (le, more, fewer) = law.gives 1024 s got n in
            let all_given : given t ≡ before ++ (result ++ got) =
              more ∙ ap (λ r. r ++ got) e ∙ append_assoc before result got in
            elim (Bool-cases (leb 1024 (length got))) [
              | inl b ↦
                  let size : length got ≡ 1024 = ground (arith, b) in
                  rw (n, fd_read_loop, b)
                    (fd_read_loop-Reads fuel before (store result got) t (omega arith)
                      (all_given ∙ ap (λ r. before ++ r) (sym (store-full result got size))))
              | inr b ↦
                  rw (n, fd_read_loop, b)
                    (all_given ∙ ap (λ r. before ++ r) (sym (kept-short result got le)))
            ]
      ]

  -- Where only so many bytes are to come, `read` ends, and its result is what was given meanwhile; or
  -- it throws the read error.
  pub fd_read-Reads :
      (fuel : ℕ) (s : State) → left s < fuel * 1024 → Reads (given s) (fd_read device fuel true s)
  unfolding fd_read
  fd_read-Reads fuel s h = fd_read_loop-Reads fuel (given s) [] s h (sym (append-nil (given s)))
