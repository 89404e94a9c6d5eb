-- ===== src/Sys/Descriptor.antt =====
-- `fd_c` of lib/cclsys.h and lib/cclsys.cc, over the system calls. A round of a loop takes a unit of
-- fuel.
pub mod Transfers
use cclib.Base.{
  ℕ, zero, suc, ◌+◌, ◌-◌, ◌%◌, ◌^◌, Bool, true, false, Option, none, some, List, [], ◌∷◌, ◌++◌,
  Bytes, length, take, drop, ltb, leb,
}
use cclib.Base.Int.{ℤ, pos, negsuc}
use cclib.Sys.Stream.{zeros, store}

-- What the system calls answer for an open descriptor, and the state of what is behind it: how many
-- bytes `write` took, or the bytes that `read` stored, and `none` for -1.
pub record Device (State : Type 0) : Type 0 where
  pub sys_write : Bytes → State → Option ℕ × State
  pub sys_read : ℕ → State → Option Bytes × State

-- error_FD_NOT_OPENED, error_FD_WRITE_ERROR, error_FD_READ_ERROR.
pub data Error : Type 0 where
  not_opened write_error read_error : Error

pub data Outcome (State A : Type 0) : Type 0 where
  done : A → State → Outcome State A
  thrown : Error → State → Outcome State A
  out_of_fuel : Outcome State A

module _ {State : Type 0} (device : Device State) where
  -- The `do … while` of `write`, behind what is written.
  unfoldable pub write_loop : ℕ → Bytes → ℕ → State → Outcome State Unit
  write_loop zero text writed s = out_of_fuel
  write_loop (suc fuel) text writed s =
      let (answer, t) = device.sys_write (drop writed text) s in
      elim answer [
        | none ↦ thrown write_error t
        | some cnt ↦ elim (ltb (writed + cnt) (length text)) [
          | true ↦ write_loop fuel text (writed + cnt) t
          | false ↦ done tt t
        ]
      ]

  -- A descriptor that is -1 is `false`.
  unfoldable pub fd_write : ℕ → Bytes → Bool → State → Outcome State Unit
  unfolding write_loop
  fd_write fuel text false s = thrown not_opened s
  fd_write fuel [] true s = done tt s
  fd_write fuel (c ∷ text) true s = write_loop fuel (c ∷ text) 0 s

  unfoldable pub fd_read_loop : ℕ → Bytes → State → Outcome State Bytes
  fd_read_loop zero result s = out_of_fuel
  fd_read_loop (suc fuel) result s =
      let (answer, t) = device.sys_read 1024 s in
      elim answer [
        | none ↦ thrown read_error t
        | some got ↦ elim (leb 1024 (length got)) [
          | true ↦ fd_read_loop fuel (store result got) t
          | false ↦ done (take (length (store result got) - 1024 + length got) (store result got)) t
        ]
      ]

  unfoldable pub fd_read : ℕ → Bool → State → Outcome State Bytes
  unfolding fd_read_loop
  fd_read fuel false s = thrown not_opened s
  fd_read fuel true s = fd_read_loop fuel [] s
