-- ===== src/Sys/Stream.antt =====
-- `stream_c`, `pipe_c` and `file_c` of lib/cclsys.h and lib/cclsys.cc, over the streams of the C
-- library. A round of the loop of `read` takes a unit of fuel.
pub mod Lines
pub mod Reads
use cclib.Base.{
  ℕ, zero, suc, ◌+◌, ◌-◌, Bool, true, false, not, Option, none, some, List, [], ◌∷◌, ◌++◌, Bytes,
  length, take, leb, ltb, ◌==◌,
}
use cclib.Base.Int.{ℤ, pos, negsuc}

-- What the C library gives for a `FILE`: what a call answers, and the stream behind it. `fread` and
-- `getline` give the bytes that they store, `getline` none for -1; the other calls give whether they
-- succeed, and `fclose` and `pclose` leave no stream.
pub record Stdio (File : Type 0) : Type 0 where
  pub fread : ℕ → File → Bytes × File
  pub fwrite : Bytes → File → ℕ × File
  pub getline : File → Option Bytes × File
  pub fflush : File → Bool × File
  pub fseek : ℤ → ℕ → File → Bool × File
  pub ftell : File → ℤ × File
  pub ferror : File → Bool
  pub feof : File → Bool
  pub fileno : File → ℤ
  pub fclose : File → Bool
  pub pclose : File → Bool

pub data Error : Type 0 where
  stream_not_opened stream_write_error stream_flush_error stream_read_error : Error
  pipe_open_error pipe_not_opened pipe_close_error : Error
  file_open_error file_not_opened file_seek_error file_tell_error file_close_error : Error

-- `m_file`: null, a stream, or the pointer to a stream that is closed.
pub data Handle (File : Type 0) : Type 0 where
  null dangling : Handle File
  opened : File → Handle File

-- How a method ends; `fault` is a use of a closed stream.
pub data Outcome (File A : Type 0) : Type 0 where
  done : A → Handle File → Outcome File A
  thrown : Error → Handle File → Outcome File A
  fault out_of_fuel : Outcome File A

-- `resize` by `c_buffer_add`, 1024, and what `fread` stores there.
abbrev pub zeros : ℕ → Bytes
zeros zero = []
zeros (suc n) = 0 ∷ zeros n

abbrev pub store : Bytes → Bytes → Bytes
store result got = result ++ got ++ zeros (1024 - length got)

module _ {File : Type 0} where
  -- The test of `m_file` that each method begins with.
  abbrev pub with_file :
      {A : Type 0} → Error → (File → Outcome File A) → Handle File → Outcome File A
  with_file e body null = thrown e null
  with_file e body dangling = fault
  with_file e body (opened f) = body f

  abbrev pub then_close :
      (Handle File → Outcome File Unit) → Outcome File Bytes → Outcome File Bytes
  then_close close (done s h) = elim (close h) [
    | done u h' ↦ done s h'
    | thrown e h' ↦ thrown e h'
    | fault ↦ fault
    | out_of_fuel ↦ out_of_fuel
  ]
  then_close close (thrown e h) = thrown e h
  then_close close fault = fault
  then_close close out_of_fuel = out_of_fuel

module _ {File : Type 0} (io : Stdio File) where
  unfoldable pub write : Bytes → Handle File → Outcome File Unit
  write text h =
      with_file stream_not_opened
        (λ f.
          let (n, g) = io.fwrite text f in
          elim (n == length text) [
            | true ↦ done tt (opened g)
            | false ↦ thrown stream_write_error (opened g)
          ])
        h

  unfoldable pub flush : Handle File → Outcome File Unit
  flush h =
      with_file stream_not_opened
        (λ f.
          let (b, g) = io.fflush f in
          elim b [ true ↦ done tt (opened g) | false ↦ thrown stream_flush_error (opened g) ])
        h

  unfoldable pub read_loop : ℕ → Bytes → File → Outcome File Bytes
  read_loop zero result f = out_of_fuel
  read_loop (suc fuel) result f =
      let (got, g) = io.fread 1024 f in
      elim (leb 1024 (length got)) [
        | true ↦ read_loop fuel (store result got) g
        | false ↦ elim (io.ferror g) [
          | true ↦ thrown stream_read_error (opened g)
          | false ↦
              done (take (length (store result got) - 1024 + length got) (store result got))
                (opened g)
        ]
      ]

  unfoldable pub read : ℕ → Handle File → Outcome File Bytes
  unfolding read_loop
  read fuel h = with_file stream_not_opened (λ f. read_loop fuel [] f) h

  -- The line, and whether the end of the file is not reached. `assign` takes all but the last byte.
  unfoldable pub readln : Handle File → Outcome File (Bytes × Bool)
  readln h =
      with_file stream_not_opened
        (λ f.
          let (line, g) = io.getline f in
          elim line [
            | none ↦ elim (io.ferror g) [
              | true ↦ thrown stream_read_error (opened g)
              | false ↦ done ([], not (io.feof g)) (opened g)
            ]
            | some s ↦ done (take (length s - 1) s, not (io.feof g)) (opened g)
          ])
        h

  unfoldable pub read_size : ℕ → Handle File → Outcome File Bytes
  read_size size h =
      with_file stream_not_opened
        (λ f.
          let (got, g) = io.fread size f in
          elim (ltb (length got) size) [
            | true ↦ thrown stream_read_error (opened g)
            | false ↦ done got (opened g)
          ])
        h

  unfoldable pub get_fd : Handle File → Outcome File ℤ
  get_fd h = with_file stream_not_opened (λ f. done (io.fileno f) (opened f)) h

  -- Where the C library does not close the stream without an error, the pointer stays.
  unfoldable pub file_close : Handle File → Outcome File Unit
  file_close h =
      with_file file_not_opened
        (λ f. elim (io.fclose f) [ true ↦ done tt null | false ↦ thrown file_close_error dangling ])
        h

  unfoldable pub pipe_close : Handle File → Outcome File Unit
  pipe_close h =
      with_file pipe_not_opened
        (λ f. elim (io.pclose f) [ true ↦ done tt null | false ↦ thrown pipe_close_error dangling ])
        h

  unfoldable pub file_read_close : ℕ → Handle File → Outcome File Bytes
  unfolding read file_close
  file_read_close fuel h = then_close file_close (read fuel h)

  unfoldable pub pipe_read_close : ℕ → Handle File → Outcome File Bytes
  unfolding read pipe_close
  pipe_read_close fuel h = then_close pipe_close (read fuel h)

  unfoldable pub seek : ℤ → ℕ → Handle File → Outcome File Unit
  seek offset whence h =
      with_file file_not_opened
        (λ f.
          let (b, g) = io.fseek offset whence f in
          elim b [ true ↦ done tt (opened g) | false ↦ thrown file_seek_error (opened g) ])
        h

  unfoldable pub tell : Handle File → Outcome File ℤ
  tell h =
      with_file file_not_opened
        (λ f.
          let (n, g) = io.ftell f in
          elim n [ pos m ↦ done (pos m) (opened g) | negsuc m ↦ thrown file_tell_error (opened g) ])
        h

module _ {File : Type 0} where
  -- `fopen` and `popen` are given by what they answer.
  abbrev pub open_file : Option File → Outcome File Unit
  open_file none = thrown file_open_error null
  open_file (some f) = done tt (opened f)

  abbrev pub open_pipe : Option File → Outcome File Unit
  open_pipe none = thrown pipe_open_error null
  open_pipe (some f) = done tt (opened f)

  -- The destructor of `file_c`, for a stream other than the three standard ones, and that of `pipe_c`.
  abbrev pub destroy : Handle File → Outcome File Unit
  destroy null = done tt null
  destroy dangling = fault
  destroy (opened f) = done tt null
