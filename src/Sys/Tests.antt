-- ===== src/Sys/Tests.antt =====
-- Runs of lib/cclsys.cc over small models of the system, and its theorems at them.
use cclib.Base.{
  length-drop, ap, ◌∙◌, length-take, ◌<◌, ◌≡◌, ◌≢◌, refl, sym, arith, Bool, true, false, not, some,
  List, [], ◌∷◌, ◌++◌, Bytes, codes, length, take, drop,
}
use cclib.Base.Int.{ℤ, pos, negsuc}
use cclib.Sys.Poll.{PollFd, new_poll}
use cclib.Sys.Poll.Refines.{SameFds-refl, interest}
use cclib.Sys.Poll.Runs.{
  Call, insert, update, remove, wait, run, replay, Agrees, IsValid, run-replay,
}
use cclib.Sys.Stream.{Stdio, null, opened, done, readln, file_read_close}
use cclib.Sys.Stream.Lines.{
  HoldsText, take_line, drop_line, has_line, line_of, at_line, readln-Ahead,
}
use cclib.Sys.Stream.Reads.{file_read_close-content}
use cclib.Sys.Descriptor.{Device, fd_write, fd_read, write_loop, fd_read_loop}
use cclib.Sys.Descriptor
use cclib.Sys.Descriptor.Transfers.{IsSink, IsSource, Writes, Reads, fd_write-Writes, fd_read-Reads}

-- A `poll` to which nothing comes.
abbrev quiet : List PollFd → ℤ → ℤ × List PollFd
quiet s timeout = (pos 0, s)

abbrev sample_calls : List Call
sample_calls = insert 5 1 ∷ insert 3 4 ∷ wait (pos 10) ∷ update 5 2 ∷ insert 3 7 ∷ remove 3 ∷ []

run-sample_calls :
    run quiet sample_calls new_poll
    ≡ some (record {
      set_changed = true;
      pfd_set = record { fd = 5; events = 2; revents = 0 } ∷ [];
      pfd_array =
          record { fd = 3; events = 4; revents = 0 }
          ∷ record { fd = 5; events = 1; revents = 0 }
          ∷ [];
    })
unfolding run
run-sample_calls = refl

new_poll-IsValid : IsValid new_poll
new_poll-IsValid = record { sorted = tt; stored = λ e. tt }

run-replay_example : Agrees (run quiet sample_calls new_poll) (replay sample_calls (interest []))
run-replay_example =
    run-replay quiet sample_calls new_poll (λ s timeout. SameFds-refl s) new_poll-IsValid

-- Streams that are the text that is left and whether the end was met.
abbrev text_stdio : Stdio (Bytes × Bool)
text_stdio = record {
  fread = λ n f. (take n f.0, (drop n f.0, f.1));
  fwrite = λ s f. (length s, f);
  getline = λ f. (line_of f.0, (drop_line f.0, not (has_line f.0)));
  fflush = λ f. (true, f);
  fseek = λ offset whence f. (false, f);
  ftell = λ f. (negsuc 0, f);
  ferror = λ f. false;
  feof = λ f. f.1;
  fileno = λ f. pos 3;
  fclose = λ f. true;
  pclose = λ f. true;
}

text_stdio-HoldsText : HoldsText text_stdio (λ f. f.0)
text_stdio-HoldsText = record {
  fread_takes = λ n f. refl;
  fread_drops = λ n f. refl;
  fread_fine = λ n f. refl;
  getline_takes = λ f. refl;
  getline_drops = λ f. refl;
  getline_fine = λ f. refl;
  getline_ends = λ f. refl;
}

-- The last byte of a text without a newline is lost.
readln_rest :
    readln text_stdio (opened (codes "ab", false)) ≡ done (codes "a", false) (opened ([], true))
unfolding readln take_line drop_line has_line
readln_rest = refl

file_read_close-content_example :
    file_read_close text_stdio 1 (opened (codes "ab", false)) ≡ done (codes "ab") null
file_read_close-content_example =
    file_read_close-content text_stdio (λ f. f.0) text_stdio-HoldsText 1 (codes "ab", false)
      (λ g. refl) (omega arith)

readln-Ahead_example :
    (readln text_stdio (opened (codes "ab\nc", false))
      ≡ done (codes "ab", true) (opened (text_stdio.getline (codes "ab\nc", false)).1))
    × ((text_stdio.getline (codes "ab\nc", false)).1.0 ≡ codes "c")
readln-Ahead_example =
    readln-Ahead text_stdio (λ f. f.0) text_stdio-HoldsText (codes "ab\nc", false) (codes "ab\nc")
      (codes "ab") (codes "c") true refl (at_line (omega arith, (omega arith, tt)))

-- A device that takes three bytes at a time, and gives a text; the state is what is left of it, and
-- what was transferred.
abbrev small_device : Device (Bytes × Bytes)
small_device = record {
  sys_write = λ t s. (some (length (take 3 t)), (s.0, s.1 ++ take 3 t));
  sys_read = λ n s. (some (take n s.0), (drop n s.0, s.1 ++ take n s.0));
}

length-take_3 : (t : Bytes) → t ≢ [] → 0 < length (take 3 t)
length-take_3 [] ne = absurd (ne refl)
length-take_3 (c ∷ t) ne = omega arith

take-length-take : (t : Bytes) → take (length (take 3 t)) t ≡ take 3 t
take-length-take [] = refl
take-length-take (a ∷ []) = refl
take-length-take (a ∷ b ∷ []) = refl
take-length-take (a ∷ b ∷ c ∷ t) = refl

small_device-IsSink : IsSink small_device (λ s. s.1)
small_device-IsSink = record {
  fails = λ t s h. absurd (cc);
  takes = λ t s cnt h.
      let e : length (take 3 t) ≡ cnt = cc in
      (
        omega (arith, e, length-take 3 t),
        (λ ne. omega (arith, e, length-take_3 t ne)),
        ap (λ u. s.1 ++ u) (sym (take-length-take t) ∙ ap (λ n. take n t) e),
      );
}

small_device-IsSource : IsSource small_device (λ s. s.1) (λ s. length s.0)
small_device-IsSource = record {
  gives = λ n s got h.
      let e : take n s.0 ≡ got = cc in
      (
        omega (arith, ap length e, length-take n s.0),
        ap (λ u. s.1 ++ u) e,
        omega (arith, ap length e, length-take n s.0, length-drop n s.0),
      );
}

fd_write-greeting :
    fd_write small_device 5 (codes "hello") true ([], []) ≡ Descriptor.done tt ([], codes "hello")
unfolding fd_write
fd_write-greeting = refl

fd_write-Writes_example :
    Writes small_device
      (λ s. s.1)
      small_device-IsSink
      []
      (codes "hello")
      (fd_write small_device 5 (codes "hello") true ([], []))
fd_write-Writes_example =
    fd_write-Writes small_device (λ s. s.1) small_device-IsSink 5 (codes "hello") ([], [])
      (omega arith)

fd_read-Reads_example :
    Reads small_device
      (λ s. s.1)
      (λ s. length s.0)
      small_device-IsSource
      []
      (fd_read small_device 1 true (codes "hello", []))
fd_read-Reads_example =
    fd_read-Reads small_device (λ s. s.1) (λ s. length s.0) small_device-IsSource 1
      (codes "hello", []) (omega arith)
