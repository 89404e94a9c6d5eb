-- ===== src/Sys/Poll.antt =====
-- `poll_c` of lib/cclsys.h and lib/cclsys.cc. A file descriptor and a mask of events are numbers.
pub mod Refines
pub mod Runs
use Prim.Native.Nat.{Ordering, compare}
use cclib.Base.{
  ℕ, zero, suc, Bool, true, false, Option, none, some, List, [], ◌∷◌, ◌++◌, Bytes, codes,
  if◌then◌else◌,
}
use cclib.Base.Int.{ℤ, pos, negsuc}
use cclib.Json.Escape.{show_int}

-- `struct pollfd`.
pub record PollFd : Type 0 where
  pub fd : ℕ
  pub events : ℕ
  pub revents : ℕ

-- The members of `std::set<pollfd,pollfd_compare>`, which is ordered by the descriptor.
unfoldable pub set_insert : PollFd → List PollFd → List PollFd
set_insert p [] = p ∷ []
set_insert p (q ∷ s) = elim (compare p.fd q.fd) [
  | Ordering.lt ↦ p ∷ q ∷ s
  | Ordering.eq ↦ q ∷ s
  | Ordering.gt ↦ q ∷ set_insert p s
]

-- `find`, and the assignment through it; `none` is `end()`.
unfoldable pub set_update : ℕ → ℕ → List PollFd → Option (List PollFd)
set_update fd events [] = none
set_update fd events (q ∷ s) = elim (compare fd q.fd) [
  | Ordering.lt ↦ none
  | Ordering.eq ↦ some (record q { events = events } ∷ s)
  | Ordering.gt ↦ elim (set_update fd events s) [ none ↦ none | some t ↦ some (q ∷ t) ]
]

-- `erase`; `none` where nothing is erased.
unfoldable pub set_erase : ℕ → List PollFd → Option (List PollFd)
set_erase fd [] = none
set_erase fd (q ∷ s) = elim (compare fd q.fd) [
  | Ordering.lt ↦ none
  | Ordering.eq ↦ some s
  | Ordering.gt ↦ elim (set_erase fd s) [ none ↦ none | some t ↦ some (q ∷ t) ]
]

pub record Poll : Type 0 where
  pub set_changed : Bool
  pub pfd_set : List PollFd
  pub pfd_array : List PollFd

abbrev pub new_poll : Poll
new_poll = record { set_changed = false; pfd_set = []; pfd_array = [] }

unfoldable pub poll_insert : ℕ → ℕ → Poll → Poll
unfolding set_insert
poll_insert fd events p = record p {
  pfd_set = set_insert (record { fd = fd; events = events; revents = 0 }) p.pfd_set;
  set_changed = true;
}

-- The changed set, where the descriptor was in it; `none` is a failed assertion.
abbrev pub change_set : Poll → Option (List PollFd) → Option Poll
change_set p none = none
change_set p (some s) = some (record p { pfd_set = s; set_changed = true })

unfoldable pub poll_update : ℕ → ℕ → Poll → Option Poll
unfolding set_update
poll_update fd events p = change_set p (set_update fd events p.pfd_set)

unfoldable pub poll_remove : ℕ → Poll → Option Poll
unfolding set_erase
poll_remove fd p = change_set p (set_erase fd p.pfd_set)

unfoldable pub process_changes : Poll → Poll
process_changes p = record p { pfd_array = p.pfd_set; set_changed = false }

abbrev pub changes_done : Poll → Poll
changes_done p = elim p.set_changed [ true ↦ process_changes p | false ↦ p ]

abbrev pub is_positive : ℤ → Bool
is_positive (pos (suc n)) = true
is_positive _ = false

-- What `poll` answers and writes, for the array and the timeout.
module _ (poll : List PollFd → ℤ → ℤ × List PollFd) where
  unfoldable pub ready : ℤ → Poll → Bool × ℤ × Poll
  unfolding process_changes
  ready timeout p =
      let q = changes_done p in
      let (result, array) = poll q.pfd_array timeout in
      (is_positive result, result, record q { pfd_array = array })

abbrev pub show_fds : List PollFd → Bytes
show_fds [] = []
show_fds (p ∷ s) =
    codes "{"
    ++ show_int (pos p.fd)
    ++ codes ","
    ++ show_int (pos p.events)
    ++ codes ","
    ++ show_int (pos p.revents)
    ++ codes "},"
    ++ show_fds s

-- `operator <<`.
unfoldable pub show_poll : Poll → Bytes × Poll
unfolding process_changes
show_poll p = let q = changes_done p in (codes "{" ++ show_fds q.pfd_array ++ codes "}", q)
