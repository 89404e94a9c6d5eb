-- ===== src/Sys/Poll/Runs.antt =====
-- Any sequence of calls of `poll_c` of lib/cclsys.cc, against the map from descriptors to events.
use mathlib.Core.Path.{fun_ext, subst}
use cclib.Base.{
  Option-cases, ℕ, ◌≡◌, ◌∙◌, true, false, Option, none, some, List, [], ◌∷◌, Bool-cases, inl, inr,
}
use cclib.Base.Int.{ℤ}
use cclib.Sys.Poll.{
  change_set, PollFd, set_insert, set_update, set_erase, Poll, poll_insert, poll_update,
  poll_remove, process_changes, changes_done, ready,
}
use cclib.Sys.Poll.Refines.{
  interest, IsSorted, Interest, assign, Changes, SameFds, SameFds-refl, SameFds-trans,
  interest-SameFds, IsSorted-SameFds, set_insert-IsSorted, interest-set_insert, set_update-Changes,
  set_erase-Changes,
}

pub data Call : Type 0 where
  insert update : ℕ → ℕ → Call
  remove : ℕ → Call
  settle : Call
  wait : ℤ → Call

-- The calls on the map; `none` where a descriptor is updated or removed that is not in it.
abbrev pub change : Option ℕ → Interest → ℕ → Option ℕ → Option Interest
change none f fd v = none
change (some e) f fd v = some (assign f fd v)

abbrev pub and_then : Option Interest → (Interest → Option Interest) → Option Interest
and_then none play = none
and_then (some f) play = play f

abbrev pub then_run : Option Poll → (Poll → Option Poll) → Option Poll
then_run none next = none
then_run (some p) next = next p

abbrev pub add : Option ℕ → Interest → ℕ → ℕ → Interest
add none f fd events = assign f fd (some events)
add (some e) f fd events = f

unfoldable pub replay : List Call → Interest → Option Interest
replay [] f = some f
replay (insert fd events ∷ cs) f = replay cs (add (f fd) f fd events)
replay (update fd events ∷ cs) f = and_then (change (f fd) f fd (some events)) (replay cs)
replay (remove fd ∷ cs) f = and_then (change (f fd) f fd none) (replay cs)
replay (settle ∷ cs) f = replay cs f
replay (wait timeout ∷ cs) f = replay cs f

-- The set is sorted, and where no change is pending the array has its descriptors and events.
pub record IsValid (p : Poll) : Type 0 where
  pub sorted : IsSorted p.pfd_set
  pub stored : p.set_changed ≡ false → SameFds p.pfd_array p.pfd_set

-- What the next `poll` asks for is the map: the array that `ready` hands over is sorted and has its
-- entries.
abbrev pub Polls : Poll → Interest → Type 0
Polls p f = IsSorted (changes_done p).pfd_array × (interest (changes_done p).pfd_array ≡ f)

abbrev pub Agrees : Option Poll → Option Interest → Type 0
Agrees none none = Unit
Agrees none (some f) = ⊥
Agrees (some p) none = ⊥
Agrees (some p) (some f) = IsValid p × Polls p f

changes_done-SameFds : (p : Poll) → IsValid p → SameFds (changes_done p).pfd_array p.pfd_set
unfolding process_changes
changes_done-SameFds p v = elim (Bool-cases p.set_changed) [
  | inl e ↦ rw (e, changes_done) (SameFds-refl p.pfd_set)
  | inr e ↦ rw (e, changes_done) (v.stored e)
]

pfd_set-changes_done : (p : Poll) → (changes_done p).pfd_set ≡ p.pfd_set
unfolding process_changes
pfd_set-changes_done p = elim (Bool-cases p.set_changed) [
  | inl e ↦ rw (e, changes_done)
  | inr e ↦ rw (e, changes_done)
]

IsValid-Polls : (p : Poll) → IsValid p → Polls p (interest p.pfd_set)
IsValid-Polls p v =
    let h = changes_done-SameFds p v in
    (
      IsSorted-SameFds (changes_done p).pfd_array p.pfd_set h v.sorted,
      fun_ext (λ j. interest-SameFds (changes_done p).pfd_array p.pfd_set j h),
    )

changed-IsValid :
    (p : Poll) (s : List PollFd)
    → IsSorted s
    → IsValid (record p { pfd_set = s; set_changed = true })
changed-IsValid p s h = record { sorted = h; stored = λ e. absurd (cc) }

Agrees-Changes :
    (next : Poll → Option Poll) (play : Interest → Option Interest) (p : Poll) (fd : ℕ)
    (v : Option ℕ) (o : Option (List PollFd))
    → ((q : Poll) → IsValid q → Agrees (next q) (play (interest q.pfd_set)))
    → Changes fd v p.pfd_set o
    → Agrees
        (then_run (change_set p o) next)
        (and_then (change (interest p.pfd_set fd) (interest p.pfd_set) fd v) play)
Agrees-Changes next play p fd v none h c = rw c tt
Agrees-Changes next play p fd v (some t) h (sorted, (e, f), above, agree) =
    let same : interest t ≡ assign (interest p.pfd_set) fd v = fun_ext agree in
    rw f
      (rw (← same) (h (record p { pfd_set = t; set_changed = true }) (changed-IsValid p t sorted)))

interest-insert :
    (fd events : ℕ) (s : List PollFd)
    → IsSorted s
    → interest (set_insert (record { fd = fd; events = events; revents = 0 }) s)
      ≡ add (interest s fd) (interest s) fd events
interest-insert fd events s h =
    let p : PollFd = record { fd = fd; events = events; revents = 0 } in
    fun_ext (λ j. elim (Option-cases (interest s fd)) [
      | inl e ↦ rw (e, add) (interest-set_insert p s j h ∙ rw e)
      | inr (n, e) ↦ rw (e, add) (interest-set_insert p s j h ∙ rw e)
    ])

module _ (poll : List PollFd → ℤ → ℤ × List PollFd) where
  -- `poll` writes nothing but the events that came.
  abbrev pub IsPoll : Type 0
  IsPoll = (s : List PollFd) (timeout : ℤ) → SameFds (poll s timeout).1 s

  -- The calls, until an assertion fails.
  unfoldable pub run : List Call → Poll → Option Poll
  unfolding ready poll_insert poll_update poll_remove process_changes
  run [] p = some p
  run (insert fd events ∷ cs) p = run cs (poll_insert fd events p)
  run (update fd events ∷ cs) p = then_run (poll_update fd events p) (run cs)
  run (remove fd ∷ cs) p = then_run (poll_remove fd p) (run cs)
  run (settle ∷ cs) p = run cs (process_changes p)
  run (wait timeout ∷ cs) p = let (b, result, q) = ready poll timeout p in run cs q

  ready-IsValid : (timeout : ℤ) (p : Poll) → IsPoll → IsValid p → IsValid (ready poll timeout p).2
  unfolding ready
  ready-IsValid timeout p law v =
      let q = changes_done p in
      record {
        sorted = rw (pfd_set-changes_done p) v.sorted;
        stored = λ e. rw (pfd_set-changes_done p) (
            SameFds-trans (poll q.pfd_array timeout).1 q.pfd_array p.pfd_set
              (law q.pfd_array timeout) (changes_done-SameFds p v));
      }

  -- Whatever calls are made from a state that agrees with a map, in any order: an assertion fails
  -- exactly where a descriptor is updated or removed that the map does not have; otherwise the state
  -- agrees with the map after the calls, in which an insertion leaves a present descriptor alone, and
  -- the next `poll` asks for exactly the events of the map, each descriptor once, in order.
  pub run-replay :
      (cs : List Call) (p : Poll)
      → IsPoll
      → IsValid p
      → Agrees (run cs p) (replay cs (interest p.pfd_set))
  unfolding run replay poll_insert poll_update poll_remove process_changes
  run-replay [] p law v = (v, IsValid-Polls p v)
  run-replay (insert fd events ∷ cs) p law v =
      let s = set_insert (record { fd = fd; events = events; revents = 0 }) p.pfd_set in
      rw (← interest-insert fd events p.pfd_set v.sorted) (
        run-replay cs (record p { pfd_set = s; set_changed = true }) law
          (changed-IsValid p s (set_insert-IsSorted _ p.pfd_set v.sorted)))
  run-replay (update fd events ∷ cs) p law v =
      Agrees-Changes (run cs) (replay cs) p fd (some events) (set_update fd events p.pfd_set)
        (λ q. run-replay cs q law) (set_update-Changes fd events p.pfd_set v.sorted)
  run-replay (remove fd ∷ cs) p law v =
      Agrees-Changes (run cs) (replay cs) p fd none (set_erase fd p.pfd_set)
        (λ q. run-replay cs q law) (set_erase-Changes fd p.pfd_set v.sorted)
  run-replay (settle ∷ cs) p law v =
      run-replay cs (process_changes p) law
        (record { sorted = v.sorted; stored = λ e. SameFds-refl p.pfd_set })
  run-replay (wait timeout ∷ cs) p law v =
      let q = (ready poll timeout p).2 in
      subst (λ s. Agrees (run cs q) (replay cs (interest s))) (pfd_set-changes_done p)
        (run-replay cs q law (ready-IsValid timeout p law v))
