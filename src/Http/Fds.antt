-- ===== src/Http/Fds.antt =====
-- `retrieve_poll_fds` of lib/cclhttp.cc. The sets that `MHD_get_fdset` fills are given by FD_ISSET.
use native.Mathlib.Decide.{ℕ_discrete}
use cclib.Base.{
  refl, ap, ◌∙◌, ℕ, zero, suc, ◌+◌, ◌<◌, ◌≡◌, ◌≢◌, arith, Bool, true, false, ◌&&◌, Option, none,
  some, List, [], ◌∷◌, ◌++◌, append_assoc, append-nil, if◌then◌else◌, ltb, leb, ◌||◌, Bool-cases,
  inl, inr, ◌∙◌,
}
use cclib.Base.Int.{ℤ, pos, negsuc}
use cclib.Sys.Poll.{PollFd}
use cclib.Sys.Poll.Refines.{IsAbove-interest, interest, IsSorted, IsAbove}

-- The descriptors to read from, to write to, and to watch for errors.
pub record FdSets : Type 0 where
  pub rs : ℕ → Bool
  pub ws : ℕ → Bool
  pub es : ℕ → Bool

abbrev pub mask : Bool → ℕ → ℕ
mask true events = events
mask false events = 0

-- POLLIN, POLLOUT, and POLLERR, POLLHUP and POLLNVAL, which are bits of their own.
abbrev pub events_of : FdSets → ℕ → ℕ
events_of sets fd = mask (sets.rs fd) 1 + mask (sets.ws fd) 4 + mask (sets.es fd) 56

abbrev pub is_set : FdSets → ℕ → Bool
is_set sets fd = sets.rs fd || sets.ws fd || sets.es fd

-- The `do … while` from `fd`, for so many descriptors more.
unfoldable pub fds_loop : FdSets → ℕ → ℕ → List PollFd → List PollFd
fds_loop sets zero fd poll_fds = poll_fds
fds_loop sets (suc more) fd poll_fds = fds_loop sets more (suc fd) (
    if is_set sets fd
    then poll_fds ++ record { fd = fd; events = events_of sets fd; revents = 0 } ∷ []
    else poll_fds)

-- With the sets comes the greatest descriptor; `none` is error_HTTP_SERVER_INTERNAL_ERROR.
unfoldable pub retrieve_poll_fds : Option (FdSets × ℤ) → List PollFd → Option (List PollFd)
unfolding fds_loop
retrieve_poll_fds none poll_fds = none
retrieve_poll_fds (some (sets, negsuc n)) poll_fds = some poll_fds
retrieve_poll_fds (some (sets, pos max)) poll_fds = some (fds_loop sets (suc max) 0 poll_fds)

-- What poll(2) is to be asked for of a descriptor that is in the set to read from, in the set to write
-- to, and in the set to watch: POLLIN is 1, POLLOUT is 4, and POLLERR, POLLHUP and POLLNVAL together
-- are 8 + 16 + 32.
abbrev pub asked_for : Bool → Bool → Bool → Option ℕ
asked_for false false false = none
asked_for true false false = some 1
asked_for false true false = some 4
asked_for true true false = some 5
asked_for false false true = some 56
asked_for true false true = some 57
asked_for false true true = some 60
asked_for true true true = some 61

asked_for-is_set :
    (sets : FdSets) (j : ℕ)
    → (if is_set sets j then some (events_of sets j) else none)
      ≡ asked_for (sets.rs j) (sets.ws j) (sets.es j)
asked_for-is_set sets j = by_cases (sets.rs j) (sets.ws j) (sets.es j)
  where
    by_cases :
        (r w e : Bool)
        → (if r || w || e then some (mask r 1 + mask w 4 + mask e 56) else none) ≡ asked_for r w e
    by_cases false false false = refl
    by_cases true false false = refl
    by_cases false true false = refl
    by_cases true true false = refl
    by_cases false false true = refl
    by_cases true false true = refl
    by_cases false true true = refl
    by_cases true true true = refl

-- The entries that the loop makes for the descriptors from `fd`.
abbrev wanted : FdSets → ℕ → ℕ → ℕ → Option ℕ
wanted sets fd end j =
    if leb fd j && ltb j end && is_set sets j then some (events_of sets j) else none

-- The entries that the loop appends.
entries : FdSets → ℕ → ℕ → List PollFd
entries sets zero fd = []
entries sets (suc more) fd =
    let rest = entries sets more (suc fd) in
    if is_set sets fd
    then record { fd = fd; events = events_of sets fd; revents = 0 } ∷ rest
    else rest

fds_loop-entries :
    (sets : FdSets) (more fd : ℕ) (poll_fds : List PollFd)
    → fds_loop sets more fd poll_fds ≡ poll_fds ++ entries sets more fd
unfolding fds_loop entries
fds_loop-entries sets zero fd poll_fds = simp append-nil
fds_loop-entries sets (suc more) fd poll_fds = elim (Bool-cases (is_set sets fd)) [
  | inl h ↦ rw (h, fds_loop, entries) (fds_loop-entries sets more (suc fd) _ ∙ simp append_assoc)
  | inr h ↦ rw (h, fds_loop, entries) (fds_loop-entries sets more (suc fd) poll_fds)
]

entries-IsAbove : (sets : FdSets) (more fd n : ℕ) → n < fd → IsAbove n (entries sets more fd)
unfolding entries
entries-IsAbove sets zero fd n h = tt
entries-IsAbove sets (suc more) fd n h = ground (arith, entries-IsAbove sets more (suc fd) n)

entries-IsSorted : (sets : FdSets) (more fd : ℕ) → IsSorted (entries sets more fd)
unfolding entries
entries-IsSorted sets zero fd = tt
entries-IsSorted sets (suc more) fd =
    ground (arith, entries-IsAbove sets more (suc fd) fd, entries-IsSorted sets more (suc fd))

wanted_ne :
    (sets : FdSets) (more fd j : ℕ)
    → j ≢ fd
    → wanted sets (suc fd) (suc fd + more) j ≡ wanted sets fd (fd + suc more) j
wanted_ne sets more fd j ne = ground arith

interest-entries :
    (sets : FdSets) (more fd j : ℕ)
    → interest (entries sets more fd) j ≡ wanted sets fd (fd + more) j
unfolding entries
interest-entries sets zero fd j = ground arith
interest-entries sets (suc more) fd j =
    let above =
      IsAbove-interest fd (entries sets more (suc fd))
        (entries-IsAbove sets more (suc fd) fd (omega arith)) in
    elim (ℕ_discrete j fd) [
      | yes e ↦ rw e (elim (Bool-cases (is_set sets fd)) [
        | inl h ↦ rw (h, entries) (ground arith)
        | inr h ↦ rw (h, entries) (ground (arith, above))
      ])
      | no ne ↦
          let ih = interest-entries sets more (suc fd) j ∙ wanted_ne sets more fd j ne in
          elim (Bool-cases (is_set sets fd)) [
            | inl h ↦ rw (h, entries) (ground (arith, ih))
            | inr h ↦ rw (h, entries) ih
          ]
    ]

wanted-asked_for :
    (sets : FdSets) (end j : ℕ)
    → wanted sets 0 end j
      ≡ (if ltb j end then asked_for (sets.rs j) (sets.ws j) (sets.es j) else none)
wanted-asked_for sets end j = elim (Bool-cases (ltb j end)) [
  | inl h ↦ rw h (rw (← asked_for-is_set sets j) (ground (arith, h)))
  | inr h ↦ ground (arith, h)
]

-- Where libmicrohttpd gives its descriptors, those that are there stay, and behind them, in rising
-- order, stands each descriptor up to the greatest that is in a set, with POLLIN where it is in the
-- set to read from, POLLOUT where it is in the set to write to, and POLLERR, POLLHUP and POLLNVAL
-- where it is in the third one, and no other.
pub retrieve_poll_fds-interest :
    (sets : FdSets) (max : ℕ) (poll_fds : List PollFd)
    → (added : List PollFd) × (retrieve_poll_fds (some (sets, pos max)) poll_fds
        ≡ some (poll_fds ++ added))
      × IsSorted added
      × ((j : ℕ)
          → interest added j
            ≡ (if ltb j (suc max) then asked_for (sets.rs j) (sets.ws j) (sets.es j) else none))
unfolding retrieve_poll_fds
retrieve_poll_fds-interest sets max poll_fds =
    let from_zero : 0 + suc max ≡ suc max = omega arith in
    (
      entries sets (suc max) 0,
      ap some (fds_loop-entries sets (suc max) 0 poll_fds),
      entries-IsSorted sets (suc max) 0,
      (λ j.
          interest-entries sets (suc max) 0 j
          ∙ ap (λ n. wanted sets 0 n j) from_zero
          ∙ wanted-asked_for sets (suc max) j),
    )
