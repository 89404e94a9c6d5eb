-- ===== src/Sys/Poll/Refines.antt =====
-- The specification of `poll_c` of lib/cclsys.cc: which events are asked for of each descriptor.
use Prim.Native.Nat.{Ordering, compare}
use cclib.Base.{ℕ, ◌<◌, ◌≡◌, refl, arith, Option, none, some, List, [], ◌∷◌, All, ◌∙◌}
use cclib.Sys.Poll.{PollFd, set_insert, set_update, set_erase}

abbrev pub interest : List PollFd → ℕ → Option ℕ
interest [] fd = none
interest (q ∷ s) fd = elim (compare fd q.fd) [ Ordering.eq ↦ some q.events | _ ↦ interest s fd ]

abbrev pub IsAbove : ℕ → List PollFd → Type 0
IsAbove fd = All (λ q. fd < q.fd)

-- The descriptors rise, so each stands there once.
abbrev pub IsSorted : List PollFd → Type 0
IsSorted [] = Unit
IsSorted (q ∷ s) = IsAbove q.fd s × IsSorted s

abbrev pub Interest : Type 0
Interest = ℕ → Option ℕ

abbrev pub assign : Interest → ℕ → Option ℕ → Interest
assign f fd v j = elim (compare j fd) [ Ordering.eq ↦ v | _ ↦ f j ]

pub IsAbove-interest : (fd : ℕ) (s : List PollFd) → IsAbove fd s → interest s fd ≡ none
IsAbove-interest fd [] h = refl
IsAbove-interest fd (q ∷ s) h = ground (arith, IsAbove-interest fd s h.1)

IsAbove-lt : (m n : ℕ) (s : List PollFd) → m < n → IsAbove n s → IsAbove m s
IsAbove-lt m n [] lt h = tt
IsAbove-lt m n (q ∷ s) lt h = (omega (arith, h.0), IsAbove-lt m n s lt h.1)

set_insert-IsAbove :
    (n : ℕ) (p : PollFd) (s : List PollFd) → n < p.fd → IsAbove n s → IsAbove n (set_insert p s)
unfolding set_insert
set_insert-IsAbove n p [] lt h = (lt, tt)
set_insert-IsAbove n p (q ∷ s) lt h = ground (arith, set_insert-IsAbove n p s lt h.1)

pub set_insert-IsSorted : (p : PollFd) (s : List PollFd) → IsSorted s → IsSorted (set_insert p s)
unfolding set_insert
set_insert-IsSorted p [] h = (tt, tt)
set_insert-IsSorted p (q ∷ s) h =
    ground (arith, IsAbove-lt p.fd q.fd s, set_insert-IsAbove q.fd p s, set_insert-IsSorted p s h.1)

pub interest-set_insert :
    (p : PollFd) (s : List PollFd) (j : ℕ)
    → IsSorted s
    → interest (set_insert p s) j ≡ elim (interest s p.fd) [
      | none ↦ assign (interest s) p.fd (some p.events) j
      | some e ↦ interest s j
    ]
unfolding set_insert
interest-set_insert p [] j h = ground arith
interest-set_insert p (q ∷ s) j h =
    ground (arith, IsAbove-interest p.fd s, IsAbove-lt p.fd q.fd s, interest-set_insert p s j h.1)

-- What a change at a descriptor, or its failure, has to be.
abbrev pub Changes : ℕ → Option ℕ → List PollFd → Option (List PollFd) → Type 0
Changes fd v s none = interest s fd ≡ none
Changes fd v s (some t) =
    IsSorted t
    × ((e : ℕ) × (interest s fd ≡ some e))
    × ((n : ℕ) → IsAbove n s → IsAbove n t)
    × ((j : ℕ) → interest t j ≡ assign (interest s) fd v j)

Changes-cons :
    (fd : ℕ) (v : Option ℕ) (q : PollFd) (s : List PollFd) (o : Option (List PollFd))
    → q.fd < fd
    → IsSorted (q ∷ s)
    → Changes fd v s o
    → Changes fd v (q ∷ s) (elim o [ none ↦ none | some t ↦ some (q ∷ t) ])
Changes-cons fd v q s none lt h c = ground (arith, c)
Changes-cons fd v q s (some t) lt h (sorted, (e, f), above, agree) = (
  (above q.fd h.0, sorted),
  (e, ground (arith, f)),
  (λ n a. (a.0, above n a.1)),
  (λ j. ground (arith, agree j)),
)

Changes-at :
    (o : Ordering) (fd : ℕ) (v : Option ℕ) (q : PollFd) (s t : List PollFd)
    (r : Option (List PollFd))
    → compare fd q.fd ≡ o
    → IsSorted (q ∷ s)
    → (fd ≡ q.fd → Changes fd v (q ∷ s) (some t))
    → Changes fd v s r
    → Changes fd v (q ∷ s) (elim o [
      | Ordering.lt ↦ none
      | Ordering.eq ↦ some t
      | Ordering.gt ↦ elim r [ none ↦ none | some u ↦ some (q ∷ u) ]
    ])
Changes-at Ordering.lt fd v q s t r e h here c =
    ground (arith, IsAbove-interest fd s, IsAbove-lt fd q.fd s)
Changes-at Ordering.eq fd v q s t r e h here c = here (ground arith)
Changes-at Ordering.gt fd v q s t r e h here c = Changes-cons fd v q s r (ground arith) h c

pub set_update-Changes :
    (fd events : ℕ) (s : List PollFd)
    → IsSorted s
    → Changes fd (some events) s (set_update fd events s)
unfolding set_update
set_update-Changes fd events [] h = refl
set_update-Changes fd events (q ∷ s) h =
    Changes-at (compare fd q.fd) fd (some events) q s (record q { events = events } ∷ s)
      (set_update fd events s) refl h
      (λ e. (h, (q.events, ground arith), (λ n a. a), (λ j. ground arith)))
      (set_update-Changes fd events s h.1)

pub set_erase-Changes : (fd : ℕ) (s : List PollFd) → IsSorted s → Changes fd none s (set_erase fd s)
unfolding set_erase
set_erase-Changes fd [] h = refl
set_erase-Changes fd (q ∷ s) h =
    Changes-at (compare fd q.fd) fd none q s s (set_erase fd s) refl h
      (λ e. (
        h.1,
        (q.events, ground arith),
        (λ n a. a.1),
        (λ j. ground (arith, IsAbove-interest q.fd s h.0)),
      ))
      (set_erase-Changes fd s h.1)

-- The same descriptors and events, in the same order.
abbrev pub SameFds : List PollFd → List PollFd → Type 0
SameFds [] [] = Unit
SameFds [] (q ∷ t) = ⊥
SameFds (p ∷ s) [] = ⊥
SameFds (p ∷ s) (q ∷ t) = (p.fd ≡ q.fd) × (p.events ≡ q.events) × SameFds s t

pub SameFds-refl : (s : List PollFd) → SameFds s s
SameFds-refl [] = tt
SameFds-refl (p ∷ s) = (refl, refl, SameFds-refl s)

pub SameFds-trans : (s t u : List PollFd) → SameFds s t → SameFds t u → SameFds s u
SameFds-trans [] [] u a b = b
SameFds-trans (p ∷ s) (q ∷ t) (r ∷ u) (a, b, c) (a', b', c') =
    (a ∙ a', b ∙ b', SameFds-trans s t u c c')
SameFds-trans [] (q ∷ t) u a b = absurd a
SameFds-trans (p ∷ s) [] u a b = absurd a
SameFds-trans (p ∷ s) (q ∷ t) [] a b = absurd b

pub interest-SameFds : (s t : List PollFd) (j : ℕ) → SameFds s t → interest s j ≡ interest t j
interest-SameFds [] [] j h = refl
interest-SameFds (p ∷ s) (q ∷ t) j (a, b, c) = ground (arith, interest-SameFds s t j c)
interest-SameFds [] (q ∷ t) j h = absurd h
interest-SameFds (p ∷ s) [] j h = absurd h

IsAbove-SameFds : (n : ℕ) (s t : List PollFd) → SameFds s t → IsAbove n t → IsAbove n s
IsAbove-SameFds n [] t h a = tt
IsAbove-SameFds n (p ∷ s) [] h a = absurd h
IsAbove-SameFds n (p ∷ s) (q ∷ t) (e, f, h) (lt, a) = (omega arith, IsAbove-SameFds n s t h a)

pub IsSorted-SameFds : (s t : List PollFd) → SameFds s t → IsSorted t → IsSorted s
IsSorted-SameFds [] t h a = tt
IsSorted-SameFds (p ∷ s) [] h a = absurd h
IsSorted-SameFds (p ∷ s) (q ∷ t) (e, f, h) (above, a) =
    (rw e (IsAbove-SameFds q.fd s t h above), IsSorted-SameFds s t h a)
