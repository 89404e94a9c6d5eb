-- ===== src/Var/Store/Counts.antt =====
-- How often a location of lib/cclvar.h is referred to, and what a write changes of that.
use cclib.Base.{
  ℕ, zero, suc, ◌+◌, ◌<◌, ◌≡◌, ◌≢◌, refl, ap, arith, Bool, true, false, Option, none, some,
  Option-cases, List, [], ◌∷◌, ◌++◌, length, ltb, ◌==◌, inl, inr, if◌then◌else◌,
}
use cclib.Var.Store.{Address, Loc, Heap, read, put, elements, ℕ}

abbrev pub here : Bool → ℕ
here true = 1
here false = 0

abbrev pub tally : Address → List Address → ℕ
tally a [] = 0
tally a (p ∷ ps) = here (p == a) + tally a ps

abbrev pub count : Option Loc → ℕ
count none = 0
count (some l) = l.ref_cnt

abbrev pub count_at : Heap → Address → ℕ
count_at h a = count (read h a)

-- The parts of a location count until its destructor runs.
abbrev pub weight : Address → Option Loc → ℕ
weight a none = 0
weight a (some l) = if l.ref_cnt == 0 then 0 else tally a (elements l.data_ptr)

abbrev pub alive : Option Loc → ℕ
alive c = here (ltb 0 (count c))

abbrev pub total : (Option Loc → ℕ) → Heap → ℕ
total f [] = 0
total f (c ∷ h) = f c + total f h

-- Each count is the number of references from the given ones, which stand outside the locations, and
-- from the locations that are in use.
abbrev pub Counted : List Address → Heap → Type 0
Counted held h = (a : Address) → count_at h a ≡ tally a held + total (weight a) h

abbrev pub live : Heap → ℕ
live = total alive

pub tally-append :
    (a : Address) (ps qs : List Address) → tally a (ps ++ qs) ≡ tally a ps + tally a qs
tally-append a [] qs = omega arith
tally-append a (p ∷ ps) qs = omega (arith, tally-append a ps qs)

pub tally_self : (a : Address) (ps : List Address) → tally a (a ∷ ps) ≡ suc (tally a ps)
tally_self a ps = ground arith

pub read-put :
    (h : Heap) (p : Address) (l : Loc) (d : Option Loc) → read h p ≡ some l → read (put h p d) p ≡ d
read-put [] p l d e = absurd (cc)
read-put (c ∷ h) zero l d e = refl
read-put (c ∷ h) (suc p) l d e = read-put h p l d e

pub read-put_other :
    (h : Heap) (p a : Address) (d : Option Loc) → a ≢ p → read (put h p d) a ≡ read h a
read-put_other [] p a d n = refl
read-put_other (c ∷ h) zero zero d n = absurd (n refl)
read-put_other (c ∷ h) zero (suc a) d n = refl
read-put_other (c ∷ h) (suc p) zero d n = refl
read-put_other (c ∷ h) (suc p) (suc a) d n = read-put_other h p a d (λ e. n (ap suc e))

pub total-put :
    (f : Option Loc → ℕ) (h : Heap) (p : Address) (l : Loc) (d : Option Loc)
    → read h p ≡ some l
    → total f (put h p d) + f (some l) ≡ total f h + f d
total-put f [] p l d e = absurd (cc)
total-put f (c ∷ h) zero l d e = rw e (omega arith)
total-put f (c ∷ h) (suc p) l d e = omega (arith, total-put f h p l d e)

-- What is referred to is there.
pub read-count :
    (h : Heap) (p : Address) → 0 < count_at h p → (l : Loc) × (read h p ≡ some l) × (0 < l.ref_cnt)
read-count h p lt = elim (Option-cases (read h p)) [
  | inl e ↦ absurd (ground (arith, e, lt))
  | inr (l, e) ↦ (l, e, ground (arith, e, lt))
]

pub total-append : (f : Option Loc → ℕ) (h k : Heap) → total f (h ++ k) ≡ total f h + total f k
total-append f [] k = omega arith
total-append f (c ∷ h) k = omega (arith, total-append f h k)

pub count_at-append :
    (h : Heap) (l : Loc) (a : Address)
    → count_at (h ++ some l ∷ []) a
      ≡ elim (a == length h) [ true ↦ l.ref_cnt | false ↦ count_at h a ]
count_at-append [] l zero = ground arith
count_at-append [] l (suc a) = ground arith
count_at-append (c ∷ h) l zero = ground arith
count_at-append (c ∷ h) l (suc a) = ground (arith, count_at-append h l a)
