-- ===== src/Var/Store/Sound.antt =====
-- The invariant of the locations of lib/cclvar.h, and that a new location, a new reference and a
-- dropped one keep it.
use native.Mathlib.Decide.{ℕ_discrete}
use cclib.Base.{
  ℕ, zero, suc, ◌+◌, ◌<◌, ◌≤◌, ◌≡◌, refl, sym, ap, ◌∙◌, arith, some, List, [], ◌∷◌, ◌++◌, All,
  length, ◌==◌, inl, inr, ◌⊎◌,
}
use cclib.Var.Store.{Address, Data, Loc, Heap, read, put, elements, ref, add_ref}
use cclib.Var.Store.Counts.{
  here, tally, count_at, weight, Counted, live, tally-append, tally_self, read-put, read-put_other,
  total-put, read-count, total-append, count_at-append,
}
use cclib.Var.Store.Less.{data_of, Dropped, Ends, Ends-map, count-put}
use cclib.Var.Store.Drops.{unref-Dropped}
use cclib.Var.Store.Variables.{new_loc, drop_ref}

-- Each count is the number of references, and at most `n`; what is not referred to is not there; and
-- a location has only parts that are older than it.
pub record Sound (n : ℕ) (held : List Address) (h : Heap) : Type 0 where
  pub counted : Counted held h
  pub small : (a : Address) → count_at h a ≤ n
  pub used : (a : Address) (l : Loc) → read h a ≡ some l → 0 < l.ref_cnt
  pub older : (a : Address) (l : Loc) → read h a ≡ some l → All (λ q. q < a) (elements l.data_ptr)

pub Sound-same :
    (n : ℕ) (held kept : List Address) (h : Heap)
    → Sound n held h
    → ((a : Address) → tally a held ≡ tally a kept)
    → Sound n kept h
Sound-same n held kept h s e = record {
  counted = λ a. omega (arith, s.counted a, e a);
  small = s.small;
  used = s.used;
  older = s.older;
}

pub Sound-more :
    (n m : ℕ) (held : List Address) (h : Heap) → Sound n held h → n ≤ m → Sound m held h
Sound-more n m held h s le = record {
  counted = s.counted;
  small = λ a. omega (arith, s.small a, le);
  used = s.used;
  older = s.older;
}

-- A location that is referred to is there.
pub Sound-held :
    (n : ℕ) (held : List Address) (h : Heap) (p : Address)
    → Sound n held h
    → 0 < tally p held
    → 0 < count_at h p
Sound-held n held h p s lt = omega (arith, s.counted p, lt)

live-length : (h : Heap) → live h ≤ length h
live-length [] = omega arith
live-length (c ∷ h) = ground (arith, live-length h)

older-same :
    (a : Address) (d e : Data (List Address))
    → d ≡ e
    → All (λ q. q < a) (elements d)
    → All (λ q. q < a) (elements e)
older-same a d e s h = rw (← s) h

pub drop_ref-Sound :
    (n : ℕ) (p : Address) (held : List Address) (h : Heap)
    → Sound n (p ∷ held) h
    → n < 4294967296
    → Ends (Sound n held) (drop_ref p h)
drop_ref-Sound n p held h s lt =
    Ends-map (Dropped h held) (Sound n held) (drop_ref p h)
      (unref-Dropped (length h) p held h s.counted (λ a. omega (arith, s.small a, lt))
        (live-length h))
      (λ g d. record {
        counted = d.counted;
        small = λ a. omega (arith, d.below a, s.small a);
        used = λ a l e. elim (ℕ_discrete l.ref_cnt 0) [
          | yes z ↦ s.used a l (d.clean a l e z)
          | no o ↦ omega arith
        ];
        older = λ a l e.
            let (k, f, x) = d.same a l e in older-same a k.data_ptr l.data_ptr x (s.older a k f);
      })

pub ref-Sound :
    (n : ℕ) (p : Address) (held : List Address) (h : Heap)
    → Sound n held h
    → suc n < 4294967296
    → 0 < count_at h p
    → Ends (Sound (suc n) (p ∷ held)) (ref p h)
unfolding ref
ref-Sound n p held h s lt some_ref =
    let (l, e, pos_cnt) = read-count h p some_ref in
    let small : l.ref_cnt ≤ n = ground (arith, s.small p, e) in
    let m = add_ref l in
    let up : m.ref_cnt ≡ suc l.ref_cnt = omega arith in
    let g = put h p (some m) in
    let at : (a : Address) → count_at g a ≡ here (p == a) + count_at h a = λ a.
      elim (count-put h p a l (some m) e) [
        | inl (q, x, y) ↦ ground (arith, q, x, y, up)
        | inr (o, y) ↦ ground (arith, o, y)
      ] in
    rw (e, ref, Ends)
      (record {
        counted = λ a.
            ground (arith, at a, s.counted a, total-put (weight a) h p l (some m) e, up, pos_cnt);
        small = λ a. ground (arith, at a, s.small a);
        used = λ a k f. elim (ℕ_discrete p a) [
          | yes q ↦ ground (arith, q, f, up, read-put h p l (some m) e)
          | no o ↦ s.used a k (sym (read-put_other h p a (some m) (λ q. o (sym q))) ∙ f)
        ];
        older = λ a k f. elim (ℕ_discrete p a) [
          | yes q ↦
              let at_p : read g p ≡ some k = ap (λ b. read g b) q ∙ f in
              let found : some m ≡ some k = sym (read-put h p l (some m) e) ∙ at_p in
              rw (← q) (
                older-same p m.data_ptr k.data_ptr (ap (λ c. data_of c m.data_ptr) found)
                  (s.older p l e))
          | no o ↦ s.older a k (sym (read-put_other h p a (some m) (λ q. o (sym q))) ∙ f)
        ];
      })

read-append :
    (h : Heap) (c : Loc) (a : Address) (l : Loc)
    → read (h ++ some c ∷ []) a ≡ some l
    → (read h a ≡ some l) ⊎ ((a ≡ length h) × (c ≡ l))
read-append [] c zero l e = inr (refl, cc)
read-append [] c (suc a) l e = absurd (cc)
read-append (x ∷ h) c zero l e = inl e
read-append (x ∷ h) c (suc a) l e = elim (read-append h c a l e) [
  | inl f ↦ inl f
  | inr (f, g) ↦ inr (ap suc f, g)
]

pub count_at-length : (h : Heap) (a : Address) → 0 < count_at h a → a < length h
count_at-length [] a lt = absurd (omega arith)
count_at-length (c ∷ h) zero lt = omega arith
count_at-length (c ∷ h) (suc a) lt = omega (arith, count_at-length h a lt)

elements-older :
    (h : Heap) (ps : List Address)
    → ((a : Address) → 0 < tally a ps → 0 < count_at h a)
    → All (λ q. q < length h) ps
elements-older h [] f = tt
elements-older h (p ∷ ps) f = (
  count_at-length h p (f p (omega (arith, tally_self p ps))),
  elements-older h ps (λ a lt. f a (omega arith)),
)

pub new_loc-Sound :
    (n : ℕ) (d : Data (List Address)) (held : List Address) (h : Heap)
    → Sound n (elements d ++ held) h
    → Sound (suc n) (length h ∷ held) (new_loc d h)
new_loc-Sound n d held h s =
    let c : Loc = record { ref_cnt = 1; data_ptr = d } in
    let past : count_at h (length h) ≡ 0 = absent h in
    let at : (a : Address) → count_at (new_loc d h) a ≡ here (length h == a) + count_at h a =
      λ a. ground (arith, count_at-append h c a, past) in
    record {
      counted = λ a. ground (
        arith,
        at a,
        s.counted a,
        tally-append a (elements d) held,
        total-append (weight a) h (some c ∷ []),
      );
      small = λ a. ground (arith, at a, s.small a, past);
      used = λ a l e. elim (read-append h c a l e) [
        | inl f ↦ s.used a l f
        | inr (f, q) ↦ rw (← q) (omega arith)
      ];
      older = λ a l e. elim (read-append h c a l e) [
        | inl f ↦ s.older a l f
        | inr (f, q) ↦ rw f (
            rw (← q) (
              elements-older h (elements d)
                (λ b lt. omega (arith, s.counted b, tally-append b (elements d) held, lt))))
      ];
    }
  where
    absent : (h : Heap) → count_at h (length h) ≡ 0
    absent [] = refl
    absent (c ∷ h) = absent h
