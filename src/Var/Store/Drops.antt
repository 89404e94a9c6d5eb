-- ===== src/Var/Store/Drops.antt =====
-- What `unref` of lib/cclvar.h leaves of the counts of lib/cclvar.cc's locations.
use native.Mathlib.Decide.{ℕ_discrete}
use cclib.Base.{
  ℕ, zero, suc, ◌<◌, ◌≤◌, ◌≡◌, ◌≢◌, refl, sym, ap, ◌∙◌, arith, none, some, List, [], ◌∷◌, ◌++◌,
  ◌==◌, Bool-cases, inl, inr,
}
use cclib.Var.Store.{
  Address, Loc, Heap, read, put, elements, Result, free, sub_ref, unref_all, unref,
}
use cclib.Var.Store.Counts.{
  count, weight, alive, Counted, live, tally_self, read-put, read-put_other, total-put, read-count,
}
use cclib.Var.Store.Less.{
  IsSmall, Dropped, Ends, Ends-then_on, Ends-map, Dropped-trans, count-put, count-less, live-less,
  live-last, same-less, less-Dropped, less-Counted,
}

-- A part of the references dropped, one after another.
unref_all-Dropped :
    (drop : Address → Heap → Result Heap) (fuel : ℕ)
    → ((p : Address) (held : List Address) (h : Heap)
        → Counted (p ∷ held) h
        → IsSmall h
        → live h ≤ fuel
        → Ends (Dropped h held) (drop p h))
    → (ps held : List Address) (h : Heap) → Counted (ps ++ held) h
    → IsSmall h
    → live h ≤ fuel
    → Ends (Dropped h held) (unref_all drop ps h)
unref_all-Dropped drop fuel f [] held h c s le = record {
  counted = c;
  below = λ a. omega arith;
  kept = λ a e. refl;
  clean = λ a l e z. e;
  same = λ a l e. (l, e, refl);
  fewer = omega arith;
}
unref_all-Dropped drop fuel f (p ∷ ps) held h c s le =
    Ends-then_on (Dropped h (ps ++ held)) (Dropped h held) (drop p h) (unref_all drop ps)
      (f p (ps ++ held) h c s le)
      (λ g d.
        Ends-map (Dropped g held) (Dropped h held) (unref_all drop ps g)
          (unref_all-Dropped drop fuel f ps held g d.counted (λ a. omega (arith, d.below a, s a))
            (omega (arith, d.fewer, le)))
          (λ k e. Dropped-trans h g k (ps ++ held) held d e))

free-Dropped :
    (k : Heap) (p : Address) (m : Loc) (held : List Address)
    → read k p ≡ some m
    → m.ref_cnt ≡ 0
    → Counted held k
    → Counted held (put k p none)
free-Dropped k p m held e z c a = elim (count-put k p a m none e) [
  | inl (s, x, y) ↦ ground (arith, x, y, z, c a, total-put (weight a) k p m none e)
  | inr (n, y) ↦ ground (arith, y, z, c a, total-put (weight a) k p m none e)
]

free-Ends :
    (k : Heap) (p : Address) (m : Loc) (P : Heap → Type 0)
    → read k p ≡ some m
    → P (put k p none)
    → Ends P (free p k)
free-Ends k p m P e q = rw (e, Ends) q

-- Everything of a deletion: the destructor ran on the heap without the last reference, and the
-- memory is given back.
delete-Dropped :
    (h : Heap) (p : Address) (l : Loc) (held : List Address) (e : read h p ≡ some l)
    (lt : 0 < l.ref_cnt) (small : l.ref_cnt < 4294967296) (z : (sub_ref l).ref_cnt ≡ 0) (k : Heap)
    → Dropped (put h p (some (sub_ref l))) held k
    → Ends (Dropped h held) (free p k)
delete-Dropped h p l held e lt small z k d =
    let m = sub_ref l in
    let g = put h p (some m) in
    let stands : read g p ≡ some m = read-put h p l (some m) e in
    let at_p : read k p ≡ some m = d.kept p (ap count stands ∙ z) ∙ stands in
    let fewer = count-less h p l e lt small in
    free-Ends k p m (Dropped h held) at_p (record {
      counted = free-Dropped k p m held at_p z d.counted;
      below = λ a. elim (count-put k p a m none at_p) [
        | inl (s, x, y) ↦ ground (arith, y)
        | inr (n, y) ↦ omega (arith, y, d.below a, fewer a)
      ];
      kept = λ a o. elim (ℕ_discrete p a) [
        | yes s ↦ absurd (ground (arith, s, o, e, lt))
        | no n ↦
            let other : a ≢ p = λ s. n (sym s) in
            read-put_other k p a none other
            ∙ d.kept a (ap count (read-put_other h p a (some m) other) ∙ o)
            ∙ read-put_other h p a (some m) other
      ];
      clean = λ a r q o. elim (ℕ_discrete p a) [
        | yes s ↦ absurd (ground (arith, s, q, read-put k p m none at_p))
        | no n ↦
            let other : a ≢ p = λ s. n (sym s) in
            sym (read-put_other h p a (some m) other)
            ∙ d.clean a r (sym (read-put_other k p a none other) ∙ q) o
      ];
      same = λ a r q. elim (ℕ_discrete p a) [
        | yes s ↦ absurd (ground (arith, s, q, read-put k p m none at_p))
        | no n ↦
            let (x, f, y) = d.same a r (sym (read-put_other k p a none (λ s. n (sym s))) ∙ q) in
            let (z, o, w) = same-less h p l e lt small a x f in (z, o, w ∙ y)
      ];
      fewer = omega (arith, d.fewer, live-less h p l e lt small, total-put alive k p m none at_p);
    })

-- With fuel for each location that is in use, a reference is dropped: no deleted location is met, the
-- counts are those of the references that are left, no count rises, and a location without references
-- that was not there before is not left behind.
pub unref-Dropped :
    (fuel : ℕ) (p : Address) (held : List Address) (h : Heap)
    → Counted (p ∷ held) h
    → IsSmall h
    → live h ≤ fuel
    → Ends (Dropped h held) (unref fuel p h)
unfolding unref
unref-Dropped zero p held h c s le =
    let (l, e, lt) = read-count h p (omega (arith, c p, tally_self p held)) in
    absurd (ground (arith, le, total-put alive h p l none e, lt))
unref-Dropped (suc fuel) p held h c s le =
    let (l, e, lt) = read-count h p (omega (arith, c p, tally_self p held)) in
    let small : l.ref_cnt < 4294967296 = ground (arith, s p, e) in
    elim (Bool-cases ((sub_ref l).ref_cnt == 0)) [
      | inl b ↦
          let z : (sub_ref l).ref_cnt ≡ 0 = ground (arith, b) in
          let g = put h p (some (sub_ref l)) in
          rw (e, unref, b)
            (Ends-then_on (Dropped g held) (Dropped h held)
              (unref_all (unref fuel) (elements l.data_ptr) g) (free p)
              (unref_all-Dropped (unref fuel) fuel (unref-Dropped fuel) (elements l.data_ptr) held g
                (less-Counted h p l e lt small held c z)
                (λ a. omega (arith, count-less h p l e lt small a, s a))
                (omega (arith, live-last h p l e lt small z)))
              (delete-Dropped h p l held e lt small z))
      | inr b ↦ rw (e, unref, b) (less-Dropped h p l e lt small held c (ground (arith, b)))
    ]
