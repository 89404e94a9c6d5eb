-- ===== src/Var/Store/Less.antt =====
-- A reference dropped from a location of lib/cclvar.h, before anything is deleted.
use native.Mathlib.Decide.{ℕ_discrete}
use cclib.Base.{
  suc, ◌+◌, ◌-◌, ◌<◌, ◌≤◌, ◌≡◌, ◌≢◌, refl, sym, ap, ◌∙◌, arith, Option, none, some, List, ◌∷◌, ◌++◌,
  ltb, ◌==◌, inl, inr, ◌⊎◌,
}
use cclib.Var.Store.{
  Data, then_on, Address, Loc, Heap, read, put, elements, Result, done, dangling, out_of_fuel,
  then_on, sub_ref,
}
use cclib.Var.Store.Counts.{
  here, count, count_at, weight, alive, Counted, live, tally-append, read-put, read-put_other,
  total-put,
}

-- No count wraps around.
abbrev pub IsSmall : Heap → Type 0
IsSmall h = (a : Address) → count_at h a < 4294967296

pub record Dropped (h : Heap) (held : List Address) (g : Heap) : Type 0 where
  pub counted : Counted held g
  pub below : (a : Address) → count_at g a ≤ count_at h a
  pub kept : (a : Address) → count_at h a ≡ 0 → read g a ≡ read h a
  pub clean : (a : Address) (l : Loc) → read g a ≡ some l → l.ref_cnt ≡ 0 → read h a ≡ some l
  pub same :
      (a : Address) (l : Loc)
      → read g a ≡ some l
      → (k : Loc) × (read h a ≡ some k) × (k.data_ptr ≡ l.data_ptr)
  pub fewer : live g ≤ live h

abbrev pub Ends : {A : Type 0} → (A → Type 0) → Result A → Type 0
Ends P (done x) = P x
Ends P dangling = ⊥
Ends P out_of_fuel = ⊥

pub Ends-then_on :
    {A B : Type 0} (P : A → Type 0) (Q : B → Type 0) (r : Result A) (next : A → Result B)
    → Ends P r
    → ((x : A) → P x → Ends Q (next x))
    → Ends Q (then_on r next)
Ends-then_on P Q (done x) next e f = f x e
Ends-then_on P Q dangling next e f = e
Ends-then_on P Q out_of_fuel next e f = e

pub Ends-map :
    {A : Type 0} (P Q : A → Type 0) (r : Result A) → Ends P r → ((x : A) → P x → Q x) → Ends Q r
Ends-map P Q (done x) e f = f x e
Ends-map P Q dangling e f = e
Ends-map P Q out_of_fuel e f = e

pub Dropped-trans :
    (h g k : Heap) (held kept : List Address)
    → Dropped h held g
    → Dropped g kept k
    → Dropped h kept k
Dropped-trans h g k held kept a b = record {
  counted = b.counted;
  below = λ p. omega (arith, a.below p, b.below p);
  kept = λ p e. b.kept p (omega (arith, a.below p, e)) ∙ a.kept p e;
  clean = λ p l e z. a.clean p l (b.clean p l e z) z;
  same = λ p l e. let (m, f, x) = b.same p l e in let (n, o, y) = a.same p m f in (n, o, y ∙ x);
  fewer = omega (arith, a.fewer, b.fewer);
}

pub count-put :
    (h : Heap) (p a : Address) (l : Loc) (d : Option Loc)
    → read h p ≡ some l
    → ((p ≡ a) × (count_at h a ≡ l.ref_cnt) × (count_at (put h p d) a ≡ count d))
      ⊎ ((p ≢ a) × (count_at (put h p d) a ≡ count_at h a))
count-put h p a l d e = elim (ℕ_discrete p a) [
  | yes s ↦ inl (s, rw (← s, e), rw (← s) (ap count (read-put h p l d e)))
  | no n ↦ inr (n, ap count (read-put_other h p a d (λ s. n (sym s))))
]

-- The count falls by one.
sub_ref-count :
    (l : Loc) → 0 < l.ref_cnt → l.ref_cnt < 4294967296 → suc (sub_ref l).ref_cnt ≡ l.ref_cnt
sub_ref-count l lt s = omega arith

abbrev pub data_of : Option Loc → Data (List Address) → Data (List Address)
data_of none d = d
data_of (some l) d = l.data_ptr

module _ (h : Heap) (p : Address) (l : Loc) (e : read h p ≡ some l) (some_ref : 0 < l.ref_cnt)
    (small : l.ref_cnt < 4294967296) where
  abbrev less : Heap
  less = put h p (some (sub_ref l))

  pub count-less : (a : Address) → count_at less a + here (p == a) ≡ count_at h a
  count-less a = elim (count-put h p a l (some (sub_ref l)) e) [
    | inl (s, x, y) ↦ ground (arith, s, x, y, sub_ref-count l some_ref small)
    | inr (n, y) ↦ ground (arith, n, y)
  ]

  pub same-less :
      (a : Address) (k : Loc)
      → read less a ≡ some k
      → (n : Loc) × (read h a ≡ some n) × (n.data_ptr ≡ k.data_ptr)
  same-less a k r = elim (ℕ_discrete p a) [
    | yes s ↦
        let at_p : read less p ≡ some k = ap (λ q. read less q) s ∙ r in
        let found : some (sub_ref l) ≡ some k = sym (read-put h p l (some (sub_ref l)) e) ∙ at_p in
        (l, rw (← s) e, ap (λ c. data_of c l.data_ptr) found)
    | no n ↦ (k, sym (read-put_other h p a (some (sub_ref l)) (λ s. n (sym s))) ∙ r, refl)
  ]

  pub live-less : live less + (1 - here (ltb 0 (sub_ref l).ref_cnt)) ≡ live h
  live-less = ground (arith, total-put alive h p l (some (sub_ref l)) e, some_ref)

  pub live-last : (sub_ref l).ref_cnt ≡ 0 → suc (live less) ≡ live h
  live-last z = ground (arith, live-less, z)

  pub less-Dropped :
      (held : List Address) → Counted (p ∷ held) h → 0 < (sub_ref l).ref_cnt → Dropped h held less
  less-Dropped held c lt = record {
    counted = λ a.
        ground
          (arith, count-less a, c a, total-put (weight a) h p l (some (sub_ref l)) e, some_ref, lt);
    below = λ a. omega (arith, count-less a);
    kept = λ a z.
        read-put_other h p a (some (sub_ref l)) (λ s. absurd (ground (arith, s, z, e, some_ref)));
    clean = λ a k r z. elim (ℕ_discrete p a) [
      | yes s ↦ absurd (ground (arith, s, r, z, lt, read-put h p l (some (sub_ref l)) e))
      | no n ↦ sym (read-put_other h p a (some (sub_ref l)) (λ s. n (sym s))) ∙ r
    ];
    same = same-less;
    fewer = omega (arith, live-less);
  }

  -- The references of a location whose last one is dropped are dropped with it.
  pub less-Counted :
      (held : List Address)
      → Counted (p ∷ held) h
      → (sub_ref l).ref_cnt ≡ 0
      → Counted (elements l.data_ptr ++ held) less
  less-Counted held c z a = ground (
    arith,
    count-less a,
    c a,
    total-put (weight a) h p l (some (sub_ref l)) e,
    some_ref,
    z,
    tally-append a (elements l.data_ptr) held,
  )
