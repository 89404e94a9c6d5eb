-- ===== src/Var/Store/Steps.antt =====
-- One call on the variables of lib/cclvar.h and lib/cclvar.cc keeps the counts right.
use mathlib.Core.Path.{subst}
use cclib.Base.{
  length-append, ℕ, suc, ◌+◌, ◌<◌, ◌≡◌, refl, ap, arith, Option, none, some, Option-cases, List, [],
  ◌∷◌, ◌++◌, Bytes, length, drop, get_elem?, inl, inr,
}
use cclib.Var.Store.{Address, Data, Loc, Heap, read, elements, Result, done, then_on, ref}
use cclib.Var.Store.Data.{blank, string}
use cclib.Var.Store.Counts.{tally, count_at, weight, tally-append, tally_self, total-put}
use cclib.Var.Store.Less.{Ends, Ends-then_on}
use cclib.Var.Store.Variables.{
  State, Call, make, literal, copy_var, copy_part, assign, drop_var, moved, fill_data, new_loc,
  drop_ref, find_literal, remove, set_at, part_of, with, share, step,
}
use cclib.Var.Store.Sound.{
  Sound, Sound-same, Sound-more, Sound-held, drop_ref-Sound, ref-Sound, new_loc-Sound,
}
use cclib.Var.Store.Held.{
  addresses, held, IsSound, tally-remove, tally-set_at, tally-elem, tally-find, elements-fill_data,
}

-- A part of a location that is there is referred to.
pub part-used :
    (n : ℕ) (ps : List Address) (h : Heap) (p q : Address) (l : Loc)
    → Sound n ps h
    → read h p ≡ some l
    → 0 < tally q (elements l.data_ptr)
    → 0 < count_at h q
part-used n ps h p q l s e lt =
    ground (arith, s.counted q, s.used p l e, total-put (weight q) h p l none e)

part_of-used :
    (n k : ℕ) (ps : List Address) (h : Heap) (o : Option Address) (q : Address)
    → Sound n ps h
    → part_of h k o ≡ some q
    → 0 < count_at h q
part_of-used n k ps h none q s e = absurd (cc)
part_of-used n k ps h (some p) q s e = elim (Option-cases (read h p)) [
  | inl f ↦ absurd (ground (arith, e, f))
  | inr (l, f) ↦
      part-used n ps h p q l s f (tally-elem q (elements l.data_ptr) k (ground (arith, e, f)))
]

share-Sound :
    (n : ℕ) (s : State) (p : Address)
    → IsSound n s
    → n + 4 < 4294967296
    → 0 < count_at s.heap p
    → Ends (IsSound (n + 3)) (share s p)
share-Sound n s p v lt some_ref =
    Ends-then_on (Sound (suc n) (p ∷ held s)) (IsSound (n + 3)) (ref p s.heap)
      (λ h. done (record s { heap = h; vars = p ∷ s.vars }))
      (ref-Sound n p (held s) s.heap v (omega arith) some_ref)
      (λ h w. Sound-more (suc n) (n + 3) (p ∷ held s) h w (omega arith))

var-used :
    (n : ℕ) (s : State) (p : Address) (i : ℕ)
    → IsSound n s
    → get_elem? s.vars i ≡ some p
    → 0 < count_at s.heap p
var-used n s p i v e =
    Sound-held n (held s) s.heap p v
      (omega (arith, tally-append p s.vars (addresses s.str_map), tally-elem p s.vars i e))

with-Ends :
    {A B : Type 0} (P : B → Type 0) (o : Option A) (r : Result B) (f : A → Result B)
    → (o ≡ none → Ends P r)
    → ((x : A) → o ≡ some x → Ends P (f x))
    → Ends P (with o r f)
with-Ends P none r f a b = a refl
with-Ends P (some x) r f a b = b x refl

make-Sound :
    (n : ℕ) (d : Data ℕ) (s : State)
    → IsSound n s
    → IsSound (suc n) (record s {
      heap = new_loc (fill_data d s.vars) s.heap;
      vars = length s.heap ∷ drop (moved d) s.vars;
    })
make-Sound n d s v =
    let ps = elements (fill_data d s.vars) in
    let qs = drop (moved d) s.vars in
    let ls = addresses s.str_map in
    new_loc-Sound n (fill_data d s.vars) (qs ++ ls) s.heap (
      Sound-same n (held s) (ps ++ (qs ++ ls)) s.heap v (λ a. omega (
        arith,
        tally-append a s.vars ls,
        ap (tally a) (elements-fill_data d s.vars),
        tally-append a ps qs,
        tally-append a ps (qs ++ ls),
        tally-append a qs ls,
      )))

length-new : (h : Heap) (d : Data (List Address)) → length (new_loc d h) ≡ suc (length h)
length-new h d = omega (arith, length-append h (some (record { ref_cnt = 1; data_ptr = d }) ∷ []))

literal-Sound :
    (n : ℕ) (v : Bytes) (s : State)
    → IsSound n s
    → n + 4 < 4294967296
    → let q = length s.heap in
      Ends (IsSound (n + 3)) (
        then_on (ref q (new_loc blank (new_loc (string v) s.heap))) (λ h.
          then_on
            (drop_ref (suc q) h)
            (λ g. done (record { heap = g; vars = q ∷ s.vars; str_map = (v, q) ∷ s.str_map }))))
literal-Sound n v s w lt =
    let q = length s.heap in
    let h = new_loc (string v) s.heap in
    let ls = addresses s.str_map in
    let rs = (q ∷ s.vars) ++ (q ∷ ls) in
    let first : Sound (suc n) (q ∷ held s) h = new_loc-Sound n (string v) (held s) s.heap w in
    let second : Sound (n + 2) (suc q ∷ q ∷ held s) (new_loc blank h) =
      subst (λ r. Sound (n + 2) (r ∷ q ∷ held s) (new_loc blank h)) (length-new s.heap (string v))
        (Sound-more (suc (suc n)) (n + 2) _ _ (new_loc-Sound (suc n) blank (q ∷ held s) h first)
          (omega arith)) in
    Ends-then_on (Sound (suc (n + 2)) (q ∷ suc q ∷ q ∷ held s)) (IsSound (n + 3))
      (ref q (new_loc blank h)) _
      (ref-Sound (n + 2) q (suc q ∷ q ∷ held s) (new_loc blank h) second (omega arith) (
        Sound-held (n + 2) (suc q ∷ q ∷ held s) (new_loc blank h) q second
          (omega (arith, tally_self q (held s)))))
      (λ g x.
        Ends-then_on (Sound (suc (n + 2)) rs) (IsSound (n + 3)) (drop_ref (suc q) g) _
          (drop_ref-Sound (suc (n + 2)) (suc q) rs g
            (Sound-same (suc (n + 2)) (q ∷ suc q ∷ q ∷ held s) (suc q ∷ rs) g x
              (λ a. omega (arith, tally-append a s.vars ls, tally-append a s.vars (q ∷ ls))))
            (omega arith))
          (λ k y. Sound-more (suc (n + 2)) (n + 3) rs k y (omega arith)))

assign-Sound :
    (n i : ℕ) (p q : Address) (s : State)
    → IsSound n s
    → n + 4 < 4294967296
    → get_elem? s.vars i ≡ some p
    → 0 < count_at s.heap q
    → Ends (IsSound (n + 3)) (
        then_on (ref q s.heap) (λ h.
          then_on (drop_ref p h) (λ g. done (record s { heap = g; vars = set_at i q s.vars }))))
assign-Sound n i p q s v lt e some_ref =
    let rs = set_at i q s.vars ++ addresses s.str_map in
    Ends-then_on (Sound (suc n) (q ∷ held s)) (IsSound (n + 3)) (ref q s.heap) _
      (ref-Sound n q (held s) s.heap v (omega arith) some_ref)
      (λ h w.
        Ends-then_on (Sound (suc n) rs) (IsSound (n + 3)) (drop_ref p h) _
          (drop_ref-Sound (suc n) p rs h
            (Sound-same (suc n) (q ∷ held s) (p ∷ rs) h w (λ a. omega (
              arith,
              tally-set_at a p q s.vars i e,
              tally-append a s.vars (addresses s.str_map),
              tally-append a (set_at i q s.vars) (addresses s.str_map),
            )))
            (omega arith))
          (λ g x. Sound-more (suc n) (n + 3) rs g x (omega arith)))

destroy-Sound :
    (n i : ℕ) (p : Address) (s : State)
    → IsSound n s
    → n + 4 < 4294967296
    → get_elem? s.vars i ≡ some p
    → Ends
        (IsSound (n + 3))
        (then_on (drop_ref p s.heap) (λ h. done (record s { heap = h; vars = remove i s.vars })))
destroy-Sound n i p s v lt e =
    let rs = remove i s.vars ++ addresses s.str_map in
    Ends-then_on (Sound n rs) (IsSound (n + 3)) (drop_ref p s.heap) _
      (drop_ref-Sound n p rs s.heap
        (Sound-same n (held s) (p ∷ rs) s.heap v (λ a. omega (
          arith,
          tally-remove a p s.vars i e,
          tally-append a s.vars (addresses s.str_map),
          tally-append a (remove i s.vars) (addresses s.str_map),
        )))
        (omega arith))
      (λ g x. Sound-more n (n + 3) rs g x (omega arith))

pub step-Sound :
    (n : ℕ) (c : Call) (s : State)
    → IsSound n s
    → n + 4 < 4294967296
    → Ends (IsSound (n + 3)) (step c s)
unfolding step
step-Sound n (make d) s v lt = Sound-more (suc n) (n + 3) _ _ (make-Sound n d s v) (omega arith)
step-Sound n (literal t) s v lt =
    with-Ends (IsSound (n + 3)) (find_literal t s.str_map) _ (share s)
      (λ e. literal-Sound n t s v lt)
      (λ q e. share-Sound n s q v lt (
        Sound-held n (held s) s.heap q v
          (omega (arith, tally-append q s.vars (addresses s.str_map), tally-find t s.str_map q e))))
step-Sound n (copy_var i) s v lt =
    with-Ends (IsSound (n + 3)) (get_elem? s.vars i) (done s) (share s)
      (λ e. Sound-more n (n + 3) _ _ v (omega arith))
      (λ p e. share-Sound n s p v lt (var-used n s p i v e))
step-Sound n (copy_part i k) s v lt =
    with-Ends (IsSound (n + 3)) (part_of s.heap k (get_elem? s.vars i)) (done s) (share s)
      (λ e. Sound-more n (n + 3) _ _ v (omega arith))
      (λ q e. share-Sound n s q v lt (part_of-used n k (held s) s.heap (get_elem? s.vars i) q v e))
step-Sound n (assign i j) s v lt =
    with-Ends (IsSound (n + 3)) (get_elem? s.vars j) (done s) _
      (λ e. Sound-more n (n + 3) _ _ v (omega arith))
      (λ q e.
        with-Ends (IsSound (n + 3)) (get_elem? s.vars i) (done s) _
          (λ f. Sound-more n (n + 3) _ _ v (omega arith))
          (λ p f. assign-Sound n i p q s v lt f (var-used n s q j v e)))
step-Sound n (drop_var i) s v lt =
    with-Ends (IsSound (n + 3)) (get_elem? s.vars i) (done s) _
      (λ e. Sound-more n (n + 3) _ _ v (omega arith)) (λ p e. destroy-Sound n i p s v lt e)
