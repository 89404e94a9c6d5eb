-- ===== src/Var/Compare/Order.antt =====
-- `compare` of lib/cclvar.cc is a total preorder on values without NaN, which is what the sets and
-- maps of values rest on.
use Prim.Native.Nat.{compare as compare_ℕ, Ordering}
use cclib.Base.{◌+◌, ◌≢◌, ℕ, ◌≡◌, refl, arith, false, ◌∷◌, [], Bytes}
use cclib.Base.Int.{ℤ}
use cclib.Var.Compare.{
  then_by, compare_ℤ, compare_double, compare_string, is_nan, ltb_double, positive, negative,
}

abbrev pub flip : Ordering → Ordering
flip Ordering.lt = Ordering.gt
flip Ordering.eq = Ordering.eq
flip Ordering.gt = Ordering.lt

-- What the comparisons of x with y and of y with z say of that of x with z.
abbrev pub Chain : Ordering → Ordering → Ordering → Type 0
Chain Ordering.eq p q = q ≡ p
Chain Ordering.lt Ordering.gt q = Unit
Chain Ordering.lt _ q = q ≡ Ordering.lt
Chain Ordering.gt Ordering.lt q = Unit
Chain Ordering.gt _ q = q ≡ Ordering.gt

pub flip-then_by : (o p : Ordering) → flip (then_by o p) ≡ then_by (flip o) (flip p)
flip-then_by Ordering.lt p = refl
flip-then_by Ordering.eq p = refl
flip-then_by Ordering.gt p = refl

pub Chain-left : (o p : Ordering) → o ≢ Ordering.eq → Chain o p o
Chain-left Ordering.eq p h = absurd (h refl)
Chain-left Ordering.lt Ordering.gt h = tt
Chain-left Ordering.lt _ h = refl
Chain-left Ordering.gt Ordering.lt h = tt
Chain-left Ordering.gt _ h = refl

pub Chain-right : (o p : Ordering) → o ≢ Ordering.eq → Chain p o o
Chain-right Ordering.eq p h = absurd (h refl)
Chain-right o Ordering.eq h = refl
Chain-right Ordering.lt Ordering.lt h = refl
Chain-right Ordering.lt Ordering.gt h = tt
Chain-right Ordering.gt Ordering.lt h = tt
Chain-right Ordering.gt Ordering.gt h = refl

-- Comparisons in turn keep the rule.
pub then_by-Chain :
    (o p q o' p' q' : Ordering)
    → Chain o p q
    → (o ≡ Ordering.eq → p ≡ Ordering.eq → Chain o' p' q')
    → Chain (then_by o o') (then_by p p') (then_by q q')
then_by-Chain Ordering.lt Ordering.lt q o' p' q' h k = rw h
then_by-Chain Ordering.lt Ordering.eq q o' p' q' h k = rw h (Chain-left Ordering.lt p' (cc))
then_by-Chain Ordering.lt Ordering.gt q o' p' q' h k = tt
then_by-Chain Ordering.gt Ordering.lt q o' p' q' h k = tt
then_by-Chain Ordering.gt Ordering.eq q o' p' q' h k = rw h (Chain-left Ordering.gt p' (cc))
then_by-Chain Ordering.gt Ordering.gt q o' p' q' h k = rw h
then_by-Chain Ordering.eq Ordering.eq q o' p' q' h k = rw h (k refl refl)
then_by-Chain Ordering.eq Ordering.lt q o' p' q' h k = rw h (Chain-right Ordering.lt o' (cc))
then_by-Chain Ordering.eq Ordering.gt q o' p' q' h k = rw h (Chain-right Ordering.gt o' (cc))

pub ℕ-flip : (a b : ℕ) → compare_ℕ b a ≡ flip (compare_ℕ a b)
ℕ-flip a b = ground arith

pub ℕ-Chain : (a b c : ℕ) → Chain (compare_ℕ a b) (compare_ℕ b c) (compare_ℕ a c)
ℕ-Chain a b c = ground arith

pub ℤ-flip : (a b : ℤ) → compare_ℤ b a ≡ flip (compare_ℤ a b)
ℤ-flip a b = ground arith

pub ℤ-Chain : (a b c : ℤ) → Chain (compare_ℤ a b) (compare_ℤ b c) (compare_ℤ a c)
ℤ-Chain a b c = ground arith

pub double-flip : (a b : ℕ) → compare_double b a ≡ flip (compare_double a b)
unfolding compare_double
double-flip a b = ground arith

compare_double_parts :
    (a b : ℕ)
    → is_nan a ≡ false
    → is_nan b ≡ false
    → compare_double a b ≡ compare_ℕ (positive a + negative b) (positive b + negative a)
unfolding compare_double ltb_double
compare_double_parts a b ha hb = ground arith

parts-Chain :
    (p n p' n' p'' n'' : ℕ)
    → Chain
        (compare_ℕ (p + n') (p' + n))
        (compare_ℕ (p' + n'') (p'' + n'))
        (compare_ℕ (p + n'') (p'' + n))
parts-Chain p n p' n' p'' n'' = ground arith

pub double-Chain :
    (a b c : ℕ)
    → is_nan a ≡ false
    → is_nan b ≡ false
    → is_nan c ≡ false
    → Chain (compare_double a b) (compare_double b c) (compare_double a c)
double-Chain a b c ha hb hc =
    rw
      (
        compare_double_parts a b ha hb,
        compare_double_parts b c hb hc,
        compare_double_parts a c ha hc,
      )
      (parts-Chain (positive a) (negative a) (positive b) (negative b) (positive c) (negative c))

pub string-flip : (s t : Bytes) → compare_string t s ≡ flip (compare_string s t)
unfolding compare_string
string-flip [] [] = refl
string-flip [] (b ∷ t) = refl
string-flip (a ∷ s) [] = refl
string-flip (a ∷ s) (b ∷ t) = rw (ℕ-flip a b, string-flip s t, flip-then_by)

pub string-Chain :
    (s t u : Bytes) → Chain (compare_string s t) (compare_string t u) (compare_string s u)
unfolding compare_string
string-Chain [] [] u = refl
string-Chain [] (b ∷ t) [] = tt
string-Chain [] (b ∷ t) (c ∷ u) = Chain-left Ordering.lt _ (cc)
string-Chain (a ∷ s) [] [] = refl
string-Chain (a ∷ s) [] (c ∷ u) = tt
string-Chain (a ∷ s) (b ∷ t) [] = Chain-right Ordering.gt _ (cc)
string-Chain (a ∷ s) (b ∷ t) (c ∷ u) =
    then_by-Chain _ _ _ _ _ _ (ℕ-Chain a b c) (λ _ _. string-Chain s t u)
