-- ===== src/Var/Compare/Total.antt =====
-- `loc_c::compare` of lib/cclvar.cc on whole values, from the comparisons of the parts.
use Prim.Native.Nat.{compare as compare_ℕ, Ordering}
use cclib.Base.{
  ℕ, ◌≡◌, ◌≢◌, refl, arith, Bool, true, false, ◌&&◌, ◌==◌, Bool-cases, ==_iff, inl, inr, ap, sym,
  ◌∙◌,
}
use cclib.Var.Value.{
  Var, Vars, Pairs, blank, bool, integer, float, string, array, set, list, dict, nil, cons,
  none_left, pair, type, size, pairs_size,
}
use cclib.Var.Compare.{
  compare_double, then_by, compare, compare_items, compare_pairs, is_nan, bool_value,
}
use cclib.Var.Compare.Order.{
  flip, Chain, flip-then_by, then_by-Chain, ℕ-flip, ℕ-Chain, ℤ-flip, ℤ-Chain, double-flip,
  double-Chain, string-flip, string-Chain, Chain-left, Chain-right,
}

-- No `double` in the value is a NaN.
abbrev mutual
  pub NoNan : Var → Type 0
  NoNan blank = Unit
  NoNan (bool b) = Unit
  NoNan (integer n) = Unit
  NoNan (float d) = is_nan d ≡ false
  NoNan (string s) = Unit
  NoNan (array xs) = NoNanItems xs
  NoNan (set xs) = NoNanItems xs
  NoNan (list xs) = NoNanItems xs
  NoNan (dict ps) = NoNanPairs ps

  pub NoNanItems : Vars → Type 0
  NoNanItems nil = Unit
  NoNanItems (cons x xs) = NoNan x × NoNanItems xs

  pub NoNanPairs : Pairs → Type 0
  NoNanPairs none_left = Unit
  NoNanPairs (pair k v ps) = NoNan k × NoNan v × NoNanPairs ps

-- Values of different types are compared by their types.
pub compare_types :
    (a b : Var) → (type a == type b) ≡ false → compare a b ≡ compare_ℕ (type a) (type b)
unfolding compare
compare_types blank blank h = cc
compare_types (bool a) (bool b) h = cc
compare_types (integer a) (integer b) h = cc
compare_types (float a) (float b) h = cc
compare_types (string a) (string b) h = cc
compare_types (array a) (array b) h = cc
compare_types (set a) (set b) h = cc
compare_types (list a) (list b) h = cc
compare_types (dict a) (dict b) h = cc
compare_types a b h = refl

types_differ : (m n : ℕ) → (m == n) ≡ false → (n == m) ≡ false
types_differ m n h = ground arith

compare_types_flip : (a b : Var) → (type a == type b) ≡ false → compare b a ≡ flip (compare a b)
compare_types_flip a b h =
    rw (compare_types a b h, compare_types b a (types_differ (type a) (type b) h))
      (ℕ-flip (type a) (type b))

pub flip_twice :
    (o p o' p' : Ordering) → o' ≡ flip o → p' ≡ flip p → then_by o' p' ≡ flip (then_by o p)
flip_twice o p o' p' h k = rw (h, k, flip-then_by)

mutual
  unfolding compare

  flip_values : (a b : Var) → compare b a ≡ flip (compare a b)
  flip_values blank blank = refl
  flip_values (bool a) (bool b) = ℕ-flip (bool_value a) (bool_value b)
  flip_values (integer a) (integer b) = ℤ-flip a b
  flip_values (float a) (float b) = double-flip a b
  flip_values (string a) (string b) = string-flip a b
  flip_values (array xs) (array ys) =
      flip_twice _ _ _ _ (ℕ-flip (size xs) (size ys)) (flip_items xs ys)
  flip_values (set xs) (set ys) = flip_twice _ _ _ _ (ℕ-flip (size xs) (size ys)) (flip_items xs ys)
  flip_values (list xs) (list ys) =
      flip_twice _ _ _ _ (ℕ-flip (size xs) (size ys)) (flip_items xs ys)
  flip_values (dict ps) (dict qs) =
      flip_twice _ _ _ _ (ℕ-flip (pairs_size ps) (pairs_size qs)) (flip_pairs ps qs)
  flip_values a b = compare_types_flip a b refl

  flip_items : (xs ys : Vars) → compare_items ys xs ≡ flip (compare_items xs ys)
  flip_items nil nil = refl
  flip_items nil (cons y ys) = refl
  flip_items (cons x xs) nil = refl
  flip_items (cons x xs) (cons y ys) = flip_twice _ _ _ _ (flip_values x y) (flip_items xs ys)

  flip_pairs : (ps qs : Pairs) → compare_pairs qs ps ≡ flip (compare_pairs ps qs)
  flip_pairs none_left none_left = refl
  flip_pairs none_left (pair j w qs) = refl
  flip_pairs (pair k v ps) none_left = refl
  flip_pairs (pair k v ps) (pair j w qs) =
      flip_twice _ _ _ _ (flip_values k j) (flip_twice _ _ _ _ (flip_values v w) (flip_pairs ps qs))

-- Comparing the other way round gives the opposite sign, for all values, NaNs included.
pub compare-flip : (a b : Var) → compare b a ≡ flip (compare a b)
compare-flip a b = flip_values a b

same_types : Var → Var → Var → Bool
same_types a b c = type a == type b && type b == type c

compare-ne-eq : (m n : ℕ) → (m == n) ≡ false → compare_ℕ m n ≢ Ordering.eq
compare-ne-eq m n h = ground arith

opposite-Chain :
    (m n k : ℕ) (q : Ordering) → (m == n) ≡ false → m ≡ k → Chain (compare_ℕ m n) (compare_ℕ n k) q
opposite-Chain m n k q h e = ground arith

ids-Chain :
    (m n k : ℕ) (o p q : Ordering)
    → (m == n && n == k) ≡ false
    → ((m == n) ≡ false → o ≡ compare_ℕ m n)
    → ((n == k) ≡ false → p ≡ compare_ℕ n k)
    → ((m == k) ≡ false → q ≡ compare_ℕ m k)
    → Chain o p q
ids-Chain m n k o p q h e f g = elim (Bool-cases (m == n)) [
  | inl mn ↦
      let nk : (n == k) ≡ false = ground arith in
      let same : q ≡ p =
        g (ground arith) ∙ ap (λ i. compare_ℕ i k) ((==_iff m n).0 mn) ∙ sym (f nk) in
      rw same (Chain-right p o (rw (f nk) (compare-ne-eq n k nk)))
  | inr mn ↦ elim (Bool-cases (n == k)) [
    | inl nk ↦
        let same : q ≡ o =
          g (ground arith) ∙ ap (λ i. compare_ℕ m i) (sym ((==_iff n k).0 nk)) ∙ sym (e mn) in
        rw same (Chain-left o p (rw (e mn) (compare-ne-eq m n mn)))
    | inr nk ↦ elim (Bool-cases (m == k)) [
      | inl mk ↦ rw (e mn, f nk) (opposite-Chain m n k q mn ((==_iff m k).0 mk))
      | inr mk ↦ rw (e mn, f nk, g mk) (ℕ-Chain m n k)
    ]
  ]
]

types-Chain :
    (a b c : Var) → same_types a b c ≡ false → Chain (compare a b) (compare b c) (compare a c)
unfolding same_types
types-Chain a b c h =
    ids-Chain (type a) (type b) (type c) _ _ _ h (compare_types a b) (compare_types b c)
      (compare_types a c)

items_equal_sizes : (m n : ℕ) → compare_ℕ m n ≡ Ordering.eq → m ≡ n
items_equal_sizes m n h = ground arith

-- Sizes first, then the elements of containers of one size.
sized-Chain :
    (m n k : ℕ) (o p q : Ordering)
    → (m ≡ n → n ≡ k → Chain o p q)
    → Chain (then_by (compare_ℕ m n) o) (then_by (compare_ℕ n k) p) (then_by (compare_ℕ m k) q)
sized-Chain m n k o p q h =
    then_by-Chain _ _ _ o p q (ℕ-Chain m n k)
      λ e f. h (items_equal_sizes m n e) (items_equal_sizes n k f)

mutual
  unfolding compare same_types

  Chain-values :
      (a b c : Var) → NoNan a → NoNan b → NoNan c → Chain (compare a b) (compare b c) (compare a c)
  Chain-values blank blank blank ha hb hc = refl
  Chain-values (bool a) (bool b) (bool c) ha hb hc =
      ℕ-Chain (bool_value a) (bool_value b) (bool_value c)
  Chain-values (integer a) (integer b) (integer c) ha hb hc = ℤ-Chain a b c
  Chain-values (float a) (float b) (float c) ha hb hc = double-Chain a b c ha hb hc
  Chain-values (string a) (string b) (string c) ha hb hc = string-Chain a b c
  Chain-values (array xs) (array ys) (array zs) ha hb hc =
      sized-Chain (size xs) (size ys) (size zs) _ _ _ (Chain-items xs ys zs ha hb hc)
  Chain-values (set xs) (set ys) (set zs) ha hb hc =
      sized-Chain (size xs) (size ys) (size zs) _ _ _ (Chain-items xs ys zs ha hb hc)
  Chain-values (list xs) (list ys) (list zs) ha hb hc =
      sized-Chain (size xs) (size ys) (size zs) _ _ _ (Chain-items xs ys zs ha hb hc)
  Chain-values (dict ps) (dict qs) (dict rs) ha hb hc =
      sized-Chain (pairs_size ps) (pairs_size qs) (pairs_size rs) _ _ _
        (Chain-pairs ps qs rs ha hb hc)
  Chain-values a b c ha hb hc = types-Chain a b c refl

  Chain-items :
      (xs ys zs : Vars)
      → NoNanItems xs
      → NoNanItems ys
      → NoNanItems zs
      → size xs ≡ size ys
      → size ys ≡ size zs
      → Chain (compare_items xs ys) (compare_items ys zs) (compare_items xs zs)
  Chain-items nil nil nil ha hb hc e f = refl
  Chain-items (cons x xs) (cons y ys) (cons z zs) (hx, hxs) (hy, hys) (hz, hzs) e f =
      then_by-Chain _ _ _ _ _ _ (Chain-values x y z hx hy hz)
        λ _ _. Chain-items xs ys zs hxs hys hzs (omega arith) (omega arith)
  Chain-items xs ys zs ha hb hc e f = absurd (omega arith)

  Chain-pairs :
      (ps qs rs : Pairs)
      → NoNanPairs ps
      → NoNanPairs qs
      → NoNanPairs rs
      → pairs_size ps ≡ pairs_size qs
      → pairs_size qs ≡ pairs_size rs
      → Chain (compare_pairs ps qs) (compare_pairs qs rs) (compare_pairs ps rs)
  Chain-pairs none_left none_left none_left ha hb hc e f = refl
  Chain-pairs (pair k v ps) (pair k' v' qs) (pair k'' v'' rs) (hk, hv, hps) (hk', hv', hqs)
        (hk'', hv'', hrs) e f =
      then_by-Chain _ _ _ _ _ _ (Chain-values k k' k'' hk hk' hk'') λ _ _.
        then_by-Chain _ _ _ _ _ _ (Chain-values v v' v'' hv hv' hv'')
          λ _ _. Chain-pairs ps qs rs hps hqs hrs (omega arith) (omega arith)
  Chain-pairs ps qs rs ha hb hc e f = absurd (omega arith)

-- On values without NaN the comparison is transitive: "equal" may be put for either side, and
-- "less" and "greater" chain.
pub compare-Chain :
    (a b c : Var) → NoNan a → NoNan b → NoNan c → Chain (compare a b) (compare b c) (compare a c)
compare-Chain a b c ha hb hc = Chain-values a b c ha hb hc

-- A NaN compares equal to every number, in both directions, whatever the numbers compare like with
-- one another: with a NaN "equal" is not transitive, and the elements of a set or the keys of a map
-- are not ordered.
pub nan_equals_all :
    (d e : ℕ)
    → is_nan d ≡ true
    → (compare (float d) (float e) ≡ Ordering.eq) × (compare (float e) (float d) ≡ Ordering.eq)
unfolding compare compare_double
nan_equals_all d e h = ground arith
