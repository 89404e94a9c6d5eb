-- ===== src/Var/Dict/Laws.antt =====
-- The order of the entries is kept, and a written entry is the one that is found.
use Prim.Native.Nat.{Ordering}
use cclib.Base.{◌≡◌, refl, arith, some, ◌⊎◌, inl, inr, ◌∙◌}
use cclib.Var.Value.{Var, Vars, Pairs, nil, cons, none_left, pair}
use cclib.Var.Compare.{compare}
use cclib.Var.Compare.Total.{NoNan, NoNanPairs, compare-Chain, compare-flip}
use cclib.Var.Dict.{lookup, assign}

-- Every key is above `k`.
abbrev pub Above : Var → Pairs → Type 0
Above k none_left = Unit
Above k (pair j w ps) = (compare k j ≡ Ordering.lt) × Above k ps

-- The keys ascend: the order in which a map is iterated.
abbrev pub Ascending : Pairs → Type 0
Ascending none_left = Unit
Ascending (pair k v ps) = Above k ps × Ascending ps

abbrev pub ItemsAbove : Var → Vars → Type 0
ItemsAbove x nil = Unit
ItemsAbove x (cons y ys) = (compare x y ≡ Ordering.lt) × ItemsAbove x ys

abbrev pub ItemsAscending : Vars → Type 0
ItemsAscending nil = Unit
ItemsAscending (cons x xs) = ItemsAbove x xs × ItemsAscending xs

-- What lies above a key lies above the keys below it.
Above-trans :
    (j k : Var) (ps : Pairs)
    → NoNan j
    → NoNan k
    → NoNanPairs ps
    → compare j k ≡ Ordering.lt
    → Above k ps
    → Above j ps
Above-trans j k none_left hj hk hps lt above = tt
Above-trans j k (pair i w ps) hj hk (hi, hw, hps) lt (first, rest) =
    (let chain = compare-Chain j k i hj hk hi in ground arith, Above-trans j k ps hj hk hps lt rest)

Ordering-cases : (o : Ordering) → (o ≡ Ordering.lt) ⊎ ((o ≡ Ordering.eq) ⊎ (o ≡ Ordering.gt))
Ordering-cases Ordering.lt = inl refl
Ordering-cases Ordering.eq = inr (inl refl)
Ordering-cases Ordering.gt = inr (inr refl)

-- One round of `assign`, by the outcome of the comparison.
module _ (k v j w : Var) (ps : Pairs) where
  assign_lt : compare k j ≡ Ordering.lt → assign k v (pair j w ps) ≡ pair k v (pair j w ps)
  unfolding assign
  assign_lt e = ground arith

  assign_eq : compare k j ≡ Ordering.eq → assign k v (pair j w ps) ≡ pair j v ps
  unfolding assign
  assign_eq e = ground arith

  assign_gt : compare k j ≡ Ordering.gt → assign k v (pair j w ps) ≡ pair j w (assign k v ps)
  unfolding assign
  assign_gt e = ground arith

Above-assign :
    (j k v : Var) (ps : Pairs) → compare j k ≡ Ordering.lt → Above j ps → Above j (assign k v ps)
Above-assign j k v none_left lt above = unfold assign in (lt, tt)
Above-assign j k v (pair i w ps) lt (first, rest) = elim (Ordering-cases (compare k i)) [
  | inl e ↦ rw (assign_lt k v i w ps e) (lt, (first, rest))
  | inr (inl e) ↦ rw (assign_eq k v i w ps e) (first, rest)
  | inr (inr e) ↦ rw (assign_gt k v i w ps e) (first, Above-assign j k v ps lt rest)
]

-- Writing an entry keeps the keys ascending, for keys without NaN.
pub assign-Ascending :
    (k v : Var) (ps : Pairs) → NoNan k → NoNanPairs ps → Ascending ps → Ascending (assign k v ps)
assign-Ascending k v none_left hk hps asc = unfold assign in (tt, tt)
assign-Ascending k v (pair j w ps) hk (hj, hw, hps) (above, asc) =
    elim (Ordering-cases (compare k j)) [
      | inl e ↦
          rw (assign_lt k v j w ps e) ((e, Above-trans k j ps hk hj hps e above), (above, asc))
      | inr (inl e) ↦ rw (assign_eq k v j w ps e) (above, asc)
      | inr (inr e) ↦
          let lt : compare j k ≡ Ordering.lt = compare-flip k j ∙ rw e in
          rw (assign_gt k v j w ps e)
            (Above-assign j k v ps lt above, assign-Ascending k v ps hk hps asc)
    ]

-- What a lookup finds after a write: the new value under every key that compares equal, and what
-- was there before under the others.
pub lookup-assign :
    (i k v : Var) (ps : Pairs)
    → NoNan i
    → NoNan k
    → NoNanPairs ps
    → lookup i (assign k v ps) ≡ elim (compare i k) [
      | Ordering.lt ↦ lookup i ps
      | Ordering.eq ↦ some v
      | Ordering.gt ↦ lookup i ps
    ]
unfolding lookup assign
lookup-assign i k v none_left hi hk hps = ground arith
lookup-assign i k v (pair j w ps) hi hk (hj, hw, hps) = ground (
  arith,
  compare-Chain i k j hi hk hj,
  compare-Chain i j k hi hj hk,
  compare-flip k j,
  lookup-assign i k v ps hi hk hps,
)
