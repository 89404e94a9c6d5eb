-- ===== src/Var/Access/Laws.antt =====
-- What the readers of lib/cclvar.cc find.
use Prim.Native.Nat.{Ordering}
use cclib.Base.{
  ℕ, zero, suc, ◌<◌, ◌≡◌, refl, arith, ap, ◌∙◌, true, false, Option, none, some, ◌⊎◌, inr, ◌≢◌,
  Option-cases, inl, sym,
}
use cclib.Base.Int.{ℤ, pos, negsuc}
use cclib.Var.Value.{
  Var, Vars, Pairs, blank, integer, array, dict, nil, cons, none_left, pair, size, push_back,
  pairs_size,
}
use cclib.Var.Compare.{compare}
use cclib.Var.Compare.Total.{compare-flip, NoNan, NoNanPairs}
use cclib.Var.Dict.{lookup, assign}
use cclib.Var.Dict.Laws.{Above, Ascending, lookup-assign}
use cclib.Var.Copy.{append, append-nil, push_back-append}
use cclib.Var.Access.{
  ok, err, index_exceeds_range, nth, index_int, index_var, keys, keys_loop, has_idx, has_key,
}

-- A comparison of a value with itself finds no difference, not even of a NaN.
pub compare_self : (a : Var) → compare a a ≡ Ordering.eq
compare_self a = ground (arith, compare-flip a a)

nth-lt : (xs : Vars) (n : ℕ) {x : Var} → nth xs n ≡ some x → n < size xs
nth-lt nil n h = cc
nth-lt (cons y xs) zero h = omega arith
nth-lt (cons y xs) (suc n) h = omega (arith, nth-lt xs n h)

nth_total : (xs : Vars) (n : ℕ) → n < size xs → (x : Var) × (nth xs n ≡ some x)
nth_total nil n h = absurd (omega arith)
nth_total (cons y xs) zero h = (y, refl)
nth_total (cons y xs) (suc n) h = nth_total xs n (omega arith)

abbrev pub InRange : ℤ → Vars → Type 0
InRange (pos n) xs = n < size xs
InRange (negsuc n) xs = ⊥

-- `operator []` of an array returns an element exactly for the indices from zero up to the size,
-- `has_idx` answers true for the same indices with the same element, and for others `operator []`
-- throws the range error and `has_idx` leaves its value alone.
pub index-array :
    (xs : Vars) (i : ℤ) (value : Var)
    → (InRange i xs
        × ((x : Var) × (index_int (array xs) i ≡ ok (x, array xs))
            × (index_var (array xs) (integer i) ≡ ok (x, array xs))
            × (has_idx (array xs) i value ≡ ok (true, x))))
      ⊎ ((¬ InRange i xs)
          × (index_int (array xs) i ≡ err index_exceeds_range)
          × (index_var (array xs) (integer i) ≡ err index_exceeds_range)
          × (has_idx (array xs) i value ≡ ok (false, value)))
unfolding index_int index_var has_idx
index-array xs (negsuc n) value = inr ((λ h. h), refl, refl, refl)
index-array xs (pos n) value = elim (Option-cases (nth xs n)) [
  | inl e ↦ inr (
    (λ h. let (x, found) = nth_total xs n h in cc (e, found)),
    ground (arith, e),
    ground (arith, e),
    ground (arith, e),
  )
  | inr (x, e) ↦ inl (nth-lt xs n e, (x, ground (arith, e), ground (arith, e), ground (arith, e)))
]

-- Where neither the key nor the map holds a NaN, indexing a map by the key leaves the key in the map
-- with the value returned, which is the value that was there, or blank where the key was
-- missing; then every other key without a NaN finds what it found.
pub index-dict :
    (k : Var) (ps : Pairs)
    → NoNan k
    → NoNanPairs ps
    → (v : Var) × (qs : Pairs) × (index_var (dict ps) k ≡ ok (v, dict qs))
      × ((value : Var) → has_key (dict qs) k value ≡ ok (true, v))
      × ((lookup k ps ≡ some v) ⊎ ((lookup k ps ≡ none) × (v ≡ blank)))
      × ((j : Var) → NoNan j → compare j k ≢ Ordering.eq → lookup j qs ≡ lookup j ps)
unfolding index_var has_key
index-dict k ps hk hps = elim (Option-cases (lookup k ps)) [
  | inr (v, e) ↦ (v, ps, ground (arith, e), (λ value. ground (arith, e)), inl e, λ j hj ne. refl)
  | inl e ↦
      let now : lookup k (assign k blank ps) ≡ some blank =
        lookup-assign k k blank ps hk hk hps ∙ rw (compare_self k) in
      (
        blank,
        assign k blank ps,
        ground (arith, e),
        (λ value. ground (arith, now)),
        inr (e, refl),
        λ j hj ne. ground (arith, lookup-assign j k blank ps hj hk hps),
      )
]

abbrev pub nth_pair : Pairs → ℕ → Option (Var × Var)
nth_pair none_left n = none
nth_pair (pair k v ps) zero = some (k, v)
nth_pair (pair k v ps) (suc n) = nth_pair ps n

nth_pair-Above :
    (j : Var) (ps : Pairs) (n : ℕ) {k v : Var}
    → Above j ps
    → nth_pair ps n ≡ some (k, v)
    → compare j k ≡ Ordering.lt
nth_pair-Above j none_left n above e = cc
nth_pair-Above j (pair i w ps) zero (lt, above) e = ground arith
nth_pair-Above j (pair i w ps) (suc n) (lt, above) e = nth_pair-Above j ps n above e

nth_pair-lookup :
    (ps : Pairs) (n : ℕ) {k v : Var}
    → Ascending ps
    → nth_pair ps n ≡ some (k, v)
    → lookup k ps ≡ some v
unfolding lookup
nth_pair-lookup none_left n asc e = cc
nth_pair-lookup (pair j w ps) zero {k} {v} asc e = ground (arith, compare_self k)
nth_pair-lookup (pair j w ps) (suc n) {k} {v} (above, asc) e =
    ground (arith, compare-flip j k, nth_pair-Above j ps n above e, nth_pair-lookup ps n asc e)

-- The keys of the entries.
abbrev pub pair_keys : Pairs → Vars
pair_keys none_left = nil
pair_keys (pair k v ps) = cons k (pair_keys ps)

keys_loop-append : (ps : Pairs) (ks : Vars) → keys_loop ps ks ≡ append ks (pair_keys ps)
unfolding keys_loop
keys_loop-append none_left ks = sym (append-nil ks)
keys_loop-append (pair k v ps) ks =
    keys_loop-append ps (push_back ks k) ∙ push_back-append ks k (pair_keys ps)

size-pair_keys : (ps : Pairs) → size (pair_keys ps) ≡ pairs_size ps
size-pair_keys none_left = refl
size-pair_keys (pair k v ps) = ap suc (size-pair_keys ps)

nth-pair_keys :
    (ps : Pairs) (n : ℕ) {k : Var}
    → nth (pair_keys ps) n ≡ some k
    → (v : Var) × (nth_pair ps n ≡ some (k, v))
nth-pair_keys none_left n e = cc
nth-pair_keys (pair j w ps) zero e = (w, ground arith)
nth-pair_keys (pair j w ps) (suc n) e = nth-pair_keys ps n e

-- `keys` of a map in order returns an array with one key for each entry, in the order of the
-- entries, and `has_key` finds each of them with the value of its entry.
pub keys-has_key :
    (ps : Pairs)
    → Ascending ps
    → (ks : Vars) × (keys (dict ps) ≡ ok (array ks))
      × (size ks ≡ pairs_size ps)
      × ((n : ℕ) (k : Var)
          → nth ks n ≡ some k
          → (v : Var) × (nth_pair ps n ≡ some (k, v))
            × ((value : Var) → has_key (dict ps) k value ≡ ok (true, v)))
unfolding keys has_key
keys-has_key ps asc = (
  pair_keys ps,
  ap (λ ks. ok (array ks)) (keys_loop-append ps nil),
  size-pair_keys ps,
  λ n k e.
      let (v, found) = nth-pair_keys ps n e in
      (v, found, λ value. ground (arith, nth_pair-lookup ps n asc found)),
)
