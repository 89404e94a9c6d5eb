-- ===== src/Varval/Ranks.antt =====
-- Schemas of lib/cclvarval.cc whose references at one value end after one step.
use cclib.Base.{ℕ, ◌+◌, ◌≤◌, ◌≡◌, arith, some, inl, inr, ap, Option-cases}
use cclib.Var.Value.{Var, Pairs, string, dict, none_left, pair}
use cclib.Var.Compare.{compare}
use cclib.Var.Dict.{lookup}
use cclib.Var.Access
use cclib.Var.Access.{has_key}
use cclib.Varval.Property.{reference, entry_of}
use cclib.Varval.Validate.{find_schema}
use cclib.Varval.Path.{HasEntry}
use cclib.Varval.Height.{lookup_cases}
use cclib.Varval.Terminates.{IsRanked}

unfoldable pub references : Pairs → ℕ
references none_left = 0
references (pair k p ps) = elim (entry_of k) [ reference ↦ 1 | _ ↦ references ps ]

-- Whether a schema refers to another at the same value.
unfoldable pub reference_rank : Var → ℕ
reference_rank (dict ps) = references ps
reference_rank _ = 0

references-le : (ps : Pairs) → references ps ≤ 1
unfolding references
references-le none_left = omega arith
references-le (pair k p ps) = ground (arith, references-le ps)

references-HasEntry :
    (ps : Pairs) (k p : Var) → HasEntry k p ps → entry_of k ≡ reference → references ps ≡ 1
unfolding references
references-HasEntry none_left k p m h = elim m [ ]
references-HasEntry (pair j q ps) k p (inl (e, e')) h = rw (← e) (rw (h, references))
references-HasEntry (pair j q ps) k p (inr m) h = ground (arith, references-HasEntry ps k p m h)

reference_rank-le : (p : Var) → reference_rank p ≤ 1
unfolding reference_rank
reference_rank-le (dict ps) = references-le ps
reference_rank-le p = omega arith

-- References are ranked where no named schema refers to another at the same value.
reference_rank-IsRanked :
    (schema : Var)
    → ((p ref : Var) → find_schema schema p ≡ Access.ok (some ref) → reference_rank ref ≡ 0)
    → IsRanked schema reference_rank 1
unfolding reference_rank
reference_rank-IsRanked schema h = record {
  bounded = reference_rank-le;
  falls = λ ps k p ref m e found. omega (arith, h p ref found, references-HasEntry ps k p m e);
}

-- How many entries of a schema refer to another at the same value.
unfoldable pub count_referring : Pairs → ℕ
unfolding reference_rank
count_referring none_left = 0
count_referring (pair k p ps) = reference_rank p + count_referring ps

count_referring-lookup :
    (ps : Pairs) (k p : Var) → lookup k ps ≡ some p → count_referring ps ≡ 0 → reference_rank p ≡ 0
unfolding lookup count_referring
count_referring-lookup none_left k p h e = absurd (cc)
count_referring-lookup (pair j q ps) k p h e = elim (lookup_cases (compare k j) k p q ps h) [
  | inl f ↦ omega (arith, e, ap reference_rank f)
  | inr f ↦ count_referring-lookup ps k p f (omega (arith, e))
]

count_referring-find_schema :
    (ps : Pairs) (p ref : Var)
    → find_schema (dict ps) p ≡ Access.ok (some ref)
    → count_referring ps ≡ 0
    → reference_rank ref ≡ 0
unfolding find_schema has_key
count_referring-find_schema ps (string name) ref h e =
    elim (Option-cases (lookup (string name) ps)) [
      | inl f ↦ absurd (cc (rw (f, find_schema, has_key) at h))
      | inr (q, f) ↦
          let same : Access.ok (some q) ≡ Access.ok (some ref) =
            rw (f, find_schema, has_key) at h in
          count_referring-lookup ps (string name) ref (cc) e
    ]
count_referring-find_schema ps p ref h e = absurd (cc)

-- References are ranked where no schema of the dictionary refers to another at the same value.
pub count_referring-IsRanked :
    (ps : Pairs) → count_referring ps ≡ 0 → IsRanked (dict ps) reference_rank 1
count_referring-IsRanked ps e =
    reference_rank-IsRanked (dict ps) (λ p ref h. count_referring-find_schema ps p ref h e)
