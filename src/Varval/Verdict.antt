-- ===== src/Varval/Verdict.antt =====
-- What the outcome of a part of `validate_pair` of lib/cclvarval.cc says of a statement, and how the
-- parts are put together.
use mathlib.Core.List.{reverse, reverse-cons}
use cclib.Base.{
  ◌≡◌, sym, ap, ◌∙◌, Option, some, List, [], ◌∷◌, ◌++◌, append-nil, append_assoc, Bytes, bytes_eq,
  bytes_eq_iff, Bool-cases, inl, inr,
}
use cclib.Str.Regex.{Posix, regex_c, ok as compiled}
use cclib.Var.Value.{Var}
use cclib.Varval.Property.{Error, map_at}
use cclib.Varval.State.{Validator, Outcome, done, thrown, out_of_fuel, ◌and_then◌, on_throw}
use cclib.Varval.Path.{Child, Lacks, Leads, here, missing, down}

module _ {Regex : Type 0} (posix : Posix Regex) (schema : Var) where
  -- Each cached expression is the compiled one of its key.
  abbrev pub CacheOk : List (Bytes × Option Regex) → Type 0
  CacheOk [] = Unit
  CacheOk ((k, o) ∷ m) = ((r : Regex) × (o ≡ some r) × (regex_c posix k ≡ compiled r)) × CacheOk m

  abbrev pub IsReady : Validator Regex → Type 0
  IsReady s = (s.schema ≡ schema) × CacheOk s.regex_map

  abbrev pub Keeps : Validator Regex → Validator Regex → Type 0
  Keeps s t = IsReady t × (t.value_stack ≡ s.value_stack) × (t.props_stack ≡ s.props_stack)

  -- The stack of values has grown by a path from the value, its inmost element first.
  abbrev pub Blames : Var → Validator Regex → Validator Regex → Type 0
  Blames v s t =
      (path : List Var) × (t.schema ≡ schema)
      × (t.value_stack ≡ s.value_stack ++ reverse path)
      × Leads v path

  -- An outcome decides a statement about a value; it is no fault.
  pub data Judges (G : Type 0) (v : Var) (s : Validator Regex) : Outcome Regex → Type 0 where
    accepts : {t : Validator Regex} → G → Keeps s t → Judges G v s (done t)
    refuses : {e : Error} {t : Validator Regex} → ¬ G → Blames v s t → Judges G v s (thrown e t)
    gives_up : Judges G v s out_of_fuel

  pub CacheOk-map_at :
      (m : List (Bytes × Option Regex)) (k : Bytes) (o : Option Regex)
      → CacheOk m
      → map_at m k ≡ some o
      → (r : Regex) × (o ≡ some r) × (regex_c posix k ≡ compiled r)
  unfolding map_at
  CacheOk-map_at [] k o h e = absurd (cc)
  CacheOk-map_at ((j, p) ∷ m) k o ((r, hp, hr), hm) e = elim (Bool-cases (bytes_eq j k)) [
    | inl same ↦
        let cached : some p ≡ some o = rw (same, map_at) at e in
        (r, cc (cached, hp), rw (← (bytes_eq_iff j k).0 same) hr)
    | inr other ↦ CacheOk-map_at m k o hm (rw (other, map_at) at e)
  ]

  pub Judges-iff :
      {G H : Type 0} {v : Var} {s : Validator Regex} {o : Outcome Regex}
      → (G → H)
      → (H → G)
      → Judges G v s o
      → Judges H v s o
  Judges-iff f g (accepts h k) = accepts (f h) k
  Judges-iff f g (refuses h b) = refuses (λ x. h (g x)) b
  Judges-iff f g gives_up = gives_up

  pub Judges-Keeps :
      {G : Type 0} {v : Var} {s t : Validator Regex} {o : Outcome Regex}
      → Keeps s t
      → Judges G v t o
      → Judges G v s o
  Judges-Keeps (_, hv, hp) (accepts g (r, hv', hp')) = accepts g (r, hv' ∙ hv, hp' ∙ hp)
  Judges-Keeps (_, hv, hp) (refuses g (path, hs, hv', l)) =
      refuses g (path, hs, hv' ∙ ap (λ w. w ++ reverse path) hv, l)
  Judges-Keeps k gives_up = gives_up

  -- One part, and then another.
  pub Judges-and_then :
      {G H : Type 0} {v : Var} {s : Validator Regex} {o : Outcome Regex}
      {k : Validator Regex → Outcome Regex}
      → Judges G v s o
      → ((t : Validator Regex) → IsReady t → Judges H v t (k t))
      → Judges (G × H) v s (o and_then k)
  Judges-and_then (accepts {t = t} g keep) next =
      Judges-Keeps keep (Judges-iff (λ x. (g, x)) (λ x. x.1) (next t keep.0))
  Judges-and_then (refuses g b) next = refuses (λ x. g x.0) b
  Judges-and_then gives_up next = gives_up

  -- A refusal on the spot.
  pub Judges-thrown :
      {G : Type 0} {v : Var} {s t : Validator Regex} {e : Error}
      → ¬ G
      → t.schema ≡ schema
      → t.value_stack ≡ s.value_stack
      → Judges G v s (thrown e t)
  Judges-thrown {s = s} g hs hv = refuses g ([], hs, hv ∙ sym (append-nil s.value_stack), here)

  -- A key that is missing.
  pub Judges-missing :
      {G : Type 0} {v k : Var} {s t : Validator Regex} {e : Error}
      → ¬ G
      → t.schema ≡ schema
      → t.value_stack ≡ s.value_stack ++ k ∷ []
      → Lacks v k
      → Judges G v s (thrown e t)
  Judges-missing {k = k} g hs hv l = refuses g (k ∷ [], hs, hv, missing l)

  -- A part of the value, whose key is pushed behind an error.
  pub Judges-Child :
      {G : Type 0} {v k c : Var} {s : Validator Regex} {o : Outcome Regex}
      (f : Validator Regex → Validator Regex)
      → ((t : Validator Regex)
          → ((f t).schema ≡ t.schema) × ((f t).value_stack ≡ t.value_stack ++ k ∷ []))
      → Child v k c
      → Judges G c s o
      → Judges G v s (on_throw f o)
  Judges-Child f hf child (accepts g keep) = accepts g keep
  Judges-Child {k = k} {s = s} f hf child (refuses {t = t} g (path, hs, hv, l)) = refuses g (
    k ∷ path,
    (hf t).0 ∙ hs,
    (hf t).1
        ∙ ap (λ w. w ++ k ∷ []) hv
        ∙ append_assoc s.value_stack (reverse path) (k ∷ [])
        ∙ ap (λ w. s.value_stack ++ w) (sym (reverse-cons k path)),
    down child l,
  )
  Judges-Child f hf child gives_up = gives_up

  -- The same value, with nothing pushed for it.
  pub Judges-same :
      {G : Type 0} {v : Var} {s : Validator Regex} {o : Outcome Regex}
      (f : Validator Regex → Validator Regex)
      → ((t : Validator Regex) → ((f t).schema ≡ t.schema) × ((f t).value_stack ≡ t.value_stack))
      → Judges G v s o
      → Judges G v s (on_throw f o)
  Judges-same f hf (accepts g keep) = accepts g keep
  Judges-same f hf (refuses {t = t} g (path, hs, hv, l)) =
      refuses g (path, (hf t).0 ∙ hs, (hf t).1 ∙ hv, l)
  Judges-same f hf gives_up = gives_up
