-- ===== src/Varval/Tested.antt =====
-- The cases of `validate_pair` of lib/cclvarval.cc that test the value itself decide the tests.
use Prim.Native.Nat.{Ordering}
use mathlib.Core.Path.{subst}
use cclib.Base.{
  ◌≡◌, ◌↔◌, refl, arith, Option, none, some, Bytes, true, false, Bool, inl, inr, Bool-cases,
  Option-cases,
}
use cclib.Base.Int.{pos}
use cclib.Str.Regex.{Posix, regex_c, is_match, ok as compiled, err as refused, Result}
use cclib.Var.Value.{Var, integer, string, type}
use cclib.Var.Compare.{compare, compare_ℤ}
use cclib.Var.Access.{to_int, to_str}
use cclib.Varval.Property.{
  Property, Error, prop_equal, prop_not_equal, prop_lesser, prop_greater, prop_lesser_equal,
  prop_greater_equal, prop_size_equal, prop_size_not_equal, prop_size_lesser, prop_size_greater,
  prop_size_lesser_equal, prop_size_greater_equal, prop_regex, map_at, invalid_value, type_of_name,
}
use cclib.Varval.State.{Validator, done, thrown}
use cclib.Varval.Simple.{type_error, compare_error, size_error, passes, value_size}
use cclib.Varval.Validate.{verdict, compile, validate_text, validate_regex, match_value, add_regex}
use cclib.Varval.Conforms.{Compares, Sizes, Tests}
use cclib.Varval.Verdict.{
  IsReady, Judges, accepts, Judges-iff, Judges-thrown, CacheOk-map_at, Judges-Keeps,
}

passes_iff : (i : Property) (o : Ordering) → (passes i o ≡ true) ↔ Compares i o
unfolding passes
passes_iff prop_equal o = ground arith
passes_iff prop_not_equal o = ground arith
passes_iff prop_lesser o = ground arith
passes_iff prop_greater o = ground arith
passes_iff prop_lesser_equal o = ground arith
passes_iff prop_greater_equal o = ground arith
passes_iff prop_size_equal o = ground arith
passes_iff prop_size_not_equal o = ground arith
passes_iff prop_size_lesser o = ground arith
passes_iff prop_size_greater o = ground arith
passes_iff prop_size_lesser_equal o = ground arith
passes_iff prop_size_greater_equal o = ground arith
passes_iff _ o = ground arith

pub compare_error_iff :
    (i : Property) (v p : Var) → (compare_error i v p ≡ none) ↔ Compares i (compare v p)
unfolding compare_error
compare_error_iff i v p = elim (Bool-cases (passes i (compare v p))) [
  | inl e ↦ (λ _. (passes_iff i (compare v p)).0 e, λ h. rw (e, compare_error))
  | inr e ↦
      (λ h. absurd (ground (arith, e, h)), λ h. absurd (cc (e, (passes_iff i (compare v p)).1 h)))
]

pub type_error_iff : (v p : Var) → (type_error v p ≡ none) ↔ (type_of_name p ≡ some (type v))
unfolding type_error
type_error_iff v p = elim (Option-cases (type_of_name p)) [
  | inl e ↦ ground (arith, e)
  | inr (t, e) ↦ ground (arith, e)
]

pub size_error_iff : (i : Property) (v p : Var) → (size_error i v p ≡ none) ↔ Sizes i v p
unfolding size_error to_int
size_error_iff i v (integer m) = elim (Option-cases (value_size v)) [
  | inl e ↦ (λ h. absurd (ground (arith, e, h)), λ (n, m', hn, hp, h). absurd (cc (e, hn)))
  | inr (n, e) ↦ (
    λ h. (n, m, e, refl, (passes_iff i (compare_ℤ (pos n) m)).0 (ground (arith, e, h))),
    λ (n', m', hn, hp, h).
        let pass = (passes_iff i (compare_ℤ (pos n') m')).1 h in ground (arith, e, hn, hp, pass),
  )
]
size_error_iff i v p = (λ h. absurd (ground (arith, h)), λ (n, m, hn, hp, h). absurd (cc hp))

module _ {Regex : Type 0} (posix : Posix Regex) (lhs_first : Bool) (schema : Var) where
  -- A test throws an error, or none.
  pub verdict-Judges :
      {G : Type 0} (v : Var) (o : Option Error) (s : Validator Regex)
      → (o ≡ none) ↔ G
      → IsReady posix schema s
      → Judges posix schema G v s (verdict posix lhs_first o s)
  verdict-Judges v none s g ready = accepts (g.0 refl) (ready, refl, refl)
  verdict-Judges v (some e) s g ready =
      Judges-thrown posix schema (λ h. absurd (cc (g.1 h))) ready.0 refl

  answer-Judges :
      (v : Var) (b : Bool) (s : Validator Regex)
      → IsReady posix schema s
      → Judges posix schema
          (b ≡ true)
          v
          s
          (elim b [ true ↦ done s | false ↦ thrown invalid_value s ])
  answer-Judges v true s ready = accepts refl (ready, refl, refl)
  answer-Judges v false s ready = Judges-thrown posix schema (λ h. cc) ready.0 refl

  -- The expression of a key is valid, and the text matches it.
  abbrev pub MatchesKey : Bytes → Bytes → Type 0
  MatchesKey text key =
      (r : Regex) × (regex_c posix key ≡ compiled r) × (is_match posix r text ≡ true)

  MatchesKey-iff :
      (text key : Bytes) (r : Regex)
      → regex_c posix key ≡ compiled r
      → (is_match posix r text ≡ true) ↔ MatchesKey text key
  MatchesKey-iff text key r h =
      (λ m. (r, h, m), λ (r', h', m). subst (λ q. is_match posix q text ≡ true) (cc) m)

  match_value-Judges :
      (v : Var) (r : Regex) (text key : Bytes) (s : Validator Regex)
      → regex_c posix key ≡ compiled r
      → IsReady posix schema s
      → Judges posix schema (MatchesKey text key) v s (match_value posix lhs_first r text s)
  match_value-Judges v r text key s h ready =
      let (to, from) = MatchesKey-iff text key r h in
      Judges-iff posix schema to from (answer-Judges v (is_match posix r text) s ready)

  compile-Judges :
      (v : Var) (text key : Bytes) (o : Result Regex) (s : Validator Regex)
      → regex_c posix key ≡ o
      → IsReady posix schema s
      → Judges posix schema (MatchesKey text key) v s (compile posix lhs_first text key o s)
  compile-Judges v text key (refused e) s h ready = elim (Bool-cases lhs_first) [
    | inl first ↦ rw first (Judges-thrown posix schema (λ (r, h', m). cc) ready.0 refl)
    | inr last ↦ rw last (Judges-thrown posix schema (λ (r, h', m). cc) ready.0 refl)
  ]
  compile-Judges v text key (compiled r) s h ready =
      let ready' : IsReady posix schema (add_regex posix lhs_first key (some r) s) =
        (ready.0, ((r, refl, h), ready.1)) in
      Judges-Keeps posix schema (ready', refl, refl)
        (match_value-Judges v r text key (add_regex posix lhs_first key (some r) s) h ready')

  -- The cache makes no difference.
  validate_text-Judges :
      (v : Var) (text key : Bytes) (s : Validator Regex)
      → IsReady posix schema s
      → Judges posix schema (MatchesKey text key) v s (validate_text posix lhs_first text key s)
  unfolding validate_text
  validate_text-Judges v text key s ready = elim (Option-cases (map_at s.regex_map key)) [
    | inl new ↦ rw (new, validate_text) (compile-Judges v text key (regex_c posix key) s refl ready)
    | inr (o, old) ↦
        let (r, cached, h) = CacheOk-map_at posix schema s.regex_map key o ready.1 old in
        let hit : map_at s.regex_map key ≡ some (some r) = cc in
        rw (hit, validate_text) (match_value-Judges v r text key s h ready)
  ]

  -- The case of `prop_regex`.
  pub validate_regex-Judges :
      (v p : Var) (s : Validator Regex)
      → IsReady posix schema s
      → Judges posix schema
          (Tests posix schema prop_regex v p)
          v
          s
          (validate_regex posix lhs_first v p s)
  unfolding validate_regex to_str
  validate_regex-Judges (string text) (string key) s ready =
      Judges-iff posix schema (λ (r, h, m). (text, key, r, refl, refl, h, m))
        (λ (text', key', r, ht, hk, h, m). (
          r,
          subst (λ k. regex_c posix k ≡ compiled r) (cc) h,
          subst (λ t. is_match posix r t ≡ true) (cc) m,
        ))
        (validate_text-Judges (string text) text key s ready)
  validate_regex-Judges (string text) p s ready =
      Judges-thrown posix schema (λ (text', key, r, ht, hk, h, m). cc) ready.0 refl
  validate_regex-Judges v p s ready =
      Judges-thrown posix schema (λ (text', key, r, ht, hk, h, m). cc) ready.0 refl
