-- ===== src/Str/Regex.antt =====
-- `regex_c` of lib/cclstr.cc, over the regular expressions of the C library.
pub mod Split
pub mod Cuts
mod Tests
use cclib.Base.{
  ℕ, zero, suc, ◌-◌, Bool, true, false, Option, none, some, List, [], ◌∷◌, ◌++◌, Bytes, length,
  drop, leb, ◌==◌,
}
use cclib.Base.Int.{ℤ, pos, negsuc}
use cclib.Str.Find.{substr}

-- `regmatch_t`; both are -1 for a part that takes no part in the match.
pub record RegMatch : Type 0 where
  pub rm_so : ℤ
  pub rm_eo : ℤ

-- What the C library gives: `regcomp` of a pattern, `none` for an error, and `regexec` of a text for
-- so many matches, `none` for no match. The texts end at their first NUL.
pub record Posix (Regex : Type 0) : Type 0 where
  pub regcomp : Bytes → Option Regex
  pub regexec : Regex → Bytes → ℕ → Option (List RegMatch)

-- error_REGEX_INVALID_EXPRESSION_STRING, error_REGEX_WRONG_MATCH_COUNT, and the exception of the
-- constructor of `std::string` from a part.
pub data Error : Type 0 where
  invalid_expression_string wrong_match_count out_of_range : Error

pub data Result {ℓ} (A : Type ℓ) : Type ℓ where
  ok : A → Result A
  err : Error → Result A

-- `data()`, as the C library reads it.
abbrev pub c_text : Bytes → Bytes
c_text [] = []
c_text (c ∷ s) = elim (c == 0) [ true ↦ [] | false ↦ c ∷ c_text s ]

-- `std::string(s,so,eo - so)` and `assign`: the length is a `size_t`, and ends at that of `s`.
abbrev pub part : Bytes → RegMatch → Result Bytes
part s m = elim m.rm_so [
  | negsuc n ↦ err out_of_range
  | pos so ↦ elim (leb so (length s)) [
    | false ↦ err out_of_range
    | true ↦ elim m.rm_eo [
      | negsuc n ↦ ok (drop so s)
      | pos eo ↦ elim (leb so eo) [ true ↦ ok (substr s so (eo - so)) | false ↦ ok (drop so s) ]
    ]
  ]
]

module _ {Regex : Type 0} (posix : Posix Regex) where
  unfoldable pub regex_c : Bytes → Result Regex
  regex_c [] = err invalid_expression_string
  regex_c (c ∷ s) = elim (posix.regcomp (c_text (c ∷ s))) [
    | none ↦ err invalid_expression_string
    | some regex ↦ ok regex
  ]

  -- The first match, where there is one.
  unfoldable pub match_pos : Regex → Bytes → Option RegMatch
  match_pos regex s = elim (posix.regexec regex (c_text s) 1) [ some (m ∷ ms) ↦ some m | _ ↦ none ]

  unfoldable pub is_match : Regex → Bytes → Bool
  is_match regex s = elim (posix.regexec regex (c_text s) 1) [ none ↦ false | some ms ↦ true ]

  unfoldable pub match_text : Regex → Bytes → Result (Option Bytes)
  unfolding match_pos
  match_text regex s = elim (match_pos regex s) [
    | none ↦ ok none
    | some m ↦ elim (part s m) [ ok t ↦ ok (some t) | err e ↦ err e ]
  ]

  unfoldable pub match_sub_pos : Regex → Bytes → ℕ → Result (Option (List RegMatch))
  match_sub_pos regex s zero = err wrong_match_count
  match_sub_pos regex s (suc n) = ok (posix.regexec regex (c_text s) (suc n))

  -- The loop of `match_sub` over the matches.
  unfoldable pub parts : Bytes → List RegMatch → List Bytes → Result (List Bytes)
  parts s [] matches = ok matches
  parts s (m ∷ ms) matches = elim (part s m) [
    | ok t ↦ parts s ms (matches ++ t ∷ [])
    | err e ↦ err e
  ]

  unfoldable pub match_sub : Regex → Bytes → ℕ → Result (Option (List Bytes))
  unfolding match_sub_pos parts
  match_sub regex s n = elim (match_sub_pos regex s n) [
    | err e ↦ err e
    | ok none ↦ ok none
    | ok (some ms) ↦ elim (parts s ms []) [ ok ts ↦ ok (some ts) | err e ↦ err e ]
  ]
