-- ===== src/Str/Regex/Tests.antt =====
-- Runs of `regex_c` of lib/cclstr.cc, and its theorems at concrete expressions.
use cclib.Base.{
  ◌+◌, ◌≡◌, refl, arith, none, some, List, [], ◌∷◌, Bytes, codes, length, Option, ◌≤◌, ℕ,
}
use cclib.Str.Find.{find_in, find_in-le}
use cclib.Str.Split.{join}
use cclib.Str.Regex.{
  Posix, RegMatch, match_text, match_sub, ok, err, regex_c, invalid_expression_string, c_text,
}
use cclib.Str.Regex.Split.{finished, regex_split, regex_replace}
use cclib.Str.Regex.Cuts.{IsRegexec, HasNoEmptyMatch, span, match_pos-regexec, regex_replace-split}

abbrev at_place : ℕ → Option ℕ → Option (List RegMatch)
at_place n none = none
at_place n (some k) = some (span k (k + n) ∷ [])

-- Expressions without special characters match themselves, at the leftmost place.
abbrev plain : Posix Bytes
plain = record { regcomp = λ r. some r; regexec = λ r t n. at_place (length r) (find_in t r) }

at_place-span :
    (n limit : ℕ) (o : Option ℕ) (m : RegMatch) (ms : List RegMatch)
    → ((k : ℕ) → o ≡ some k → k + n ≤ limit)
    → at_place n o ≡ some (m ∷ ms)
    → (so : ℕ) × (eo : ℕ) × (m ≡ span so eo) × (eo ≡ so + n) × (eo ≤ limit)
at_place-span n limit none m ms le h = absurd (cc)
at_place-span n limit (some k) m ms le h = (k, k + n, cc, refl, le k refl)

plain-IsRegexec : IsRegexec plain
plain-IsRegexec = record {
  spans = λ r t m ms h.
      let (so, eo, e, width, le) =
        at_place-span (length r) (length t) (find_in t r) m ms (λ k f. find_in-le t r k f) h in
      (so, eo, e, omega arith, le);
}

at_place-width :
    (n so eo : ℕ) (o : Option ℕ) (ms : List RegMatch)
    → at_place n o ≡ some (span so eo ∷ ms)
    → eo ≡ so + n
at_place-width n so eo none ms h = absurd (cc)
at_place-width n so eo (some k) ms h = cc

abbrev dashes : Bytes
dashes = codes "a--b-c"

plain-HasNoEmptyMatch : HasNoEmptyMatch plain (codes "-")
plain-HasNoEmptyMatch t so eo h e =
    let (ms, f) = match_pos-regexec plain (codes "-") t (span so eo) h in
    absurd (omega (arith, at_place-width 1 so eo (find_in (c_text t) (codes "-")) ms f))

match_text-dashes : match_text plain (codes "b") dashes ≡ ok (some (codes "b"))
unfolding match_text find_in
match_text-dashes = refl

match_sub-dashes : match_sub plain (codes "-") dashes 1 ≡ ok (some (codes "-" ∷ []))
unfolding match_sub find_in
match_sub-dashes = refl

regex_c_empty : regex_c plain [] ≡ err invalid_expression_string
unfolding regex_c
regex_c_empty = refl

regex_split-dashes :
    regex_split plain 20 (codes "-") dashes ≡ finished (codes "a" ∷ [] ∷ codes "b" ∷ codes "c" ∷ [])
unfolding regex_split find_in
regex_split-dashes = refl

regex_replace-dashes :
    regex_replace plain 20 (codes "-") dashes (codes "+") ≡ finished (codes "a++b+c")
unfolding regex_replace find_in
regex_replace-dashes = refl

regex_replace-split_example :
    (ps : List Bytes) × (regex_split plain 7 (codes "-") dashes ≡ finished ps)
    × (regex_replace plain 7 (codes "-") dashes (codes "+") ≡ finished (join ps (codes "+")))
regex_replace-split_example =
    regex_replace-split plain (codes "-") plain-IsRegexec plain-HasNoEmptyMatch dashes (codes "+")
      (omega arith)
