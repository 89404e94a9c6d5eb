-- ===== src/Str/Tests.antt =====
-- Runs of lib/cclstr.cc's functions, and its theorems at concrete texts.
use cclib.Base.{suc, ◌≡◌, refl, none, some, List, [], ◌∷◌, Bytes, codes, length, All}
use cclib.Str.Find.{find, find_in}
use cclib.Str.Pieces.{Pieces, Separable}
use cclib.Str.Split.{split, join, split-Pieces, join-split, split-join}
use cclib.Str.Replace.{replace, replace-split}

abbrev greeting : Bytes
greeting = codes "hello-cruel-world"

abbrev dash : Bytes
dash = codes "-"

abbrev words : List Bytes
words = codes "hello" ∷ codes "cruel" ∷ codes "world" ∷ []

split-greeting : split 20 greeting dash ≡ some words
unfolding split find
split-greeting = refl

split_dashes : split 20 (codes "----") (codes "--") ≡ some ([] ∷ [] ∷ [] ∷ [])
unfolding split find
split_dashes = refl

replace_greeting :
    replace 20 (codes "Hello world") (codes "l") (codes "xx") ≡ some (codes "Hexxxxo worxxd")
unfolding replace find
replace_greeting = refl

split-Pieces_example :
    (ps : List Bytes) × (split (suc (length greeting)) greeting dash ≡ some ps)
    × Pieces dash greeting ps
split-Pieces_example = split-Pieces greeting dash (cc)

join-split_example :
    (ps : List Bytes) × (split (suc (length greeting)) greeting dash ≡ some ps)
    × (join ps dash ≡ greeting)
    × All (λ p. find_in p dash ≡ none) ps
join-split_example = join-split greeting dash (cc)

words-Separable : Separable dash words
unfolding find_in
words-Separable = (refl, (refl, refl))

split-join_example : split (suc (length (join words dash))) (join words dash) dash ≡ some words
split-join_example = split-join words dash (cc) words-Separable

replace-split_example :
    (ps : List Bytes) × (split (suc (length greeting)) greeting dash ≡ some ps)
    × (replace (suc (length greeting)) greeting dash (codes " ") ≡ some (join ps (codes " ")))
replace-split_example = replace-split greeting dash (codes " ") (cc)
