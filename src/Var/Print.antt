-- ===== src/Var/Print.antt =====
-- Printing of variables: `operator <<` and `to_string` of lib/cclvar.h and lib/cclvar.cc. How a stream
-- writes a `double` with six decimals is a parameter.
use cclib.Base.{
  ℕ, Bool, true, false, ◌≡◌, refl, sym, ap, List, [], ◌∷◌, ◌++◌, append_assoc, Bytes, codes,
}
use cclib.Json.Escape.{show_int}
use cclib.Str.Regex.{c_text}
use cclib.Str.Pieces.{glue}
use cclib.Str.Split.{join, join-interleave}
use cclib.Var.Value.{
  Var, Vars, Pairs, blank, bool, integer, float, string, array, set, list, dict, nil, cons,
  none_left, pair,
}
use cclib.Var.Access
use cclib.Var.Access.{Result, ok, err}

abbrev show_bool : Bool → Bytes
show_bool true = codes "true"
show_bool false = codes "false"

-- `first ? … : …`.
abbrev pub lead : Bool → Bytes → Bytes → Bytes
lead true begin sep = begin
lead false begin sep = sep

module _ (show_double : ℕ → Bytes) where
  unfoldable mutual
    pub show : Var → Bytes
    show blank = codes "<blank>"
    show (bool b) = show_bool b
    show (integer n) = show_int n
    show (float d) = show_double d
    show (string s) = s
    show (array nil) = codes "[]"
    show (array xs) = show_items true xs
    show (list nil) = codes "[]"
    show (list xs) = show_items true xs
    show (set nil) = codes "[]"
    show (set xs) = show_items true xs
    show (dict none_left) = codes "[]"
    show (dict ps) = show_pairs true ps

    -- The loops over the elements and over the entries.
    show_items : Bool → Vars → Bytes
    show_items first nil = codes "]"
    show_items first (cons x xs) =
        lead first (codes "[") (codes ",") ++ show x ++ show_items false xs

    show_pairs : Bool → Pairs → Bytes
    show_pairs first none_left = codes "]"
    show_pairs first (pair k v ps) =
        lead first (codes "[") (codes ",") ++ show k ++ codes ":" ++ show v ++ show_pairs false ps

  -- The loops of `to_string(a_separator)`.
  unfoldable pub separate_items : Bytes → Bool → Vars → Bytes
  separate_items sep first nil = []
  separate_items sep first (cons x xs) =
      lead first [] (c_text sep) ++ show x ++ separate_items sep false xs

  unfoldable pub separate_pairs : Bytes → Bool → Pairs → Bytes
  separate_pairs sep first none_left = []
  separate_pairs sep first (pair k v ps) =
      lead first [] (c_text sep) ++ show k ++ codes ":" ++ show v ++ separate_pairs sep false ps

  unfoldable pub to_string : Bytes → Var → Result Bytes
  unfolding separate_items separate_pairs
  to_string sep (array xs) = ok (separate_items sep true xs)
  to_string sep (list xs) = ok (separate_items sep true xs)
  to_string sep (set xs) = ok (separate_items sep true xs)
  to_string sep (dict ps) = ok (separate_pairs sep true ps)
  to_string sep v = err Access.invalid_operation

  -- The texts of the elements, and of the entries.
  abbrev pub texts : Vars → List Bytes
  texts nil = []
  texts (cons x xs) = show x ∷ texts xs

  abbrev pub entry_texts : Pairs → List Bytes
  entry_texts none_left = []
  entry_texts (pair k v ps) = (show k ++ codes ":" ++ show v) ∷ entry_texts ps

  show_items-glue : (xs : Vars) → show_items false xs ≡ glue (codes ",") (texts xs) ++ codes "]"
  unfolding show_items
  show_items-glue nil = refl
  show_items-glue (cons x xs) = rw (show_items-glue xs) (simp append_assoc)

  separate_items-glue :
      (sep : Bytes) (xs : Vars) → separate_items sep false xs ≡ glue (c_text sep) (texts xs)
  unfolding separate_items
  separate_items-glue sep nil = refl
  separate_items-glue sep (cons x xs) = rw (separate_items-glue sep xs) (simp append_assoc)

  show_pairs-glue :
      (ps : Pairs) → show_pairs false ps ≡ glue (codes ",") (entry_texts ps) ++ codes "]"
  unfolding show_pairs
  show_pairs-glue none_left = refl
  show_pairs-glue (pair k v ps) = rw (show_pairs-glue ps) (simp append_assoc)

  separate_pairs-glue :
      (sep : Bytes) (ps : Pairs) → separate_pairs sep false ps ≡ glue (c_text sep) (entry_texts ps)
  unfolding separate_pairs
  separate_pairs-glue sep none_left = refl
  separate_pairs-glue sep (pair k v ps) = rw (separate_pairs-glue sep ps) (simp append_assoc)

  -- What both prints of a container say, by the texts of its parts.
  abbrev pub Joins : Bytes → Var → List Bytes → Type 0
  Joins sep v ps =
      (show v ≡ codes "[" ++ join ps (codes ",") ++ codes "]")
      × (to_string sep v ≡ ok (join ps (c_text sep)))

  show_items-join :
      (x : Var) (xs : Vars)
      → show_items true (cons x xs) ≡ codes "[" ++ join (texts (cons x xs)) (codes ",") ++ codes "]"
  unfolding show_items
  show_items-join x xs =
      rw (show_items-glue xs, join-interleave (texts (cons x xs)) (codes ",")) (simp append_assoc)

  separate_items-join :
      (sep : Bytes) (xs : Vars) → separate_items sep true xs ≡ join (texts xs) (c_text sep)
  unfolding separate_items
  separate_items-join sep nil = sym (join-interleave [] (c_text sep))
  separate_items-join sep (cons x xs) =
      rw (separate_items-glue sep xs, join-interleave (texts (cons x xs)) (c_text sep))

  show_pairs-join :
      (k v : Var) (ps : Pairs)
      → show_pairs true (pair k v ps)
        ≡ codes "[" ++ join (entry_texts (pair k v ps)) (codes ",") ++ codes "]"
  unfolding show_pairs
  show_pairs-join k v ps =
      rw (show_pairs-glue ps, join-interleave (entry_texts (pair k v ps)) (codes ","))
        (simp append_assoc)

  separate_pairs-join :
      (sep : Bytes) (ps : Pairs) → separate_pairs sep true ps ≡ join (entry_texts ps) (c_text sep)
  unfolding separate_pairs
  separate_pairs-join sep none_left = sym (join-interleave [] (c_text sep))
  separate_pairs-join sep (pair k v ps) =
      rw (separate_pairs-glue sep ps, join-interleave (entry_texts (pair k v ps)) (c_text sep))
        (simp append_assoc)

  abbrev pub Prints : Bytes → Var → Type 0
  Prints sep (array xs) = Joins sep (array xs) (texts xs)
  Prints sep (list xs) = Joins sep (list xs) (texts xs)
  Prints sep (set xs) = Joins sep (set xs) (texts xs)
  Prints sep (dict ps) = Joins sep (dict ps) (entry_texts ps)
  Prints sep v = to_string sep v ≡ err Access.invalid_operation

  -- A container is printed as the `join` of the texts of its parts by commas, in brackets, and
  -- `to_string` with a separator gives their `join` by the separator, up to its first NUL; of a value
  -- that is no container it throws the error of an invalid operation.
  pub show-Prints : (sep : Bytes) (v : Var) → Prints sep v
  unfolding show to_string join
  show-Prints sep (array nil) = (refl, ap ok (separate_items-join sep nil))
  show-Prints sep (array (cons x xs)) =
      (show_items-join x xs, ap ok (separate_items-join sep (cons x xs)))
  show-Prints sep (list nil) = (refl, ap ok (separate_items-join sep nil))
  show-Prints sep (list (cons x xs)) =
      (show_items-join x xs, ap ok (separate_items-join sep (cons x xs)))
  show-Prints sep (set nil) = (refl, ap ok (separate_items-join sep nil))
  show-Prints sep (set (cons x xs)) =
      (show_items-join x xs, ap ok (separate_items-join sep (cons x xs)))
  show-Prints sep (dict none_left) = (refl, ap ok (separate_pairs-join sep none_left))
  show-Prints sep (dict (pair k v ps)) =
      (show_pairs-join k v ps, ap ok (separate_pairs-join sep (pair k v ps)))
  show-Prints sep v = refl
