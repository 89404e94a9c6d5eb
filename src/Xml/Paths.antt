-- ===== src/Xml/Paths.antt =====
-- What a change at a pointer of lib/cclxml.cc is at the other pointers.
use cclib.Base.{
  ℕ, zero, suc, ◌≡◌, refl, ap, arith, false, Option, none, some, List, [], ◌∷◌, ◌++◌, ◌≤◌, length,
  All,
}
use cclib.Xml.Node.{
  Node, node, Nodes, nil, cons, Pointer, nodes, nodes_size, push_node, add_node, get, get_in,
  modify, modify_in,
}
use cclib.Xml.Handlers.{is_child, moved_by_all}

abbrev changed : (Node → Node) → Option Node → Option Node
changed f none = none
changed f (some x) = some (f x)

abbrev size_of : Option Node → ℕ
size_of none = 0
size_of (some x) = nodes_size (nodes x)

mutual
  pub get-modify :
      (p : Pointer) (f : Node → Node) (r x : Node)
      → get p r ≡ some x
      → get p (modify p f r) ≡ some (f x)
  get-modify [] f r x e = ap (changed f) e
  get-modify (i ∷ p) f (node c name t attrs xs) x e = get-modify_in i p f xs x e

  get-modify_in :
      (i : ℕ) (p : Pointer) (f : Node → Node) (xs : Nodes) (x : Node)
      → get_in i p xs ≡ some x
      → get_in i p (modify_in i p f xs) ≡ some (f x)
  get-modify_in i p f nil x e = absurd (cc)
  get-modify_in zero p f (cons y ys) x e = get-modify p f y x e
  get-modify_in (suc i) p f (cons y ys) x e = get-modify_in i p f ys x e

mutual
  pub modify-modify :
      (p : Pointer) (f g : Node → Node) (r : Node)
      → modify p f (modify p g r) ≡ modify p (λ x. f (g x)) r
  modify-modify [] f g r = refl
  modify-modify (i ∷ p) f g (node c name t attrs xs) =
      ap (node c name t attrs) (modify-modify_in i p f g xs)

  modify-modify_in :
      (i : ℕ) (p : Pointer) (f g : Node → Node) (xs : Nodes)
      → modify_in i p f (modify_in i p g xs) ≡ modify_in i p (λ x. f (g x)) xs
  modify-modify_in i p f g nil = refl
  modify-modify_in zero p f g (cons y ys) = ap (λ z. cons z ys) (modify-modify p f g y)
  modify-modify_in (suc i) p f g (cons y ys) = ap (cons y) (modify-modify_in i p f g ys)

mutual
  pub modify-id : (p : Pointer) (r : Node) → modify p (λ x. x) r ≡ r
  modify-id [] r = refl
  modify-id (i ∷ p) (node c name t attrs xs) = ap (node c name t attrs) (modify_in-id i p xs)

  modify_in-id : (i : ℕ) (p : Pointer) (xs : Nodes) → modify_in i p (λ x. x) xs ≡ xs
  modify_in-id i p nil = refl
  modify_in-id zero p (cons y ys) = ap (λ z. cons z ys) (modify-id p y)
  modify_in-id (suc i) p (cons y ys) = ap (cons y) (modify_in-id i p ys)

modify_in-push :
    (f : Node → Node) (xs : Nodes) (x : Node)
    → modify_in (nodes_size xs) [] f (push_node xs x) ≡ push_node xs (f x)
modify_in-push f nil x = refl
modify_in-push f (cons y ys) x = ap (cons y) (modify_in-push f ys x)

get_in-push : (xs : Nodes) (x : Node) → get_in (nodes_size xs) [] (push_node xs x) ≡ some x
get_in-push nil x = refl
get_in-push (cons y ys) x = get_in-push ys x

-- The node that was inserted last is changed as if it had been inserted so.
mutual
  pub modify-last :
      (p : Pointer) (f : Node → Node) (x r y : Node)
      → get p r ≡ some y
      → modify (p ++ nodes_size (nodes y) ∷ []) f (modify p (add_node x) r)
        ≡ modify p (add_node (f x)) r
  modify-last [] f x (node c name t attrs xs) y e =
      let s : nodes_size xs ≡ nodes_size (nodes y) = ap size_of e in
      rw (← s) (ap (node c name t attrs) (modify_in-push f xs x))
  modify-last (i ∷ p) f x (node c name t attrs xs) y e =
      ap (node c name t attrs) (modify_in-last i p f x xs y e)

  modify_in-last :
      (i : ℕ) (p : Pointer) (f : Node → Node) (x : Node) (xs : Nodes) (y : Node)
      → get_in i p xs ≡ some y
      → modify_in i (p ++ nodes_size (nodes y) ∷ []) f (modify_in i p (add_node x) xs)
        ≡ modify_in i p (add_node (f x)) xs
  modify_in-last i p f x nil y e = absurd (cc)
  modify_in-last zero p f x (cons z zs) y e = ap (λ w. cons w zs) (modify-last p f x z y e)
  modify_in-last (suc i) p f x (cons z zs) y e = ap (cons z) (modify_in-last i p f x zs y e)

mutual
  pub get-last :
      (p : Pointer) (x r y : Node)
      → get p r ≡ some y
      → get (p ++ nodes_size (nodes y) ∷ []) (modify p (add_node x) r) ≡ some x
  get-last [] x (node c name t attrs xs) y e =
      let s : nodes_size xs ≡ nodes_size (nodes y) = ap size_of e in rw (← s) (get_in-push xs x)
  get-last (i ∷ p) x (node c name t attrs xs) y e = get_in-last i p x xs y e

  get_in-last :
      (i : ℕ) (p : Pointer) (x : Node) (xs : Nodes) (y : Node)
      → get_in i p xs ≡ some y
      → get_in i (p ++ nodes_size (nodes y) ∷ []) (modify_in i p (add_node x) xs) ≡ some x
  get_in-last i p x nil y e = absurd (cc)
  get_in-last zero p x (cons z zs) y e = get-last p x z y e
  get_in-last (suc i) p x (cons z zs) y e = get_in-last i p x zs y e

-- A pointer that is there, to a node no deeper than so many vectors.
abbrev pub IsWithin : ℕ → Option Pointer → Type 0
IsWithin n none = ⊥
IsWithin n (some q) = length q ≤ n

is_child-short : (p q : Pointer) → length q ≤ length p → is_child p q ≡ false
is_child-short [] [] le = refl
is_child-short [] (j ∷ q) le = absurd (omega arith)
is_child-short (i ∷ p) [] le = refl
is_child-short (i ∷ p) (j ∷ q) le = ground (arith, is_child-short p q (omega arith))

-- A vector moves its own elements only, and no pointer of the stack is to one of them.
pub moved_by_all-IsWithin :
    (p : Pointer) (os : List (Option Pointer))
    → All (IsWithin (length p)) os
    → moved_by_all p os ≡ os
moved_by_all-IsWithin p [] h = refl
moved_by_all-IsWithin p (none ∷ os) h = absurd h.0
moved_by_all-IsWithin p (some q ∷ os) h =
    rw (is_child-short p q h.0) (ap (λ os. some q ∷ os) (moved_by_all-IsWithin p os h.1))

pub IsWithin-more :
    (n m : ℕ) (os : List (Option Pointer)) → n ≤ m → All (IsWithin n) os → All (IsWithin m) os
IsWithin-more n m [] le h = tt
IsWithin-more n m (none ∷ os) le h = absurd h.0
IsWithin-more n m (some q ∷ os) le h = (omega (arith, h.0), IsWithin-more n m os le h.1)
