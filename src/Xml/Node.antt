-- ===== src/Xml/Node.antt =====
-- The nodes of lib/cclxml.h, where a node stands below a root, and the text that lib/cclxml.cc
-- writes of a node.
use cclib.Base.{
  ℕ, zero, suc, Bool, true, false, Option, none, some, List, [], ◌∷◌, ◌++◌, Bytes, codes, ◌&&◌,
  if◌then◌else◌,
}

-- A name and a value.
abbrev pub Attr : Type 0
Attr = Bytes × Bytes

-- `m_self_close`, `m_name`, `m_text`, `m_attrs` and `m_nodes`.
mutual
  pub data Node : Type 0 where
    node : Bool → Bytes → Bytes → List Attr → Nodes → Node

  pub data Nodes : Type 0 where
    nil : Nodes
    cons : Node → Nodes → Nodes

abbrev pub new_node : Bytes → Node
new_node name = node true name [] [] nil

abbrev pub nodes_size : Nodes → ℕ
nodes_size nil = 0
nodes_size (cons x xs) = suc (nodes_size xs)

abbrev pub push_node : Nodes → Node → Nodes
push_node nil x = cons x nil
push_node (cons y ys) x = cons y (push_node ys x)

abbrev pub nodes : Node → Nodes
nodes (node c name t attrs xs) = xs

abbrev pub add_attr : Attr → Node → Node
add_attr a (node c name t attrs xs) = node c name t (attrs ++ a ∷ []) xs

abbrev pub add_text : Bytes → Node → Node
add_text s (node c name t attrs xs) = node c name (t ++ s) attrs xs

abbrev pub add_node : Node → Node → Node
add_node x (node c name t attrs xs) = node c name t attrs (push_node xs x)

-- A `xml_node_c *`: the positions in the vectors that lead to it.
abbrev pub Pointer : Type 0
Pointer = List ℕ

abbrev mutual
  pub get : Pointer → Node → Option Node
  get [] x = some x
  get (i ∷ p) (node c name t attrs xs) = get_in i p xs

  pub get_in : ℕ → Pointer → Nodes → Option Node
  get_in i p nil = none
  get_in zero p (cons x xs) = get p x
  get_in (suc i) p (cons x xs) = get_in i p xs

abbrev mutual
  pub modify : Pointer → (Node → Node) → Node → Node
  modify [] f x = f x
  modify (i ∷ p) f (node c name t attrs xs) = node c name t attrs (modify_in i p f xs)

  pub modify_in : ℕ → Pointer → (Node → Node) → Nodes → Nodes
  modify_in i p f nil = nil
  modify_in zero p f (cons x xs) = cons (modify p f x) xs
  modify_in (suc i) p f (cons x xs) = cons x (modify_in i p f xs)

abbrev pub show_attrs : List Attr → Bytes
show_attrs [] = []
show_attrs ((name, value) ∷ attrs) =
    codes " " ++ name ++ codes "=\"" ++ value ++ codes "\"" ++ show_attrs attrs

abbrev pub is_empty : Bytes → Bool
is_empty [] = true
is_empty (c ∷ s) = false

abbrev pub no_nodes : Nodes → Bool
no_nodes nil = true
no_nodes (cons x xs) = false

abbrev pub newline : Bytes
newline = 10 ∷ []

unfoldable mutual
  pub show_node : Node → Bytes
  show_node (node c name t attrs xs) =
      codes "<"
      ++ name
      ++ show_attrs attrs
      ++ (if c && is_empty t && no_nodes xs
          then codes "/>" ++ newline
          else codes ">" ++ t ++ show_nodes xs ++ codes "</" ++ name ++ codes ">" ++ newline)

  pub show_nodes : Nodes → Bytes
  show_nodes nil = []
  show_nodes (cons x xs) = newline ++ show_node x ++ show_rest xs

  pub show_rest : Nodes → Bytes
  show_rest nil = []
  show_rest (cons x xs) = show_node x ++ show_rest xs
