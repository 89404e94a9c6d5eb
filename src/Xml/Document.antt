-- ===== src/Xml/Document.antt =====
-- The events of a document, as libxml2 reports them, and the node that parse of lib/cclxml.cc makes of
-- them.
use mathlib.Core.Path.{fun_ext}
use cclib.Base.{
  suc, ◌≡◌, refl, sym, ap, ◌∙◌, arith, Bool, true, false, Option, some, List, [], ◌∷◌, ◌++◌,
  append_assoc, append-nil, Bytes, if◌then◌else◌, length, length-append, All, Bool-cases, inl, inr,
}
use cclib.Xml.Node.{
  Attr, Node, node, Nodes, nil, cons, Pointer, new_node, nodes, nodes_size, push_node, add_text,
  add_node, get, modify,
}
use cclib.Xml.Handlers.{
  Event, start_element, end_element, characters, notice, XmlParser, done, add_attrs, is_line_end,
  handle, handle_all, then_parse, at_pointer, parse_xml, xml_start_element, xml_end_element,
  xml_characters,
}
use cclib.Xml.Paths.{
  get-modify, modify-modify, modify-id, modify-last, get-last, IsWithin, moved_by_all-IsWithin,
  IsWithin-more,
}

-- What stands in an element: text, in the parts that are reported, comments, and elements.
pub data Items : Type 0 where
  nothing : Items
  text : Bytes → Items → Items
  comment : Items → Items
  element : Bytes → List Attr → Items → Items → Items

abbrev pub events : Items → List Event
events nothing = []
events (text ch is) = characters ch ∷ events is
events (comment is) = notice ∷ events is
events (element name attrs inner is) =
    start_element name attrs ∷ (events inner ++ end_element ∷ events is)

-- All the text of an element, without the parts that are an end of a line.
abbrev pub text_of : Items → Bytes
text_of nothing = []
text_of (text ch is) = if is_line_end ch then text_of is else ch ++ text_of is
text_of (comment is) = text_of is
text_of (element name attrs inner is) = text_of is

abbrev pub nodes_of : Items → Nodes
nodes_of nothing = nil
nodes_of (text ch is) = nodes_of is
nodes_of (comment is) = nodes_of is
nodes_of (element name attrs inner is) =
    cons (node true name (text_of inner) attrs (nodes_of inner)) (nodes_of is)

abbrev append_nodes : Nodes → Nodes → Nodes
append_nodes nil ys = ys
append_nodes (cons x xs) ys = cons x (append_nodes xs ys)

append_nodes-nil : (xs : Nodes) → append_nodes xs nil ≡ xs
append_nodes-nil nil = refl
append_nodes-nil (cons x xs) = ap (cons x) (append_nodes-nil xs)

append_nodes-push :
    (xs ys : Nodes) (z : Node) → append_nodes (push_node xs z) ys ≡ append_nodes xs (cons z ys)
append_nodes-push nil ys z = refl
append_nodes-push (cons x xs) ys z = ap (cons x) (append_nodes-push xs ys z)

abbrev grown : Items → Node → Node
grown is (node c name t attrs xs) =
    node c name (t ++ text_of is) attrs (append_nodes xs (nodes_of is))

grown-nothing : (x : Node) → grown nothing x ≡ x
grown-nothing (node c name t attrs xs) =
    rw (append-nil t) (ap (node c name t attrs) (append_nodes-nil xs))

grown-text :
    (ch : Bytes) (is : Items) (x : Node)
    → is_line_end ch ≡ false
    → grown is (add_text ch x) ≡ grown (text ch is) x
grown-text ch is (node c name t attrs xs) e =
    rw e (
      ap (λ s. node c name s attrs (append_nodes xs (nodes_of is)))
        (append_assoc t ch (text_of is)))

grown-line_end :
    (ch : Bytes) (is : Items) (x : Node) → is_line_end ch ≡ true → grown is x ≡ grown (text ch is) x
grown-line_end ch is (node c name t attrs xs) e = rw e refl

grown-node :
    (name : Bytes) (attrs : List Attr) (inner is : Items) (x : Node)
    → grown is (add_node (node true name (text_of inner) attrs (nodes_of inner)) x)
      ≡ grown (element name attrs inner is) x
grown-node name attrs inner is (node c n t a xs) =
    ap (node c n (t ++ text_of is) a)
      (append_nodes-push xs (nodes_of is) (node true name (text_of inner) attrs (nodes_of inner)))

add_attrs-node :
    (attrs ls : List Attr) (c : Bool) (n t : Bytes) (xs : Nodes)
    → add_attrs attrs (node c n t ls xs) ≡ node c n t (ls ++ attrs) xs
add_attrs-node [] ls c n t xs = ap (λ bs. node c n t bs xs) (sym (append-nil ls))
add_attrs-node (b ∷ attrs) ls c n t xs =
    add_attrs-node attrs (ls ++ b ∷ []) c n t xs
    ∙ ap (λ bs. node c n t bs xs) (append_assoc ls (b ∷ []) attrs)

grown-new :
    (name : Bytes) (attrs : List Attr) (inner : Items)
    → grown inner (add_attrs attrs (new_node name))
      ≡ node true name (text_of inner) attrs (nodes_of inner)
grown-new name attrs inner = ap (grown inner) (add_attrs-node attrs [] true name [] nil)

abbrev xml_parser : Node → Pointer → List (Option Pointer) → XmlParser
xml_parser r p os = record { root = some r; node_stack = some p ∷ os }

handle-start :
    (name : Bytes) (attrs : List Attr) (r x : Node) (p : Pointer) (os : List (Option Pointer))
    → get p r ≡ some x
    → All (IsWithin (length p)) os
    → handle (start_element name attrs) (xml_parser r p os)
      ≡ done (
          xml_parser
            (modify p (add_node (add_attrs attrs (new_node name))) r)
            (p ++ nodes_size (nodes x) ∷ [])
            (some p ∷ os))
unfolding handle xml_start_element
handle-start name attrs r x p os e h =
    rw (e, at_pointer)
      (rw (modify-last p (add_attrs attrs) (new_node name) r x e)
        (rw (moved_by_all-IsWithin p (some p ∷ os) (omega arith, h)) refl))

-- Two changes at a pointer, one after the other, by what they are together.
modify-both :
    (p : Pointer) (f g k : Node → Node) (r : Node)
    → ((x : Node) → f (g x) ≡ k x)
    → modify p f (modify p g r) ≡ modify p k r
modify-both p f g k r e = modify-modify p f g r ∙ ap (λ h. modify p h r) (fun_ext e)

handled-then :
    (e : Event) (es : List Event) (s t : XmlParser)
    → handle e s ≡ done t
    → handle_all (e ∷ es) s ≡ handle_all es t
unfolding handle_all
handled-then e es s t h = ap (λ r. then_parse r (handle_all es)) h

events-handled :
    (is : Items) (p : Pointer) (os : List (Option Pointer)) (r x : Node) (es : List Event)
    → get p r ≡ some x
    → All (IsWithin (length p)) os
    → handle_all (events is ++ es) (xml_parser r p os)
      ≡ handle_all es (xml_parser (modify p (grown is) r) p os)
unfolding handle_all handle xml_end_element xml_characters
events-handled nothing p os r x es e h =
    ap (λ s. handle_all es (xml_parser s p os))
      (sym (ap (λ f. modify p f r) (fun_ext grown-nothing) ∙ modify-id p r))
events-handled (comment is) p os r x es e h = events-handled is p os r x es e h
events-handled (text ch is) p os r x es e h = elim (Bool-cases (is_line_end ch)) [
  | inl b ↦ rw b (
      events-handled is p os r x es e h
      ∙ ap (λ f. handle_all es (xml_parser (modify p f r) p os))
          (fun_ext (λ y. grown-line_end ch is y b)))
  | inr b ↦ rw b (
      rw (e, at_pointer)
        (events-handled is p os (modify p (add_text ch) r) (add_text ch x) es
            (get-modify p (add_text ch) r x e) h
          ∙ ap (λ s. handle_all es (xml_parser s p os))
              (modify-both p (grown is) (add_text ch) (grown (text ch is)) r
                (λ y. grown-text ch is y b))))
]
events-handled (element name attrs inner is) p os r x es e h =
    let fresh = add_attrs attrs (new_node name) in
    let made = node true name (text_of inner) attrs (nodes_of inner) in
    let q = p ++ nodes_size (nodes x) ∷ [] in
    let begun = modify p (add_node fresh) r in
    let ended = modify p (add_node made) r in
    let longer : length q ≡ suc (length p) =
      omega (arith, length-append p (nodes_size (nodes x) ∷ [])) in
    let within : All (IsWithin (length q)) (some p ∷ os) =
      (omega (arith, longer), IsWithin-more (length p) (length q) os (omega (arith, longer)) h) in
    let inside : modify q (grown inner) begun ≡ ended =
      modify-last p (grown inner) fresh r x e
      ∙ ap (λ y. modify p (add_node y) r) (grown-new name attrs inner) in
    handled-then (start_element name attrs) ((events inner ++ end_element ∷ events is) ++ es)
      (xml_parser r p os) (xml_parser begun q (some p ∷ os)) (handle-start name attrs r x p os e h)
    ∙ ap (λ z. handle_all z (xml_parser begun q (some p ∷ os)))
        (append_assoc (events inner) (end_element ∷ events is) es)
    ∙ events-handled inner q (some p ∷ os) begun fresh (end_element ∷ (events is ++ es))
        (get-last p fresh r x e) within
    ∙ ap (λ s. handle_all (events is ++ es) (xml_parser s p os)) inside
    ∙ events-handled is p os ended (add_node made x) es (get-modify p (add_node made) r x e) h
    ∙ ap (λ s. handle_all es (xml_parser s p os))
        (modify-both p (grown is) (add_node made) (grown (element name attrs inner is)) r
          (grown-node name attrs inner is))

abbrev pub document : Bytes → List Attr → Items → List Event
document name attrs is = start_element name attrs ∷ (events is ++ end_element ∷ [])

-- Where libxml2 succeeds, and reports a document with its texts in any parts, parse returns the root
-- element: each element has its attributes in order, the parts of its text one after another without
-- those that are an end of a line, and its elements in order. No pointer is used whose node has moved.
pub parse_xml-document :
    (sax : Bytes → List Event × Bool) (source name : Bytes) (attrs : List Attr) (is : Items)
    → sax source ≡ (document name attrs is, true)
    → parse_xml sax source ≡ done (node true name (text_of is) attrs (nodes_of is))
unfolding parse_xml handle_all handle xml_start_element xml_end_element
parse_xml-document sax source name attrs is e =
    let r = add_attrs attrs (new_node name) in
    rw (e, parse_xml)
      (rw (events-handled is [] [] r r (end_element ∷ []) refl tt)
        (ap done (grown-new name attrs is)))
