-- ===== src/Xml/Handlers.antt =====
-- The handlers of libxml2's events in lib/cclxml.cc, and parse, which has libxml2 call them.
use cclib.Base.{
  Bool, true, false, Option, none, some, List, [], ◌∷◌, ◌++◌, Bytes, codes, ◌&&◌, ◌||◌, ◌==◌,
  if◌then◌else◌, bytes_eq,
}
use cclib.Xml.Node.{
  Attr, Node, Pointer, new_node, nodes, nodes_size, add_attr, add_text, add_node, get, modify,
}

-- An event that libxml2 reports. The warnings and errors, and the begin and end of the document, change
-- nothing.
pub data Event : Type 0 where
  start_element : Bytes → List Attr → Event
  end_element : Event
  characters : Bytes → Event
  notice : Event

-- `node_stack`, its back first, and the root that its first pointer owns. A pointer is `none` where
-- the vector that its node stood in has moved its elements.
pub record XmlParser : Type 0 where
  pub root : Option Node
  pub node_stack : List (Option Pointer)

-- `dangling` where a pointer without a node is used.
pub data Result (A : Type 0) : Type 0 where
  done : A → Result A
  thrown : Bytes → Result A
  dangling : Result A

-- Whether the second pointer is to an element of the first one's vector.
abbrev pub is_child : Pointer → Pointer → Bool
is_child [] [] = false
is_child [] (i ∷ []) = true
is_child [] (i ∷ j ∷ q) = false
is_child (i ∷ p) [] = false
is_child (i ∷ p) (j ∷ q) = (i == j) && is_child p q

-- An insertion at the back may move all elements of a vector.
abbrev pub moved_by : Pointer → Option Pointer → Option Pointer
moved_by p none = none
moved_by p (some q) = if is_child p q then none else some q

abbrev pub moved_by_all : Pointer → List (Option Pointer) → List (Option Pointer)
moved_by_all p [] = []
moved_by_all p (o ∷ os) = moved_by p o ∷ moved_by_all p os

abbrev pub add_attrs : List Attr → Node → Node
add_attrs [] x = x
add_attrs (a ∷ attrs) x = add_attrs attrs (add_attr a x)

abbrev pub at_pointer :
    Option Pointer → Option Node → (Pointer → Node → Node → Result XmlParser) → Result XmlParser
at_pointer none r next = dangling
at_pointer (some p) none next = dangling
at_pointer (some p) (some r) next = elim (get p r) [ none ↦ dangling | some x ↦ next p r x ]

unfoldable pub xml_start_element : Bytes → List Attr → XmlParser → Result XmlParser
xml_start_element name attrs s = elim s.node_stack [
  | [] ↦ done (record { root = some (add_attrs attrs (new_node name)); node_stack = some [] ∷ [] })
  | o ∷ os ↦ at_pointer o s.root (λ p r x.
      let q = p ++ nodes_size (nodes x) ∷ [] in
      done (record {
        root = some (modify q (add_attrs attrs) (modify p (add_node (new_node name)) r));
        node_stack = some q ∷ moved_by_all p (o ∷ os);
      }))
]

abbrev pub pop_stack : List (Option Pointer) → List (Option Pointer)
pop_stack [] = []
pop_stack (o ∷ []) = o ∷ []
pop_stack (o ∷ o' ∷ os) = o' ∷ os

unfoldable pub xml_end_element : XmlParser → XmlParser
xml_end_element s = record s { node_stack = pop_stack s.node_stack }

abbrev pub is_line_end : Bytes → Bool
is_line_end ch = bytes_eq ch (10 ∷ []) || bytes_eq ch (13 ∷ []) || bytes_eq ch (13 ∷ 10 ∷ [])

abbrev pub back : List (Option Pointer) → Option Pointer
back [] = none
back (o ∷ os) = o

unfoldable pub xml_characters : Bytes → XmlParser → Result XmlParser
xml_characters ch s =
    if is_line_end ch
    then done s
    else at_pointer (back s.node_stack) s.root
        (λ p r x. done (record s { root = some (modify p (add_text ch) r) }))

unfoldable pub handle : Event → XmlParser → Result XmlParser
unfolding xml_start_element xml_end_element xml_characters
handle (start_element name attrs) s = xml_start_element name attrs s
handle end_element s = done (xml_end_element s)
handle (characters ch) s = xml_characters ch s
handle notice s = done s

abbrev pub then_parse : {A B : Type 0} → Result A → (A → Result B) → Result B
then_parse (done x) next = next x
then_parse (thrown e) next = thrown e
then_parse dangling next = dangling

unfoldable pub handle_all : List Event → XmlParser → Result XmlParser
handle_all [] s = done s
handle_all (e ∷ es) s = then_parse (handle e s) (handle_all es)

abbrev pub error_parse : Bytes
error_parse = codes "error while parsing xml data"

abbrev pub node_at : Option Pointer → Option Node → Result Node
node_at none r = dangling
node_at (some p) none = dangling
node_at (some p) (some r) = elim (get p r) [ none ↦ dangling | some x ↦ done x ]

abbrev pub no_xml_parser : XmlParser
no_xml_parser = record { root = none; node_stack = [] }

-- `sax` stands for xmlSAXUserParseMemory: the events that it calls the handlers with, and whether it
-- returns zero.
unfoldable pub parse_xml : (Bytes → List Event × Bool) → Bytes → Result Node
parse_xml sax text =
    let (events, succeeds) = sax text in
    then_parse (handle_all events no_xml_parser)
      (λ s. if succeeds then node_at (back s.node_stack) s.root else thrown error_parse)
