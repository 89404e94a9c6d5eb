-- ===== src/Xml/Tests.antt =====
-- Runs of lib/cclxml.cc, and its theorem at a concrete document.
use cclib.Base.{Bool, ◌≡◌, refl, true, false, List, [], ◌∷◌, ◌++◌, Bytes, codes}
use cclib.Xml.Node.{node, nil, cons, show_node}
use cclib.Xml.Handlers.{
  Event, start_element, done, thrown, error_parse, handle_all, parse_xml, handle,
}
use cclib.Xml.Document.{Items, nothing, text, comment, element, document, parse_xml-document}

abbrev some_items : Items
some_items = text (codes "a") (
    text (10 ∷ []) (
      element (codes "p") ((codes "k", codes "v") ∷ []) (text (codes "b") nothing)
        (comment (element (codes "br") [] nothing (text (codes "c") nothing)))))

abbrev some_sax : Bytes → List Event × Bool
some_sax source = (document (codes "r") [] some_items, true)

parse_xml-document_example :
    parse_xml some_sax (codes "<r>")
    ≡ done (
        node true (codes "r") (codes "ac") [] (
          cons
            (node true (codes "p") (codes "b") ((codes "k", codes "v") ∷ []) nil)
            (cons (node true (codes "br") [] [] nil) nil)))
parse_xml-document_example =
    parse_xml-document some_sax (codes "<r>") (codes "r") [] some_items refl

-- An error after an element was reported is thrown.
parse_xml-error :
    parse_xml (λ s. (start_element (codes "r") [] ∷ [], false)) [] ≡ thrown error_parse
unfolding parse_xml handle_all handle
parse_xml-error = refl

-- Text is written as it is: what is written here is not read back.
show_node-less : show_node (node true (codes "p") (codes "<") [] nil) ≡ codes "<p><</p>" ++ 10 ∷ []
unfolding show_node
show_node-less = refl
