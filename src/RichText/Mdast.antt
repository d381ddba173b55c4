-- ===== src/RichText/Mdast.antt =====
-- Markdown trees: the typedef MdastNode of examples/rich-text-editor/rich_text_editor.js, with a
-- constructor for each node type that the code builds or matches. `other_parent` and `other_leaf`
-- are nodes of any further type, with and without children. A `list` or `list_item` has
-- `spread: false`. A text that is absent reads as the empty one, as the code does.
use native.Mathlib.Decide.{ℕ_discrete}
use sqlpage.Prelude.{
  ℕ, Bool, true, false, Option, none, some, List, [], ◌∷◌, ◌++◌, Text, ◌≡◌, ◌↔◌, refl, ap, ite,
  arith,
}
use sqlpage.RichText.Delta.{Language}

mutual
  pub data Node : Type 0 where
    root : Nodes → Node
    paragraph : Nodes → Node
    heading : ℕ → Nodes → Node
    text : Text → Node
    break : Node
    strong : Nodes → Node
    emphasis : Nodes → Node
    link : Text → Nodes → Node
    image : (url title alt : Text) → Node
    list : (is_ordered : Bool) → Nodes → Node
    list_item : Nodes → Node
    blockquote : Nodes → Node
    code : Text → Option Language → Node
    inline_code : Text → Node
    other_parent : (type : Text) → Nodes → Node
    other_leaf : (type : Text) → Text → Node

  pub data Nodes : Type 0 where
    nil : Nodes
    cons : Node → Nodes → Nodes

Nodes-discrete : Discrete Nodes
Nodes-discrete = hlevel ℕ_discrete

-- Equality of JSON texts: nodes are built with their fields in one order.
unfoldable pub same_nodes : Nodes → Nodes → Bool
unfolding Nodes-discrete ℕ_discrete
same_nodes ns ms = ite (Nodes-discrete ns ms) true false

pub same_nodes_iff : (ns ms : Nodes) → (same_nodes ns ms ≡ true) ↔ (ns ≡ ms)
unfolding same_nodes
same_nodes_iff ns ms = ground arith

Language?-discrete : Discrete (Option Language)
Language?-discrete = hlevel ℕ_discrete

unfoldable pub same_language : Option Language → Option Language → Bool
unfolding Language?-discrete ℕ_discrete
same_language l m = ite (Language?-discrete l m) true false

pub same_language_iff : (l m : Option Language) → (same_language l m ≡ true) ↔ (l ≡ m)
unfolding same_language
same_language_iff l m = ground arith

infixr 65 ◌+++◌
abbrev pub ◌+++◌ : Nodes → Nodes → Nodes
nil +++ ms = ms
cons n ns +++ ms = cons n (ns +++ ms)

abbrev pub single : Node → Nodes
single n = cons n nil

abbrev pub elements : Nodes → List Node
elements nil = []
elements (cons n ns) = n ∷ elements ns

abbrev pub of_list : List Node → Nodes
of_list [] = nil
of_list (n ∷ ns) = cons n (of_list ns)

pub elements-of_list : (ns : List Node) → elements (of_list ns) ≡ ns
elements-of_list [] = refl
elements-of_list (n ∷ ns) = ap (n ∷◌) (elements-of_list ns)

-- The field `children`.
abbrev pub children_of : Node → Option Nodes
children_of (root ns) = some ns
children_of (paragraph ns) = some ns
children_of (heading d ns) = some ns
children_of (strong ns) = some ns
children_of (emphasis ns) = some ns
children_of (link u ns) = some ns
children_of (list o ns) = some ns
children_of (list_item ns) = some ns
children_of (blockquote ns) = some ns
children_of (other_parent t ns) = some ns
children_of _ = none

-- The text of a node: what it shows, in the order of the document.
unfoldable mutual
  pub text_of : Node → Text
  text_of (root ns) = texts_of ns
  text_of (paragraph ns) = texts_of ns
  text_of (heading d ns) = texts_of ns
  text_of (text s) = s
  text_of break = []
  text_of (strong ns) = texts_of ns
  text_of (emphasis ns) = texts_of ns
  text_of (link u ns) = texts_of ns
  text_of (image u t a) = []
  text_of (list o ns) = texts_of ns
  text_of (list_item ns) = texts_of ns
  text_of (blockquote ns) = texts_of ns
  text_of (code s l) = s
  text_of (inline_code s) = s
  text_of (other_parent t ns) = texts_of ns
  text_of (other_leaf t s) = s

  pub texts_of : Nodes → Text
  texts_of nil = []
  texts_of (cons n ns) = text_of n ++ texts_of ns
