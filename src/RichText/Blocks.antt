-- ===== src/RichText/Blocks.antt =====
-- Documents of paragraphs and headings, and the deltas that mdastToDelta of
-- examples/rich-text-editor/rich_text_editor.js makes of them.
use sqlpage.Prelude.{
  ℕ, suc, ◌≡◌, ◌≢◌, refl, ap, ◌∙◌, sym, true, some, List, [], ◌∷◌, ◌++◌, map, concat, Text, newline,
  Excludes, append_assoc, append-nil, All, All-append, map-append,
}
use sqlpage.RichText.Delta.{Attributes, no_attributes, Op, Delta}
use sqlpage.RichText.Mdast.{
  Node, Nodes, root, paragraph, heading, text, strong, emphasis, link, nil, cons, single, of_list,
  text_of, texts_of,
}
use sqlpage.RichText.LineBreak.TextNodes.{formatted}
use sqlpage.RichText.ToDelta.{push_text, op_of, traverse, traverse_all}

-- A text with the marks that are round it.
pub record Piece : Type 0 where
  pub content : Text
  pub marks : Attributes

-- The texts of a node with their marks, in order, on top of the marks that are round the node.
unfoldable mutual
  pub pieces_of : Node → Attributes → List Piece
  pieces_of (text s) a = record { content = s; marks = a } ∷ []
  pieces_of (strong ns) a = pieces_all ns (record a { bold = true })
  pieces_of (emphasis ns) a = pieces_all ns (record a { italic = true })
  pieces_of (link url ns) a = pieces_all ns (record a { link = some url })
  pieces_of _ a = []

  pub pieces_all : Nodes → Attributes → List Piece
  pieces_all nil a = []
  pieces_all (cons n ns) a = pieces_of n a ++ pieces_all ns a

-- A node of texts that hold no line break, in strong, emphasis and link nodes of any nesting.
unfoldable mutual
  pub IsMarked : Node → Type 0
  IsMarked (text s) = Excludes newline s
  IsMarked (strong ns) = IsMarkedAll ns
  IsMarked (emphasis ns) = IsMarkedAll ns
  IsMarked (link url ns) = IsMarkedAll ns
  IsMarked _ = ⊥

  pub IsMarkedAll : Nodes → Type 0
  IsMarkedAll nil = Unit
  IsMarkedAll (cons n ns) = IsMarked n × IsMarkedAll ns

pub data Block : Type 0 where
  para : Nodes → Block
  head : ℕ → Nodes → Block

abbrev pub content_of : Block → Nodes
content_of (para ns) = ns
content_of (head d ns) = ns

-- The text of a block is not empty.
abbrev pub IsSimple : Block → Type 0
IsSimple b = IsMarkedAll (content_of b) × (texts_of (content_of b) ≢ [])

-- The tree of a document: a heading has a level of at least 1.
abbrev pub block_node : Block → Node
block_node (para ns) = paragraph ns
block_node (head d ns) = heading (suc d) ns

abbrev pub tree : List Block → Node
tree bs = root (of_list (map block_node bs))

abbrev pub piece_node : Piece → Node
piece_node p = formatted p.marks p.content

abbrev pub piece_nodes : List Piece → Nodes
piece_nodes ps = of_list (map piece_node ps)

-- The normal form of a block: in a paragraph one node for each text, with its marks in one order, and
-- in a heading the whole text in one node with no mark.
abbrev pub normal : Block → Node
normal (para ns) = paragraph (piece_nodes (pieces_all ns no_attributes))
normal (head d ns) = heading (suc d) (single (text (texts_of ns)))

abbrev pub piece_op : Piece → Op
piece_op p = op_of p.content p.marks

abbrev pub level : ℕ → Attributes
level d = record no_attributes { header = some (suc d) }

-- The operations of a line, and of a block.
abbrev pub line_ops : List Piece → Attributes → Delta
line_ops ps a = map piece_op ps ++ op_of (newline ∷ []) a ∷ []

abbrev pub block_ops : Block → Delta
block_ops (para ns) = line_ops (pieces_all ns no_attributes) no_attributes
block_ops (head d ns) = line_ops (pieces_all ns (level d)) (level d)

abbrev pub ops : List Block → Delta
ops [] = []
ops (b ∷ bs) = block_ops b ++ ops bs

abbrev pub contents : List Piece → Text
contents ps = concat (map (λ p. p.content) ps)

contents-append : (ps qs : List Piece) → contents (ps ++ qs) ≡ contents ps ++ contents qs
contents-append [] qs = refl
contents-append (p ∷ ps) qs = rw (contents-append ps qs, append_assoc)

mutual
  unfolding pieces_of IsMarked text_of

  contents-pieces_of :
      (n : Node) (a : Attributes) → IsMarked n → contents (pieces_of n a) ≡ text_of n
  contents-pieces_of (text s) a x = append-nil s
  contents-pieces_of (strong ns) a h = contents-pieces_all ns _ h
  contents-pieces_of (emphasis ns) a h = contents-pieces_all ns _ h
  contents-pieces_of (link url ns) a h = contents-pieces_all ns _ h
  contents-pieces_of _ a h = absurd h

  pub contents-pieces_all :
      (ns : Nodes) (a : Attributes) → IsMarkedAll ns → contents (pieces_all ns a) ≡ texts_of ns
  contents-pieces_all nil a h = refl
  contents-pieces_all (cons n ns) a (m, h) =
      rw (contents-append, contents-pieces_of n a m, contents-pieces_all ns a h)

abbrev pub IsLine : Piece → Type 0
IsLine p = Excludes newline p.content

mutual
  unfolding pieces_of IsMarked

  pieces_of-IsLine : (n : Node) (a : Attributes) → IsMarked n → All IsLine (pieces_of n a)
  pieces_of-IsLine (text s) a x = (x, tt)
  pieces_of-IsLine (strong ns) a h = pieces_all-IsLine ns _ h
  pieces_of-IsLine (emphasis ns) a h = pieces_all-IsLine ns _ h
  pieces_of-IsLine (link url ns) a h = pieces_all-IsLine ns _ h
  pieces_of-IsLine _ a h = absurd h

  pub pieces_all-IsLine :
      (ns : Nodes) (a : Attributes) → IsMarkedAll ns → All IsLine (pieces_all ns a)
  pieces_all-IsLine nil a h = tt
  pieces_all-IsLine (cons n ns) a (m, h) =
      All-append IsLine (pieces_of n a) (pieces_all ns a) (pieces_of-IsLine n a m)
        (pieces_all-IsLine ns a h)

mutual
  unfolding pieces_of IsMarked traverse push_text

  traverse-pieces_of :
      (n : Node) (d : Delta) (a : Attributes)
      → IsMarked n
      → traverse n d a ≡ d ++ map piece_op (pieces_of n a)
  traverse-pieces_of (text s) d a x = refl
  traverse-pieces_of (strong ns) d a h = traverse_all-pieces_all ns d _ h
  traverse-pieces_of (emphasis ns) d a h = traverse_all-pieces_all ns d _ h
  traverse-pieces_of (link url ns) d a h = traverse_all-pieces_all ns d _ h
  traverse-pieces_of _ d a h = absurd h

  traverse_all-pieces_all :
      (ns : Nodes) (d : Delta) (a : Attributes)
      → IsMarkedAll ns
      → traverse_all ns d a ≡ d ++ map piece_op (pieces_all ns a)
  traverse_all-pieces_all nil d a h = sym (append-nil d)
  traverse_all-pieces_all (cons n ns) d a (m, h) =
      ap (λ e. traverse_all ns e a) (traverse-pieces_of n d a m)
      ∙ traverse_all-pieces_all ns (d ++ map piece_op (pieces_of n a)) a h
      ∙ rw (map-append, append_assoc)

traverse-block :
    (b : Block) (d : Delta)
    → IsSimple b
    → traverse (block_node b) d no_attributes ≡ d ++ block_ops b
unfolding traverse push_text
traverse-block (para ns) d (h, k) =
    ap (λ e. push_text e (newline ∷ []) no_attributes) (traverse_all-pieces_all ns d _ h)
    ∙ append_assoc d _ _
traverse-block (head k ns) d (h, _) =
    ap (λ e. push_text e (newline ∷ []) (level k)) (traverse_all-pieces_all ns d (level k) h)
    ∙ append_assoc d _ _

pub traverse_all-blocks :
    (bs : List Block) (d : Delta)
    → All IsSimple bs
    → traverse_all (of_list (map block_node bs)) d no_attributes ≡ d ++ ops bs
unfolding traverse
traverse_all-blocks [] d h = sym (append-nil d)
traverse_all-blocks (b ∷ bs) d (i, h) =
    ap (λ e. traverse_all (of_list (map block_node bs)) e no_attributes) (traverse-block b d i)
    ∙ traverse_all-blocks bs (d ++ block_ops b) h
    ∙ append_assoc d (block_ops b) (ops bs)
