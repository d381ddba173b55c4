-- ===== src/RichText/Grammar.antt =====
-- The trees that deltaToMdast of examples/rich-text-editor/rich_text_editor.js builds, as predicates
-- on nodes: inline content, list items, blocks, and adjacent lists of different kinds.
use sqlpage.Prelude.{
  ◌<◌, ◌≡◌, ◌≢◌, ap, Bool, false, Option, none, some, List, [], ◌∷◌, ◌++◌, map, newline, includes,
  last?, All,
}
use sqlpage.RichText.Mdast.{
  Node, Nodes, paragraph, heading, text, strong, emphasis, link, image, list, list_item, blockquote,
  code, nil, cons, ◌+++◌, single,
}

-- Text without a line break, formatting, links to somewhere, and images that have a source and
-- repeat their title as the alternative text.
unfoldable mutual
  pub IsInline : Node → Type 0
  IsInline (text s) = includes newline s ≡ false
  IsInline (strong ns) = IsInlines ns
  IsInline (emphasis ns) = IsInlines ns
  IsInline (link url ns) = (url ≢ []) × IsInlines ns
  IsInline (image url title alt) = (url ≢ []) × (title ≡ alt)
  IsInline _ = ⊥

  pub IsInlines : Nodes → Type 0
  IsInlines nil = Unit
  IsInlines (cons n ns) = IsInline n × IsInlines ns

pub IsInlines-+++ : (ns ms : Nodes) → IsInlines ns → IsInlines ms → IsInlines (ns +++ ms)
unfolding IsInline
IsInlines-+++ nil ms h k = k
IsInlines-+++ (cons n ns) ms (p, h) k = (p, IsInlines-+++ ns ms h k)

-- An item holds one paragraph.
abbrev pub IsItem : Node → Type 0
IsItem (list_item (cons (paragraph ns) nil)) = IsInlines ns
IsItem _ = ⊥

abbrev pub IsItems : Nodes → Type 0
IsItems nil = Unit
IsItems (cons n ns) = IsItem n × IsItems ns

pub IsItems-+++ : (ns ms : Nodes) → IsItems ns → IsItems ms → IsItems (ns +++ ms)
IsItems-+++ nil ms h k = k
IsItems-+++ (cons n ns) ms (p, h) k = (p, IsItems-+++ ns ms h k)

pub +++-single-ne-nil : (ns : Nodes) (n : Node) → (ns +++ single n) ≢ nil
+++-single-ne-nil nil n = cc
+++-single-ne-nil (cons m ns) n = cc

-- A heading has a level of at least 1 and one text; a quotation has one paragraph; a list has items.
abbrev pub IsBlock : Node → Type 0
IsBlock (paragraph ns) = IsInlines ns × (ns ≢ nil)
IsBlock (heading d (cons (text s) nil)) = (0 < d) × (includes newline s ≡ false)
IsBlock (code s l) = Unit
IsBlock (list o ns) = IsItems ns × (ns ≢ nil)
IsBlock (blockquote (cons (paragraph ns) nil)) = IsInlines ns
IsBlock _ = ⊥

-- The kind of a list, and `none` for any other node.
abbrev pub kind : Node → Option Bool
kind (list o ns) = some o
kind _ = none

abbrev Differ : Option Bool → Option Bool → Type 0
Differ (some o) (some p) = o ≢ p
Differ _ _ = Unit

abbrev pub Alternates : List (Option Bool) → Type 0
Alternates [] = Unit
Alternates (k ∷ []) = Unit
Alternates (k ∷ j ∷ ks) = Differ k j × Alternates (j ∷ ks)

-- No list follows a list of its own kind.
abbrev pub ListsAlternate : List Node → Type 0
ListsAlternate cs = Alternates (map kind cs)

pub Alternates-snoc_none : (ks : List (Option Bool)) → Alternates ks → Alternates (ks ++ none ∷ [])
Alternates-snoc_none [] h = tt
Alternates-snoc_none (some o ∷ []) h = (tt, tt)
Alternates-snoc_none (none ∷ []) h = (tt, tt)
Alternates-snoc_none (k ∷ j ∷ ks) (d, h) = (d, Alternates-snoc_none (j ∷ ks) h)

pub Alternates-snoc_some :
    (ks : List (Option Bool)) (o : Bool)
    → last? ks ≢ some (some o)
    → Alternates ks
    → Alternates (ks ++ some o ∷ [])
Alternates-snoc_some [] o d h = tt
Alternates-snoc_some (some p ∷ []) o d h = (λ e. d (ap (λ b. some (some b)) e), tt)
Alternates-snoc_some (none ∷ []) o d h = (tt, tt)
Alternates-snoc_some (k ∷ j ∷ ks) o d (e, h) = (e, Alternates-snoc_some (j ∷ ks) o d h)

-- What a conversion gives: blocks, with no two adjacent lists of one kind.
pub record IsDocument (cs : List Node) : Type 0 where
  pub blocks : All IsBlock cs
  pub lists : ListsAlternate cs
