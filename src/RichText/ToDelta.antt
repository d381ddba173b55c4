-- ===== src/RichText/ToDelta.antt =====
-- mdastToDelta and traverseMdastNode of examples/rich-text-editor/rich_text_editor.js. `delta.ops`
-- is a list, which the traversal takes and gives back.
pub mod Texts
pub mod Items
use sqlpage.Prelude.{
  ℕ, Bool, true, false, Option, none, some, List, [], ◌∷◌, ◌++◌, Text, newline, split, text_eq,
  last?, nonempty, if◌then◌else◌, ◌||◌,
}
use sqlpage.RichText.Delta.{
  Attributes, no_attributes, Language, flag, Insert, Op, Delta, ordered, bullet,
}
use sqlpage.RichText.Mdast.{
  Node, Nodes, root, paragraph, heading, text, break, strong, emphasis, link, image, list,
  list_item, blockquote, code, inline_code, other_parent, other_leaf, nil, cons, elements,
  children_of,
}

abbrev pub op_of : Text → Attributes → Op
op_of s a = record { insert = Insert.text s; attributes = some a }

-- `delta.ops.push({ insert, attributes })`
unfoldable pub push_text : Delta → Text → Attributes → Delta
push_text d s a = d ++ op_of s a ∷ []

-- `{ blockquote: true }` if the line stands in a quotation, and `{}` if not.
abbrev pub quote_of : Attributes → Attributes
quote_of a = record no_attributes { blockquote = a.blockquote }

unfoldable pub or_else {ℓ} : {A : Type ℓ} → Option A → Option A → Option A
or_else none d = d
or_else (some x) d = some x

-- `{ ...older, ...newer }`: a key of `newer` wins.
unfoldable pub merge : Attributes → Attributes → Attributes
unfolding or_else
merge older newer = record {
  bold = newer.bold || older.bold;
  italic = newer.italic || older.italic;
  code = newer.code || older.code;
  blockquote = newer.blockquote || older.blockquote;
  link = or_else newer.link older.link;
  header = or_else newer.header older.header;
  list = or_else newer.list older.list;
  code_block = or_else newer.code_block older.code_block;
  alt = or_else newer.alt older.alt;
}

-- `{ ...lastOp.attributes, ...attributes }`
unfoldable pub merge_onto : Option Attributes → Attributes → Attributes
unfolding merge
merge_onto none a = a
merge_onto (some older) a = merge older a

abbrev pub merge_op : Op → Attributes → Op
merge_op op a = record op { attributes = some (merge_onto op.attributes a) }

unfoldable pub is_newline : Insert → Bool
unfolding text_eq
is_newline (Insert.text s) = text_eq s (newline ∷ [])
is_newline _ = false

-- The end of a list item: its attributes go onto the last operation, if that is a line break, or
-- onto a line break of its own.
unfoldable pub end_item : Delta → Attributes → Delta
unfolding is_newline merge_onto push_text
end_item [] a = op_of (newline ∷ []) a ∷ []
end_item (op ∷ []) a =
    if is_newline op.insert then merge_op op a ∷ [] else op ∷ op_of (newline ∷ []) a ∷ []
end_item (op ∷ next ∷ d) a = op ∷ end_item (next ∷ d) a

code_language : Option Language → Language
code_language none = flag
code_language (some (Language.named [])) = flag
code_language (some l) = l

-- The lines of a code block, each with its line break.
unfoldable pub push_lines : Delta → List Text → Attributes → Attributes → Delta
unfolding push_text
push_lines d [] in_text in_line = d
push_lines d (s ∷ ss) in_text in_line =
    push_lines (push_text (push_text d s in_text) (newline ∷ []) in_line) ss in_text in_line

unfoldable mutual
  unfolding push_text merge end_item push_lines code_language split

  pub traverse : Node → Delta → Attributes → Delta
  traverse (root ns) d a = traverse_all ns d no_attributes
  traverse (paragraph ns) d a = push_text (traverse_all ns d a) (newline ∷ []) (quote_of a)
  traverse (heading depth ns) d a =
      push_text (traverse_all ns d (record a { header = some depth })) (newline ∷ [])
        (record no_attributes { blockquote = a.blockquote; header = some depth })
  traverse (text s) d a = push_text d s a
  traverse (strong ns) d a = traverse_all ns d (record a { bold = true })
  traverse (emphasis ns) d a = traverse_all ns d (record a { italic = true })
  traverse (link url ns) d a = traverse_all ns d (record a { link = some url })
  traverse (image url title alt) d a =
      d
      ++ record {
        insert = Insert.image url;
        attributes = some (record no_attributes { alt = some alt });
      }
        ∷ []
  traverse (list o ns) d a =
      traverse_all ns d (record a { list = some (if o then ordered else bullet) })
  traverse (list_item ns) d a = end_item (traverse_all ns d (record a { list = none })) a
  traverse (blockquote ns) d a = traverse_all ns d (record a { blockquote = true })
  traverse (code s l) d a =
      push_lines d (split newline s) (quote_of a)
        (record no_attributes { blockquote = a.blockquote; code_block = some (code_language l) })
  traverse (inline_code s) d a = push_text d s (record a { code = true })
  traverse break d a = d
  traverse (other_parent t ns) d a = traverse_all ns d a
  traverse (other_leaf t s) d a = if nonempty s then push_text d s a else d

  pub traverse_all : Nodes → Delta → Attributes → Delta
  traverse_all nil d a = d
  traverse_all (cons n ns) d a = traverse_all ns (traverse n d a) a

-- A tree without children gives the empty delta.
unfoldable pub convert_children : Option Nodes → Delta
unfolding traverse
convert_children none = []
convert_children (some ns) = traverse_all ns [] no_attributes

unfoldable pub mdast_to_delta : Node → Delta
unfolding convert_children
mdast_to_delta tree = convert_children (children_of tree)
