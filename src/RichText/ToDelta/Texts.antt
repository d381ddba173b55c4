-- ===== src/RichText/ToDelta/Texts.antt =====
-- What mdastToDelta keeps of the text of a tree.
use sqlpage.Prelude.{
  ◌≡◌, refl, ap, ◌∙◌, sym, some, List, [], ◌∷◌, ◌++◌, Text, newline, split, strip, strip-append,
  concat, concat-split, split-Excludes, strip-of_Excludes, All, Excludes, append_assoc, append-nil,
  inl, inr, Bool-cases,
}
use sqlpage.RichText.Delta.{Attributes, no_attributes, Insert, Delta, delta_text, delta_text-append}
use sqlpage.RichText.Mdast.{
  Node, Nodes, root, paragraph, heading, text, break, strong, emphasis, link, image, list,
  list_item, blockquote, code, inline_code, other_parent, other_leaf, nil, cons, text_of, texts_of,
  children_of,
}
use sqlpage.RichText.ToDelta.{
  push_text, end_item, op_of, is_newline, convert_children, push_lines, traverse, traverse_all,
  mdast_to_delta,
}

-- The text of a delta without its line breaks.
unfoldable pub shown : Delta → Text
shown d = strip newline (delta_text d)

shown-append : (d e : Delta) → shown (d ++ e) ≡ shown d ++ shown e
unfolding shown
shown-append d e = rw (delta_text-append, strip-append)

shown-op : (s : Text) (a : Attributes) → shown (op_of s a ∷ []) ≡ strip newline s
unfolding shown
shown-op s a = rw append-nil

shown-snoc :
    (d : Delta) (s : Text) (a : Attributes) → shown (push_text d s a) ≡ shown d ++ strip newline s
unfolding push_text
shown-snoc d s a = rw (shown-append, shown-op)

strip-newline : strip newline (newline ∷ []) ≡ []
unfolding strip
strip-newline = refl

strip-nil : strip newline [] ≡ []
unfolding strip
strip-nil = refl

shown-newline : (d : Delta) (a : Attributes) → shown (push_text d (newline ∷ []) a) ≡ shown d
shown-newline d a = shown-snoc d (newline ∷ []) a ∙ rw (strip-newline, append-nil)

shown-keep : (d : Delta) → shown d ≡ shown d ++ strip newline []
shown-keep d = rw (strip-nil, append-nil)

shown-image :
    (d : Delta) (url alt : Text)
    → shown (
        d
        ++ record {
          insert = Insert.image url;
          attributes = some (record no_attributes { alt = some alt });
        }
          ∷ [])
      ≡ shown d ++ strip newline []
unfolding shown
shown-image d url alt = rw (delta_text-append, strip-append)

shown-end_item : (d : Delta) (a : Attributes) → shown (end_item d a) ≡ shown d
unfolding end_item
shown-end_item [] a = shown-op _ a ∙ strip-newline ∙ (unfold shown strip in refl)
shown-end_item (op ∷ []) a = elim (Bool-cases (is_newline op.insert)) [
  | inl line ↦ rw line (unfold shown in refl)
  | inr other ↦ rw other (
      shown-append (op ∷ []) (op_of (newline ∷ []) a ∷ [])
      ∙ rw (shown-op (newline ∷ []) a, strip-newline, append-nil))
]
shown-end_item (op ∷ next ∷ d) a =
    shown-append (op ∷ []) (end_item (next ∷ d) a)
    ∙ ap (shown (op ∷ []) ++◌) (shown-end_item (next ∷ d) a)
    ∙ sym (shown-append (op ∷ []) (next ∷ d))

shown-push_lines :
    (d : Delta) (ss : List Text) (a b : Attributes)
    → All (Excludes newline) ss
    → shown (push_lines d ss a b) ≡ shown d ++ concat ss
unfolding push_lines
shown-push_lines d [] a b h = sym (append-nil _)
shown-push_lines d (s ∷ ss) a b (x, h) =
    shown-push_lines _ ss a b h
    ∙ rw (shown-newline, shown-snoc, strip-of_Excludes newline s x, append_assoc)

mutual
  unfolding traverse text_of

  shown-traverse :
      (n : Node) (d : Delta) (a : Attributes)
      → shown (traverse n d a) ≡ shown d ++ strip newline (text_of n)
  shown-traverse (root ns) d a = shown-traverse_all ns d no_attributes
  shown-traverse (paragraph ns) d a = shown-newline _ _ ∙ shown-traverse_all ns d a
  shown-traverse (heading depth ns) d a = shown-newline _ _ ∙ shown-traverse_all ns d _
  shown-traverse (text s) d a = shown-snoc d s a
  shown-traverse (strong ns) d a = shown-traverse_all ns d _
  shown-traverse (emphasis ns) d a = shown-traverse_all ns d _
  shown-traverse (link url ns) d a = shown-traverse_all ns d _
  shown-traverse (image url title alt) d a = shown-image d url alt
  shown-traverse (list o ns) d a = shown-traverse_all ns d _
  shown-traverse (list_item ns) d a = shown-end_item _ a ∙ shown-traverse_all ns d _
  shown-traverse (blockquote ns) d a = shown-traverse_all ns d _
  shown-traverse (code s l) d a =
      shown-push_lines d (split newline s) _ _ (split-Excludes newline s) ∙ rw concat-split
  shown-traverse (inline_code s) d a = shown-snoc d s _
  shown-traverse break d a = shown-keep d
  shown-traverse (other_parent t ns) d a = shown-traverse_all ns d a
  shown-traverse (other_leaf t []) d a = shown-keep d
  shown-traverse (other_leaf t (c ∷ s)) d a = shown-snoc d (c ∷ s) a

  shown-traverse_all :
      (ns : Nodes) (d : Delta) (a : Attributes)
      → shown (traverse_all ns d a) ≡ shown d ++ strip newline (texts_of ns)
  shown-traverse_all nil d a = shown-keep d
  shown-traverse_all (cons n ns) d a =
      shown-traverse_all ns (traverse n d a) a
      ∙ rw (shown-traverse n d a, strip-append, append_assoc)

-- No text of a tree is lost, added or moved: apart from line breaks, the delta inserts the texts of
-- the tree's nodes, in order, whatever the tree's shape.
pub shown-mdast_to_delta :
    (tree : Node) (ns : Nodes)
    → children_of tree ≡ some ns
    → shown (mdast_to_delta tree) ≡ strip newline (texts_of ns)
unfolding mdast_to_delta convert_children
shown-mdast_to_delta tree ns e =
    rw e (shown-traverse_all ns [] no_attributes ∙ (unfold shown strip in refl))
