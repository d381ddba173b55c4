-- ===== src/RichText/LineBreak/Repeats.antt =====
-- processListLineBreak on a paragraph that the list holds already.
use sqlpage.Prelude.{
  ℕ, ◌≡◌, refl, Bool, true, false, Option, some, List, [], Text, length, get_elem?,
  get_elem?-append-cons, arith,
}
use sqlpage.RichText.Mdast.{
  Node, Nodes, list, list_item, paragraph, nil, cons, ◌+++◌, single, same_nodes_iff,
}
use sqlpage.RichText.LineBreak.{
  is_list_of, list_index, is_ordered, ensure_list, any_node, holds_only, process_list_line_break,
}
use sqlpage.RichText.LineBreak.Items.{
  ItemBreak, skipped, extended, fresh, process_list_line_break-ItemBreak, items_at-known,
  get_elem?-push_item,
}

is_list_of_self : (o : Bool) (ns : Nodes) → is_list_of o (some (list o ns)) ≡ true
unfolding is_list_of
is_list_of_self true ns = refl
is_list_of_self false ns = refl

process_list_line_break-known :
    (cs : List Node) (content : Nodes) (t : Text) (i : ℕ) (ns : Nodes)
    → get_elem? cs i ≡ some (list (is_ordered t) ns)
    → any_node (holds_only content) ns ≡ true
    → process_list_line_break cs content t (some i) ≡ (cs, some i)
unfolding process_list_line_break ensure_list list_index
process_list_line_break-known cs content t i ns at known =
    rw (at, is_list_of_self (is_ordered t) ns, items_at-known cs i at, known)

any_node-+++ :
    (p : Node → Bool) (ns : Nodes) (n : Node) → p n ≡ true → any_node p (ns +++ single n) ≡ true
unfolding any_node
any_node-+++ p nil n h = rw h
any_node-+++ p (cons m ns) n h = ground (arith, any_node-+++ p ns n h)

holds_only_self :
    (content : Nodes) → holds_only content (list_item (single (paragraph content))) ≡ true
unfolding holds_only
holds_only_self content = (same_nodes_iff content content).1 refl

-- The list line that was just processed, processed again, changes nothing.
pub process_list_line_break-idempotent :
    (cs : List Node) (content : Nodes) (t : Text) (current : Option ℕ)
    → process_list_line_break
        (process_list_line_break cs content t current).0
        content
        t
        (process_list_line_break cs content t current).1
      ≡ process_list_line_break cs content t current
process_list_line_break-idempotent cs content t current =
    go (process_list_line_break cs content t current)
      (process_list_line_break-ItemBreak cs content t current)
  where
    go :
        (r : List Node × Option ℕ)
        → ItemBreak
            (is_ordered t)
            cs
            (any_node (holds_only content))
            (list_item (single (paragraph content)))
            r
        → process_list_line_break r.0 content t r.1 ≡ r
    go r (skipped ns i at known e) = rw e (process_list_line_break-known cs content t i ns at known)
    go r (extended ns i at new e) = rw e (
        process_list_line_break-known _ content t i _
          (get_elem?-push_item cs i (list_item (single (paragraph content))) at)
          (any_node-+++ (holds_only content) ns _ (holds_only_self content)))
    go r (fresh absent e) = rw e (
        process_list_line_break-known _ content t (length cs) _
          (get_elem?-append-cons cs []
            (list (is_ordered t) (single (list_item (single (paragraph content))))))
          (any_node-+++ (holds_only content) nil _ (holds_only_self content)))
