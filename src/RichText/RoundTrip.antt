-- ===== src/RichText/RoundTrip.antt =====
-- mdastToDelta and then deltaToMdast, on documents of paragraphs and headings.
use sqlpage.Prelude.{
  ◌≡◌, refl, ap, ◌∙◌, sym, Option, none, some, List, [], ◌∷◌, ◌++◌, map, Text, newline, Excludes,
  append_assoc, append-nil, All, split-of_not_includes, ◌≢◌, ℕ, suc, includes, includes-append,
}
use sqlpage.RichText.Delta.{Attributes, no_attributes, Delta}
use sqlpage.RichText.Mdast.{Node, Nodes, paragraph, heading, text, nil, cons, ◌+++◌, single}
use sqlpage.RichText.LineBreak.{
  process_line_break, break_filled_line, filled_line_with, process_header_line_break,
}
use sqlpage.RichText.LineBreak.TextNodes.{create_text_nodes-formatted, formatted}
use sqlpage.RichText.ToMdast.{
  State, start, add_nodes, break_line, add_text, step, run, finish, delta_children,
}
use sqlpage.RichText.ToMdast.Repeats.{insert_text-line, insert_text-newline}
use sqlpage.RichText.ToDelta.{op_of, mdast_to_delta, convert_children}
use sqlpage.RichText.Blocks.{
  Piece, para, head, Block, IsSimple, IsLine, normal, piece_node, piece_nodes, pieces_all, contents,
  tree, piece_op, level, line_ops, block_ops, ops, traverse_all-blocks, pieces_all-IsLine,
  contents-pieces_all,
}

-- The state between two blocks.
abbrev between : List Node → State
between cs = record {
  children = cs;
  current_paragraph = none;
  current_list = none;
  text_buffer = [];
}

-- The state within a paragraph.
abbrev within : List Node → Option Nodes → Text → State
within cs q buffer = record {
  children = cs;
  current_paragraph = q;
  current_list = none;
  text_buffer = buffer;
}

step-op :
    (s : State) (t : Text) (a : Attributes)
    → Excludes newline t
    → step s (op_of t a) ≡ record s {
      current_paragraph = add_nodes s.current_paragraph (single (formatted a t));
      text_buffer = s.text_buffer ++ t;
    }
unfolding step
step-op s t a x =
    insert_text-line s t a x ∙ (unfold add_text in rw (create_text_nodes-formatted t a x))

nodes_nil : (ns : Nodes) → ns +++ nil ≡ ns
nodes_nil nil = refl
nodes_nil (cons n ns) = ap (cons n) (nodes_nil ns)

nodes_assoc : (ns : Nodes) (n : Node) (ms : Nodes) → (ns +++ single n) +++ ms ≡ ns +++ cons n ms
nodes_assoc nil n ms = refl
nodes_assoc (cons m ns) n ms = ap (cons m) (nodes_assoc ns n ms)

run-pieces :
    (cs : List Node) (ns : Nodes) (buffer : Text) (ps : List Piece) (d : Delta)
    → All IsLine ps
    → run (within cs (some ns) buffer) (map piece_op ps ++ d)
      ≡ run (within cs (some (ns +++ piece_nodes ps)) (buffer ++ contents ps)) d
unfolding run
run-pieces cs ns buffer [] d h = rw (nodes_nil ns, append-nil buffer)
run-pieces cs ns buffer (p ∷ ps) d (x, h) =
    ap (λ s. run s (map piece_op ps ++ d))
      (step-op (within cs (some ns) buffer) p.content p.marks x)
    ∙ run-pieces cs (ns +++ single (piece_node p)) (buffer ++ p.content) ps d h
    ∙ rw (nodes_assoc ns (piece_node p) (piece_nodes ps), append_assoc buffer)

-- The pieces of a line, of which there is one, on a state between two blocks.
run-line :
    (cs : List Node) (p : Piece) (ps : List Piece) (a : Attributes) (d : Delta)
    → All IsLine (p ∷ ps)
    → run (between cs) (line_ops (p ∷ ps) a ++ d)
      ≡ run (break_line (within cs (some (piece_nodes (p ∷ ps))) (contents (p ∷ ps))) a) d
unfolding run
run-line cs p ps a d (x, h) =
    ap (λ o. run (between cs) (piece_op p ∷ o))
      (append_assoc (map piece_op ps) (op_of (newline ∷ []) a ∷ []) d)
    ∙ ap (λ s. run s (map piece_op ps ++ op_of (newline ∷ []) a ∷ d))
        (step-op (between cs) p.content p.marks x)
    ∙ run-pieces cs (single (piece_node p)) p.content ps (op_of (newline ∷ []) a ∷ d) h
    ∙ ap (λ s. run s d)
        (insert_text-newline (within cs (some (piece_nodes (p ∷ ps))) (contents (p ∷ ps))) a)

run-para :
    (cs : List Node) (ps : List Piece) (d : Delta)
    → All IsLine ps
    → contents ps ≢ []
    → run (between cs) (line_ops ps no_attributes ++ d)
      ≡ run (between (cs ++ paragraph (piece_nodes ps) ∷ [])) d
run-para cs [] d h ne = absurd (ne refl)
run-para cs (p ∷ ps) d h ne =
    run-line cs p ps no_attributes d h
    ∙ ap (λ s. run s d)
        (unfold break_line process_line_break break_filled_line filled_line_with in refl)

run-head :
    (cs : List Node) (k : ℕ) (ps : List Piece) (d : Delta)
    → All IsLine ps
    → contents ps ≢ []
    → Excludes newline (contents ps)
    → run (between cs) (line_ops ps (level k) ++ d)
      ≡ run (between (cs ++ heading (suc k) (single (text (contents ps))) ∷ [])) d
run-head cs k [] d h ne x = absurd (ne refl)
run-head cs k (p ∷ ps) d h ne x =
    run-line cs p ps (level k) d h
    ∙ ap (λ s. run s d)
        (unfold break_line process_line_break break_filled_line filled_line_with
            process_header_line_break in
          rw (split-of_not_includes newline (contents (p ∷ ps)) x))

contents-Excludes : (ps : List Piece) → All IsLine ps → Excludes newline (contents ps)
unfolding includes
contents-Excludes [] h = refl
contents-Excludes (p ∷ ps) (x, h) =
    rw (includes-append newline p.content (contents ps), x, contents-Excludes ps h)

run-block :
    (cs : List Node) (b : Block) (d : Delta)
    → IsSimple b
    → run (between cs) (block_ops b ++ d) ≡ run (between (cs ++ normal b ∷ [])) d
run-block cs (para ns) d (h, ne) =
    run-para cs (pieces_all ns no_attributes) d (pieces_all-IsLine ns no_attributes h)
      (λ e. ne (sym (contents-pieces_all ns no_attributes h) ∙ e))
run-block cs (head k ns) d (h, ne) =
    let lines = pieces_all-IsLine ns (level k) h in
    let text_is = contents-pieces_all ns (level k) h in
    run-head cs k (pieces_all ns (level k)) d lines (λ e. ne (sym text_is ∙ e))
      (contents-Excludes (pieces_all ns (level k)) lines)
    ∙ ap (λ t. run (between (cs ++ heading (suc k) (single (text t)) ∷ [])) d) text_is

run-blocks :
    (cs : List Node) (bs : List Block)
    → All IsSimple bs
    → finish (run (between cs) (ops bs)) ≡ cs ++ map normal bs
run-blocks cs [] h = unfold run finish in sym (append-nil cs)
run-blocks cs (b ∷ bs) (i, h) =
    ap finish (run-block cs b (ops bs) i)
    ∙ run-blocks (cs ++ normal b ∷ []) bs h
    ∙ append_assoc cs (normal b ∷ []) (map normal bs)

-- mdastToDelta and then deltaToMdast give the normal form of a document of paragraphs and headings
-- that have a text which is not empty, in text nodes with no line break, under strong, emphasis and
-- link nodes of any nesting. In a paragraph each text node comes back, in order, under the same
-- marks, each once and nested as link, emphasis and strong, where of nested links the innermost
-- counts, and none if its target is empty; a heading comes back at its level with its whole text as
-- one node with no marks.
pub delta_children-mdast_to_delta :
    (bs : List Block) → All IsSimple bs → delta_children (mdast_to_delta (tree bs)) ≡ map normal bs
unfolding delta_children mdast_to_delta convert_children
delta_children-mdast_to_delta bs h =
    ap (λ d. finish (run start d)) (traverse_all-blocks bs [] h) ∙ run-blocks [] bs h
