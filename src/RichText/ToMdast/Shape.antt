-- ===== src/RichText/ToMdast/Shape.antt =====
-- The shape of the tree, the open paragraph, the buffer and `currentList` in deltaToMdast's loop.
use sqlpage.Prelude.{
  ℕ, refl, ◌≢◌, Option, none, some, List, [], ◌∷◌, ◌++◌, newline, includes, split, Text, Excludes,
  split-Excludes, includes-append, All, Bool-cases, inl, inr, get_or_else, text_eq,
}
use sqlpage.RichText.Delta.{Attributes, no_attributes, Insert, Op, Delta}
use sqlpage.RichText.Mdast.{Node, Nodes, paragraph, nil, cons, ◌+++◌, single}
use sqlpage.RichText.Grammar.{IsInline, IsInlines, IsInlines-+++, IsDocument}
use sqlpage.RichText.LineBreak.{process_line_break, create_text_nodes}
use sqlpage.RichText.LineBreak.TextNodes.{create_text_nodes-IsInlines}
use sqlpage.RichText.LineBreak.Trees.{IsTree, IsDocument-snoc}
use sqlpage.RichText.LineBreak.Shape.{handle_empty_line-IsTree, break_filled_line-IsTree}
use sqlpage.RichText.ToMdast.{
  State, start, add_nodes, create_image_node, break_line, add_line, add_lines, add_text,
  insert_text, step, run, finish, delta_children,
}

-- The open paragraph is `null` or has inline content.
abbrev pub IsOpen : Option Nodes → Type 0
IsOpen none = Unit
IsOpen (some ns) = IsInlines ns × (ns ≢ nil)

pub record IsValid (s : State) : Type 0 where
  pub tree : IsTree s.children s.current_list
  pub open_line : IsOpen s.current_paragraph
  pub buffer : Excludes newline s.text_buffer

pub start-IsValid : IsValid start
unfolding includes
start-IsValid = record {
  tree = record { document = record { blocks = tt; lists = tt }; alias = tt };
  open_line = tt;
  buffer = refl;
}

process_line_break-IsTree :
    {cs : List Node} {current : Option ℕ} (p : Option Nodes) (a : Attributes) (buffer : Text)
    → IsTree cs current
    → IsOpen p
    → Excludes newline buffer
    → IsTree
        (process_line_break cs p a buffer current).0
        (process_line_break cs p a buffer current).1
unfolding process_line_break
process_line_break-IsTree none a buffer t o x = handle_empty_line-IsTree t a
process_line_break-IsTree (some ns) a buffer t (o, ne) x =
    break_filled_line-IsTree t ns a buffer o ne x

break_line-IsValid : (s : State) (a : Attributes) → IsValid s → IsValid (break_line s a)
unfolding break_line includes
break_line-IsValid s a v = record {
  tree = process_line_break-IsTree s.current_paragraph a s.text_buffer v.tree v.open_line v.buffer;
  open_line = tt;
  buffer = refl;
}

+++-ne-nil : (ns ms : Nodes) → ms ≢ nil → (ns +++ ms) ≢ nil
+++-ne-nil nil ms h = h
+++-ne-nil (cons n ns) ms h = λ e. cc

add_nodes-IsOpen :
    (p : Option Nodes) (ns : Nodes) → IsOpen p → IsInlines ns → ns ≢ nil → IsOpen (add_nodes p ns)
add_nodes-IsOpen none ns o h ne = (h, ne)
add_nodes-IsOpen (some ms) ns (o, _) h ne = (IsInlines-+++ ms ns o h, +++-ne-nil ms ns ne)

add_line-IsValid :
    (s : State) (line : Text) (a : Attributes)
    → Excludes newline line
    → IsValid s
    → IsValid (add_line s line a)
unfolding add_line
add_line-IsValid s [] a x v = v
add_line-IsValid s (c ∷ line) a x v =
    let (h, ne) = create_text_nodes-IsInlines (c ∷ line) a x in
    record {
      tree = v.tree;
      open_line =
          add_nodes-IsOpen s.current_paragraph (create_text_nodes (c ∷ line) a) v.open_line h ne;
      buffer = x;
    }

add_lines-IsValid :
    (s : State) (lines : List Text) (a : Attributes)
    → All (Excludes newline) lines
    → IsValid s
    → IsValid (add_lines s lines a)
unfolding add_lines
add_lines-IsValid s [] a h v = v
add_lines-IsValid s (line ∷ []) a (x, _) v = add_line-IsValid s line a x v
add_lines-IsValid s (line ∷ next ∷ lines) a (x, h) v =
    add_lines-IsValid (break_line (add_line s line a) a) (next ∷ lines) a h
      (break_line-IsValid _ a (add_line-IsValid s line a x v))

add_text-IsValid :
    (s : State) (t : Text) (a : Attributes)
    → Excludes newline t
    → IsValid s
    → IsValid (add_text s t a)
unfolding add_text
add_text-IsValid s t a x v =
    let (h, ne) = create_text_nodes-IsInlines t a x in
    record {
      tree = v.tree;
      open_line = add_nodes-IsOpen s.current_paragraph (create_text_nodes t a) v.open_line h ne;
      buffer = rw (includes-append, v.buffer) x;
    }

insert_text-IsValid :
    (s : State) (t : Text) (a : Attributes) → IsValid s → IsValid (insert_text s t a)
unfolding insert_text
insert_text-IsValid s t a v = elim (Bool-cases (text_eq t (newline ∷ []))) [
  | inl whole ↦ elim (Bool-cases (includes newline t)) [
    | inl some_line ↦ rw (some_line, whole) (break_line-IsValid s a v)
    | inr no_line ↦ rw (no_line, whole) (break_line-IsValid s a v)
  ]
  | inr not_whole ↦ elim (Bool-cases (includes newline t)) [
    | inl some_line ↦
        rw (some_line, not_whole)
          (add_lines-IsValid s (split newline t) a (split-Excludes newline t) v)
    | inr no_line ↦ rw (no_line, not_whole) (add_text-IsValid s t a no_line v)
  ]
]

image-IsInline :
    (url : Text) (a : Option Attributes) → url ≢ [] → IsInline (create_image_node url a)
unfolding IsInline create_image_node
image-IsInline url none ne = (ne, refl)
image-IsInline url (some a) ne = (ne, refl)

step-with-IsValid :
    (s : State) (i : Insert) (a : Option Attributes)
    → IsValid s
    → IsValid (step s (record { insert = i; attributes = a }))
unfolding step IsInline
step-with-IsValid s (Insert.text t) a v = insert_text-IsValid s t (get_or_else a no_attributes) v
step-with-IsValid s (Insert.image []) a v = v
step-with-IsValid s (Insert.image (c ∷ url)) a v = record {
  tree = v.tree;
  open_line =
      add_nodes-IsOpen s.current_paragraph (single (create_image_node (c ∷ url) a)) v.open_line
        (image-IsInline (c ∷ url) a (λ e. cc), tt) (λ e. cc);
  buffer = v.buffer;
}
step-with-IsValid s Insert.embed a v = v
step-with-IsValid s Insert.missing a v = v

-- Each operation of the delta keeps the state of the loop valid: the tree built so far is a
-- document, the open paragraph has inline content, the buffer holds no line break, and
-- `currentList` is null or an alias of a list of the tree.
pub step-IsValid : (s : State) (op : Op) → IsValid s → IsValid (step s op)
step-IsValid s op v = step-with-IsValid s op.insert op.attributes v

pub run-IsValid : (s : State) (d : Delta) → IsValid s → IsValid (run s d)
unfolding run
run-IsValid s [] v = v
run-IsValid s (op ∷ d) v = run-IsValid (step s op) d (step-IsValid s op v)

finish-IsDocument : (s : State) → IsValid s → IsDocument (finish s)
unfolding finish
finish-IsDocument s v = go s.current_paragraph v.open_line
  where
    go :
        (p : Option Nodes)
        → IsOpen p
        → IsDocument (elim p [ none ↦ s.children | some ns ↦ s.children ++ paragraph ns ∷ [] ])
    go none o = v.tree.document
    go (some ns) o = IsDocument-snoc (paragraph ns) refl o v.tree.document

-- Whatever the delta holds, the children of the tree are a document: every one is a well-formed
-- paragraph, heading, list, quotation or code block, and no list follows one of its own kind.
pub delta_children-IsDocument : (d : Delta) → IsDocument (delta_children d)
unfolding delta_children
delta_children-IsDocument d = finish-IsDocument (run start d) (run-IsValid start d start-IsValid)
