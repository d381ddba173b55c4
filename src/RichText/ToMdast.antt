-- ===== src/RichText/ToMdast.antt =====
-- deltaToMdast of examples/rich-text-editor/rich_text_editor.js: the loop over the operations.
pub mod Shape
pub mod Repeats
pub mod Lines
pub mod Plain
use sqlpage.Prelude.{
  ℕ, not, ◌&&◌, Option, none, some, List, [], ◌∷◌, ◌++◌, Text, newline, nonempty, split, includes,
  text_eq, if◌then◌else◌, get_or_else,
}
use sqlpage.RichText.Delta.{Attributes, no_attributes, Insert, Op, Delta}
use sqlpage.RichText.Mdast.{Node, Nodes, root, paragraph, image, nil, ◌+++◌, single, of_list}
use sqlpage.RichText.LineBreak.{create_text_nodes, process_line_break}

-- The variables of the loop.
pub record State : Type 0 where
  pub children : List Node
  pub current_paragraph : Option Nodes
  pub current_list : Option ℕ
  pub text_buffer : Text

abbrev pub start : State
start = record { children = []; current_paragraph = none; current_list = none; text_buffer = [] }

-- Creates the paragraph if there is none, and adds nodes to it.
abbrev pub add_nodes : Option Nodes → Nodes → Option Nodes
add_nodes p ns = some (get_or_else p nil +++ ns)

unfoldable pub create_image_node : Text → Option Attributes → Node
create_image_node url none = image url [] []
create_image_node url (some a) = image url (get_or_else a.alt []) (get_or_else a.alt [])

unfoldable pub break_line : State → Attributes → State
unfolding process_line_break
break_line s a =
    let next = process_line_break s.children s.current_paragraph a s.text_buffer s.current_list in
    record { children = next.0; current_paragraph = none; current_list = next.1; text_buffer = [] }

-- A line within a longer text: it replaces the buffer.
unfoldable pub add_line : State → Text → Attributes → State
unfolding create_text_nodes
add_line s line a =
    if nonempty line
    then record s {
      current_paragraph = add_nodes s.current_paragraph (create_text_nodes line a);
      text_buffer = line;
    }
    else s

-- All lines but the last end with a line break.
unfoldable pub add_lines : State → List Text → Attributes → State
unfolding break_line add_line
add_lines s [] a = s
add_lines s (line ∷ []) a = add_line s line a
add_lines s (line ∷ next ∷ lines) a = add_lines (break_line (add_line s line a) a) (next ∷ lines) a

-- Text with no line break in it is added to the buffer.
unfoldable pub add_text : State → Text → Attributes → State
unfolding create_text_nodes
add_text s t a = record s {
  current_paragraph = add_nodes s.current_paragraph (create_text_nodes t a);
  text_buffer = s.text_buffer ++ t;
}

unfoldable pub insert_text : State → Text → Attributes → State
unfolding add_lines add_text break_line split includes text_eq
insert_text s t a =
    if includes newline t && not (text_eq t (newline ∷ []))
    then add_lines s (split newline t) a
    else if text_eq t (newline ∷ [])
    then break_line s a
    else add_text s t a

unfoldable pub step : State → Op → State
unfolding insert_text create_image_node
step s op = elim op.insert [
  | Insert.text t ↦ insert_text s t (get_or_else op.attributes no_attributes)
  | Insert.image url ↦
      if nonempty url
      then record s {
        current_paragraph =
            add_nodes s.current_paragraph (single (create_image_node url op.attributes));
      }
      else s
  | Insert.embed ↦ s
  | Insert.missing ↦ s
]

unfoldable pub run : State → Delta → State
unfolding step
run s [] = s
run s (op ∷ ops) = run (step s op) ops

unfoldable pub finish : State → List Node
finish s = elim s.current_paragraph [
  | none ↦ s.children
  | some ns ↦ s.children ++ paragraph ns ∷ []
]

unfoldable pub delta_children : Delta → List Node
unfolding run finish
delta_children d = finish (run start d)

unfoldable pub delta_to_mdast : Delta → Node
unfolding delta_children
delta_to_mdast d = root (of_list (delta_children d))
