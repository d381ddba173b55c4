-- ===== src/Editor/Tests.antt =====
-- Runs of the editors of examples/rich-text-editor/rich_text_editor.js, and the theorems at concrete
-- inputs.
use sqlpage.Prelude.{
  ◌≡◌, refl, ◌⊎◌, ◌&&◌, not, Bool, true, false, Option, none, some, List, [], ◌∷◌, ◌++◌, Text,
  codes, newline, nonempty, get_or_else, All, map, concat, strip, append-nil, if◌then◌else◌,
}
use sqlpage.RichText.Delta.{
  Delta, Insert, no_attributes, delta_text, active_number, active_language, active_text,
}
use sqlpage.RichText.ToMdast.Lines.{IsPlainOp, filled_lines}
use sqlpage.RichText.Mdast.{
  Node, Nodes, root, paragraph, heading, text, cons, single, of_list, text_of, texts_of,
}
use sqlpage.RichText.ToDelta.{op_of, mdast_to_delta}
use sqlpage.Editor.{
  Textarea, Editor, Field, Event, changed, submit_clicked, setup_single_editor, delta_to_markdown,
  is_valid, handle, handle_all,
}
use sqlpage.Editor.Submit.{IsFilled, IsGuarded, handle_all-IsGuarded, handle-submit_clicked}
use sqlpage.Editor.Setup.{handle_all-setup_single_editor}
use sqlpage.Editor.Unedited.{handle-unedited}

abbrev parse : Text → Option Node
parse t = some (root (single (heading 1 (single (text (codes "hi"))))))

abbrev print : Node → Text
print n = text_of n

abbrev empty_line : Delta
empty_line = op_of (newline ∷ []) no_attributes ∷ []

abbrev start_quill : Bool → Option Delta → Option Delta
start_quill read_only initial = some (get_or_else initial empty_line)

abbrev no_quill : Bool → Option Delta → Option Delta
no_quill read_only initial = none

abbrev plain : Text → Bool → Textarea
plain value required = record {
  value = value;
  required = required;
  read_only = false;
  disabled = false;
  quill_initialized = false;
  shrunk = false;
  display = [];
  custom_error = false;
}

abbrev field_of : Textarea → Option Editor → Field
field_of t e = record {
  textarea = t;
  in_label = true;
  in_form = true;
  before = [];
  after = [];
  behind_label = [];
  editor = e;
  on_form = true;
  sent = [];
}

abbrev empty_field : Field
empty_field = field_of (plain [] true) none

abbrev filled_field : Field
filled_field = field_of (plain (codes "# hi") true) none

abbrev typed : Delta
typed = op_of (codes "x") no_attributes ∷ op_of (newline ∷ []) no_attributes ∷ []

-- The user empties the text, tries to send the form, types again and sends it.
abbrev emptied : List Event
emptied =
    changed [] empty_line
    ∷ submit_clicked true false
    ∷ submit_clicked true false
    ∷ changed typed typed
    ∷ submit_clicked true false
    ∷ []

abbrev edited_field : Field
edited_field =
    field_of (plain (codes "# hi") true) (some (record { contents = typed; waiting = 0 }))

sent-emptied : (handle_all print edited_field emptied).sent ≡ some (codes "x") ∷ []
unfolding handle_all sqlpage.RichText.ToMdast.delta_to_mdast sqlpage.RichText.ToMdast.delta_children
    text_of
sent-emptied = refl

handle_all-setup_single_editor_example :
    (handle_all print
      (setup_single_editor parse start_quill empty_field).0
      (changed typed typed ∷ submit_clicked true false ∷ [])).sent
    ≡ []
handle_all-setup_single_editor_example =
    handle_all-setup_single_editor parse start_quill print empty_field
      (changed typed typed ∷ submit_clicked true false ∷ []) refl refl refl refl refl

edited_field-IsGuarded : IsGuarded edited_field
edited_field-IsGuarded = record {
  required = refl;
  listens = refl;
  has_editor = (_, refl);
  filled = tt;
}

handle_all-IsGuarded_example : All IsFilled (handle_all print edited_field emptied).sent
handle_all-IsGuarded_example =
    handle_all-IsGuarded print edited_field emptied edited_field-IsGuarded

handle-submit_clicked_example :
    ((handle print edited_field (submit_clicked true false)).sent ≡ [])
    ⊎ (((handle print edited_field (submit_clicked true false)).sent
          ≡ [] ++ (if false then none else some (delta_to_markdown print typed)) ∷ [])
        × (true && not (nonempty (delta_to_markdown print typed)) ≡ false))
handle-submit_clicked_example =
    handle-submit_clicked print edited_field (record { contents = typed; waiting = 0 }) true false
      refl refl

-- Two paragraphs, which Quill holds as one operation.
abbrev two_paragraphs : Nodes
two_paragraphs =
    cons (paragraph (single (text (codes "hi")))) (single (paragraph (single (text (codes "yo")))))

abbrev parse_two : Text → Option Node
parse_two t = some (root two_paragraphs)

abbrev merged : Delta → Delta
merged d = record { insert = Insert.text (delta_text d); attributes = none } ∷ []

abbrev merge_quill : Bool → Option Delta → Option Delta
merge_quill read_only initial = some (merged (get_or_else initial []))

merged-IsPlainOp : All IsPlainOp (merged (mdast_to_delta (root two_paragraphs)))
unfolding mdast_to_delta active_number active_language active_text
merged-IsPlainOp =
    (((λ e. cc), record { no_header = refl; no_code = refl; no_list = refl; no_quote = refl }), tt)

handle-unedited_example :
    (cs : List Node) × (map text_of cs
      ≡ filled_lines (delta_text (mdast_to_delta (root two_paragraphs))))
    × (concat (map text_of cs) ≡ strip newline (texts_of two_paragraphs))
    × ((handle print
          (setup_single_editor parse_two merge_quill filled_field).0
          (submit_clicked true false)).sent
        ≡ [] ++ (if false then none else some (print (root (of_list cs)))) ∷ [])
handle-unedited_example =
    handle-unedited parse_two print merge_quill filled_field (root two_paragraphs) two_paragraphs
      (merged (mdast_to_delta (root two_paragraphs))) refl refl refl refl merged-IsPlainOp
      (append-nil _) refl refl (unfold is_valid in refl)
      (unfold delta_to_markdown text_of sqlpage.RichText.ToMdast.delta_to_mdast
          sqlpage.RichText.ToMdast.delta_children mdast_to_delta in
        refl)
