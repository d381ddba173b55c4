-- ===== src/Editor.antt =====
-- The editors that examples/rich-text-editor/rich_text_editor.js puts in place of text areas: their
-- set-up, and what happens to a text area when its form is submitted. The library's parsing and
-- printing of Markdown (`none` where the parser throws) and Quill are parameters. `new_quill` gives
-- the contents of an editor that is made read-only or not, with the contents that are set, if there
-- are any; it is `none` where Quill throws.
pub mod Setup
pub mod Submit
pub mod Unedited
mod Tests
use sqlpage.Prelude.{
  ℕ, zero, suc, ◌+◌, Bool, true, false, not, ◌&&◌, ◌||◌, Option, none, some, List, [], ◌∷◌, ◌++◌,
  if◌then◌else◌, ltb, Text, nonempty,
}
use sqlpage.RichText.Delta.{Insert, Op, Delta}
use sqlpage.RichText.Mdast.{Node}
use sqlpage.RichText.ToMdast.{delta_to_mdast}
use sqlpage.RichText.ToDelta.{mdast_to_delta}

-- What the page shows beside a text area.
pub data Element : Type 0 where
  editor_div : Element
  error_message : Element

-- A text area: `shrunk` is the style that hides it, `custom_error` a message of setCustomValidity.
pub record Textarea : Type 0 where
  pub value : Text
  pub required : Bool
  pub read_only : Bool
  pub disabled : Bool
  pub quill_initialized : Bool
  pub shrunk : Bool
  pub display : Text
  pub custom_error : Bool

-- A Quill instance, with the number of its listeners that wait for one change of the text.
pub record Editor : Type 0 where
  pub contents : Delta
  pub waiting : ℕ

-- A text area on the page: what stands before it and after it, and behind the label that it is in,
-- and its editor. `on_form` says that the form has the submit listener, `sent` lists the values that
-- the form has sent, where a disabled text area sends none.
pub record Field : Type 0 where
  pub textarea : Textarea
  pub in_label : Bool
  pub in_form : Bool
  pub before : List Element
  pub after : List Element
  pub behind_label : List Element
  pub editor : Option Editor
  pub on_form : Bool
  pub sent : List (Option Text)

-- The page: the style sheets that were added, and its text areas.
pub record Page : Type 0 where
  pub stylesheets : ℕ
  pub fields : List Field

-- Puts the editor's element on the page, and hides the text area.
unfoldable pub create_and_replace_textarea : Field → Field
create_and_replace_textarea f = record f {
  before = if f.in_label then f.before else f.before ++ editor_div ∷ [];
  behind_label = if f.in_label then editor_div ∷ f.behind_label else f.behind_label;
  textarea = record f.textarea { shrunk = true; display = [] };
}

unfoldable pub handle_editor_init_error : Field → Field
handle_editor_init_error f = record f {
  textarea = record f.textarea { display = [] };
  after = error_message ∷ f.after;
}

module _ (from_markdown : Text → Option Node) where
  unfoldable pub tree_to_delta : Text → Option Node → Delta
  tree_to_delta markdown none = record { insert = Insert.text markdown; attributes = none } ∷ []
  tree_to_delta markdown (some tree) = mdast_to_delta tree

  unfoldable pub markdown_to_delta : Text → Delta
  unfolding tree_to_delta
  markdown_to_delta markdown = tree_to_delta markdown (from_markdown markdown)

-- The end of the set-up, with the new editor's contents.
unfoldable pub finish_setup : Field → Option Delta → Field × Bool
unfolding handle_editor_init_error
finish_setup f none = (handle_editor_init_error f, false)
finish_setup f (some contents) = (
  record f {
    editor = some (record { contents = contents; waiting = 0 });
    on_form = f.in_form;
    textarea = record f.textarea { quill_initialized = true };
  },
  true,
)

module _ (from_markdown : Text → Option Node) (new_quill : Bool → Option Delta → Option Delta) where
  unfoldable pub initialize_quill_editor : Text → Bool → Option Delta
  unfolding markdown_to_delta
  initialize_quill_editor value read_only =
      new_quill read_only
        (if nonempty value then some (markdown_to_delta from_markdown value) else none)

  unfoldable pub setup_single_editor : Field → Field × Bool
  unfolding create_and_replace_textarea initialize_quill_editor finish_setup
  setup_single_editor f =
      if f.textarea.quill_initialized
      then (f, false)
      else finish_setup (create_and_replace_textarea f)
          (initialize_quill_editor f.textarea.value (f.textarea.read_only || f.textarea.disabled))

  -- The loop over the text areas, with `initializedCount`.
  unfoldable pub setup_editors : List Field → List Field × ℕ
  setup_editors [] = ([], 0)
  setup_editors (f ∷ fs) =
      let (g, done) = setup_single_editor f in
      let (gs, n) = setup_editors fs in (g ∷ gs, (if done then suc n else n))

  unfoldable pub initialize_editors : Page → Page × ℕ
  unfolding setup_editors
  initialize_editors p =
      let (fields, n) = setup_editors p.fields in
      (record { stylesheets = suc p.stylesheets; fields = fields }, n)

-- What the user does: a change of the text, as Quill reports it and with the contents after it, and
-- a click on the form's button, with whether the form's other fields are valid and whether another
-- listener cancels the submission, as that of another editor of the form does.
pub data Event : Type 0 where
  changed : (change contents : Delta) → Event
  submit_clicked : (others_valid cancelled : Bool) → Event

-- The browser's validation of a text area, which a text area that is read-only or disabled skips.
unfoldable pub is_valid : Textarea → Bool
is_valid t =
    (t.read_only || t.disabled)
    || (not (t.required && not (nonempty t.value)) && not t.custom_error)

-- What the form sends for a text area.
abbrev pub sent_value : Textarea → Option Text
sent_value t = if t.disabled then none else some t.value

module _ (to_markdown : Node → Text) where
  unfoldable pub delta_to_markdown : Delta → Text
  delta_to_markdown delta = to_markdown (delta_to_mdast delta)

  -- The listeners that wait for a change of the text, each of which does the same.
  unfoldable pub on_text_change : Delta → Delta → Field → Editor → Field
  unfolding delta_to_markdown
  on_text_change change contents f e =
      if ltb 0 e.waiting
      then record f {
        editor = some (record { contents = contents; waiting = 0 });
        textarea = record f.textarea { value = delta_to_markdown change; custom_error = false };
      }
      else record f { editor = some (record e { contents = contents }) }

  -- The submit listener: the field afterwards, and whether the form is not sent.
  unfoldable pub on_submit : Field → Editor → Field × Bool
  unfolding delta_to_markdown
  on_submit f e =
      let markdown_content = delta_to_markdown e.contents in
      if f.textarea.required && not (nonempty markdown_content)
      then (
        record f {
          editor = some (record e { waiting = suc e.waiting });
          textarea = record f.textarea { value = markdown_content; custom_error = true };
        },
        true,
      )
      else (record f { textarea = record f.textarea { value = markdown_content } }, false)

  abbrev pub send : Bool → Field × Bool → Field
  send true (f, prevented) = f
  send false (f, true) = f
  send false (f, false) = record f { sent = f.sent ++ sent_value f.textarea ∷ [] }

  -- Without the listener, the form is sent as it is, if no other one cancels it.
  unfoldable pub submit_form : Bool → Field → Bool → Option Editor → Field
  unfolding on_submit
  submit_form cancelled f false e = send cancelled (f, false)
  submit_form cancelled f true none = send cancelled (f, false)
  submit_form cancelled f true (some e) = send cancelled (on_submit f e)

  unfoldable pub change_text : Delta → Delta → Field → Option Editor → Field
  unfolding on_text_change
  change_text change contents f none = f
  change_text change contents f (some e) = on_text_change change contents f e

  unfoldable pub handle : Field → Event → Field
  unfolding change_text submit_form is_valid
  handle f (changed change contents) = change_text change contents f f.editor
  handle f (submit_clicked others_valid cancelled) =
      if is_valid f.textarea && others_valid then submit_form cancelled f f.on_form f.editor else f

  unfoldable pub handle_all : Field → List Event → Field
  unfolding handle
  handle_all f [] = f
  handle_all f (e ∷ es) = handle_all (handle f e) es
