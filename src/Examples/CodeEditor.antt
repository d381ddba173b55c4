-- ===== src/Examples/CodeEditor.antt =====
-- examples/SQLPage developer user interface/website/js/code-editor.js: the text area of a form whose
-- contents are edited in a Monaco editor. The page goes through the loading of Monaco, and the
-- listener of the form's submission copies the editor's contents into the text area.
pub mod Shown
mod Tests
use sqlpage.Prelude.{ℕ, suc, ◌≡◌, Bool, true, false, Option, none, some, List, [], ◌∷◌, ◌++◌, Text}

-- How far Monaco is: the loader's script is on its way, the editor's module is, or the editor is there.
pub data Loading : Type 0 where
  loader_added : Loading
  module_required : Loading
  started : Loading

-- The value of the text area, whether it is hidden, the contents of the editor, whether the form has
-- the listener, and what it sent.
pub record CodePage : Type 0 where
  pub loading : Loading
  pub value : Text
  pub hidden : Bool
  pub editor : Option Text
  pub has_listener : Bool
  pub sent : List Text

-- The script: it adds the loader.
abbrev pub code_page : Text → CodePage
code_page value = record {
  loading = loader_added;
  value = value;
  hidden = false;
  editor = none;
  has_listener = false;
  sent = [];
}

unfoldable pub set_require_config : CodePage → CodePage
set_require_config p = record p { loading = module_required }

unfoldable pub on_monaco_load : CodePage → CodePage
on_monaco_load p = record p {
  loading = started;
  editor = some p.value;
  hidden = true;
  has_listener = true;
}

-- A change by the user: of the editor, or of the text area where it is not hidden.
unfoldable pub type_text : Text → Option Text → CodePage → CodePage
type_text t none p = record p { value = t }
type_text t (some contents) p = record p { editor = some t }

-- The listener of the submission.
unfoldable pub copy_contents : Bool → Option Text → CodePage → CodePage
copy_contents true (some contents) p = record p { value = contents }
copy_contents true none p = p
copy_contents false editor p = p

abbrev pub send_code : CodePage → CodePage
send_code p = record p { sent = p.sent ++ p.value ∷ [] }

unfoldable pub submit_code : CodePage → CodePage
unfolding copy_contents
submit_code p = send_code (copy_contents p.has_listener p.editor p)

pub data CodeStep (p : CodePage) : CodePage → Type 0 where
  loader_loaded : p.loading ≡ loader_added → CodeStep p (set_require_config p)
  module_loaded : p.loading ≡ module_required → CodeStep p (on_monaco_load p)
  typed : (t : Text) → CodeStep p (type_text t p.editor p)
  submitted : CodeStep p (submit_code p)

pub data Reachable (value : Text) : CodePage → Type 0 where
  at_start : Reachable value (code_page value)
  later : {p q : CodePage} → Reachable value p → CodeStep p q → Reachable value q
