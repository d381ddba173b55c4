-- ===== src/Form/Listeners.antt =====
-- The listeners that sqlpage_form of sqlpage/sqlpage.js adds at each of its calls, to the file inputs
-- with a limit and to the forms that submit themselves.
pub mod Again
use sqlpage.Prelude.{ℕ, zero, suc, Option, List, map}
use sqlpage.Form.{FileInput, on_change}

-- A file input with its limit and the number of its listeners.
pub record LimitedInput : Type 0 where
  pub max_size : Option ℕ
  pub input : FileInput
  pub listeners : ℕ

-- A form with `data-auto-submit`, the number of its listeners, and how often `submit` was called.
pub record AutoForm : Type 0 where
  pub listeners : ℕ
  pub submissions : ℕ

pub record FormPage : Type 0 where
  pub file_inputs : List LimitedInput
  pub auto_submit_forms : List AutoForm

abbrev pub listen_to_input : LimitedInput → LimitedInput
listen_to_input i = record i { listeners = suc i.listeners }

abbrev pub listen_to_form : AutoForm → AutoForm
listen_to_form f = record f { listeners = suc f.listeners }

unfoldable pub sqlpage_form : FormPage → FormPage
sqlpage_form p = record {
  file_inputs = map listen_to_input p.file_inputs;
  auto_submit_forms = map listen_to_form p.auto_submit_forms;
}

-- What a number of listeners do, one after the other.
unfoldable pub run_listeners : {A : Type 0} → (A → A) → ℕ → A → A
run_listeners f zero a = a
run_listeners f (suc n) a = run_listeners f n (f a)

-- A change of a file input to files of the given sizes.
unfoldable pub change_input : List ℕ → LimitedInput → LimitedInput
unfolding run_listeners
change_input sizes i = record i {
  input = run_listeners (on_change i.max_size sizes) i.listeners i.input;
}

unfoldable pub submit : AutoForm → AutoForm
submit f = record f { submissions = suc f.submissions }

-- A change in a form.
unfoldable pub change_form : AutoForm → AutoForm
unfolding run_listeners submit
change_form f = run_listeners submit f.listeners f
