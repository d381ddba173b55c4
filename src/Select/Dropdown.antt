-- ===== src/Select/Dropdown.antt =====
-- The drop-downs of sqlpage/tomselect.js: sqlpage_select_dropdown and the reset of their forms. Tom
-- Select is an interface: its widgets T show a value V of the <select> that they stand for.
pub mod Synced
mod Tests
use sqlpage.Prelude.{
  ℕ, suc, ◌≡◌, Bool, true, false, Option, none, some, List, [], ◌∷◌, ◌++◌, if◌then◌else◌, Text,
  nonempty,
}

-- The entries of the dataset that the options take, with "value", "label" and "label" as the fields.
pub record SelectOptions : Type 0 where
  pub load : Option Text
  pub create : Option Text

-- What the code uses of Tom Select. `new` is `none` where the constructor throws, `sync` takes the
-- value of the <select>, and `pick` is a choice of the user.
pub record TomSelect (T : Type 0) (V : Type 0) : Type 0 where
  pub new : SelectOptions → V → Option T
  pub sync : V → T → T
  pub pick : V → T → T
  pub focus : T → T
  pub blur : T → T
  pub close : T → T
  pub shown : T → V
  pub focused : T → Bool
  pub shown_new : (o : SelectOptions) (v : V) (t : T) → new o v ≡ some t → shown t ≡ v
  pub shown_sync : (v : V) (t : T) → shown (sync v t) ≡ v
  pub shown_pick : (v : V) (t : T) → shown (pick v t) ≡ v
  pub shown_focus : (t : T) → shown (focus t) ≡ shown t
  pub shown_blur : (t : T) → shown (blur t) ≡ shown t
  pub shown_close : (t : T) → shown (close t) ≡ shown t
  pub focused_blur : (t : T) → focused (blur t) ≡ false
  pub focused_close : (t : T) → focused (close t) ≡ focused t

-- The two places where the listener of a reset waits for a timer.
pub data Timer : Type 0 where
  before_sync : Timer
  before_blur : Timer

-- A <select>: whether it has `data-pre-init`, its value and the one that a reset gives it, whether it
-- has the focus and a form, its widget, and the timers that are due.
pub record Dropdown (T : Type 0) (V : Type 0) : Type 0 where
  pub waiting : Bool
  pub value : V
  pub initial : V
  pub is_focused : Bool
  pub has_form : Bool
  pub options_source : Option Text
  pub create_new : Option Text
  pub tom : Option T
  pub timers : List Timer

-- `sqlpage_load_options_source(options_source)` is undefined without a source.
unfoldable pub select_options : {T V : Type 0} → Dropdown T V → SelectOptions
select_options d = record {
  load = elim d.options_source [ none ↦ none | some s ↦ if nonempty s then some s else none ];
  create = d.create_new;
}

module _ {T V : Type 0} (tom_select : TomSelect T V) where
  abbrev pub focus_if : Bool → T → T
  focus_if true t = tom_select.focus t
  focus_if false t = t

  -- The widget, `none` where the constructor throws.
  abbrev pub new_tom : Bool → Option T → Option T
  new_tom is_focused none = none
  new_tom is_focused (some t) = some (focus_if is_focused t)

  unfoldable pub sqlpage_select_dropdown_individual : Dropdown T V → Dropdown T V
  sqlpage_select_dropdown_individual d = record d {
    waiting = false;
    tom = new_tom d.is_focused (tom_select.new (select_options d) d.value);
  }

  -- The loop, whose `try` keeps an exception at one drop-down from the others.
  unfoldable pub sqlpage_select_dropdown : List (Dropdown T V) → List (Dropdown T V)
  sqlpage_select_dropdown [] = []
  sqlpage_select_dropdown (d ∷ ds) =
      (if d.waiting then sqlpage_select_dropdown_individual d else d) ∷ sqlpage_select_dropdown ds

  -- A choice of the user, in the widget or in the bare <select>.
  unfoldable pub choose : V → Dropdown T V → Option T → Dropdown T V
  choose v d none = record d { value = v; tom = none }
  choose v d (some t) = record d { value = v; tom = some (tom_select.pick v t) }

  abbrev pub reset_timers : Option T → List Timer
  reset_timers none = []
  reset_timers (some t) = before_sync ∷ []

  -- The form's reset: the listener starts, and then the browser resets the <select>.
  unfoldable pub on_reset : Dropdown T V → Dropdown T V
  on_reset d = record d { timers = d.timers ++ reset_timers d.tom; value = d.initial }

  abbrev pub on_tom : (T → T) → Option T → Option T
  on_tom f none = none
  on_tom f (some t) = some (f t)

  -- The first timer, before others.
  unfoldable pub run_timer : Timer → List Timer → Dropdown T V → Dropdown T V
  run_timer before_sync others d = record d {
    tom = on_tom (tom_select.sync d.value) d.tom;
    timers = others ++ before_blur ∷ [];
  }
  run_timer before_blur others d = record d {
    tom = on_tom (λ t. tom_select.close (tom_select.blur t)) d.tom;
    timers = others;
  }

  -- What can happen to a drop-down.
  pub data Step (d : Dropdown T V) : Dropdown T V → Type 0 where
    initialised : d.waiting ≡ true → Step d (sqlpage_select_dropdown_individual d)
    chosen : (v : V) → Step d (choose v d d.tom)
    reset : d.has_form ≡ true → Step d (on_reset d)
    due : (t : Timer) (others : List Timer) → d.timers ≡ t ∷ others → Step d (run_timer t others d)

  pub data Reachable (start : Dropdown T V) : Dropdown T V → Type 0 where
    at_start : Reachable start start
    later : {d e : Dropdown T V} → Reachable start d → Step d e → Reachable start e
