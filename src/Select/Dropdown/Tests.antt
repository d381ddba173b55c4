-- ===== src/Select/Dropdown/Tests.antt =====
-- Runs of the drop-downs of sqlpage/tomselect.js, and the theorems at concrete inputs. A widget is the
-- value that it shows, and whether it has the focus.
use sqlpage.Prelude.{ℕ, ◌≡◌, refl, Bool, true, false, none, some, []}
use sqlpage.Select.Dropdown.{
  TomSelect, Dropdown, sqlpage_select_dropdown_individual, choose, initialised, chosen, Reachable,
  at_start, later,
}
use sqlpage.Select.Dropdown.Synced.{Reachable-shown}

abbrev Widget : Type 0
Widget = ℕ × Bool

abbrev tom_select : TomSelect Widget ℕ
tom_select = record {
  new = λ o v. some (v, false);
  sync = λ v t. (v, true);
  pick = λ v t. (v, t.1);
  focus = λ t. (t.0, true);
  blur = λ t. (t.0, false);
  close = λ t. t;
  shown = λ t. t.0;
  focused = λ t. t.1;
  shown_new = λ o v t e. cc;
  shown_sync = λ v t. refl;
  shown_pick = λ v t. refl;
  shown_focus = λ t. refl;
  shown_blur = λ t. refl;
  shown_close = λ t. refl;
  focused_blur = λ t. refl;
  focused_close = λ t. refl;
}

abbrev start : Dropdown Widget ℕ
start = record {
  waiting = true;
  value = 1;
  initial = 1;
  is_focused = true;
  has_form = true;
  options_source = none;
  create_new = none;
  tom = none;
  timers = [];
}

-- The drop-down after its set-up and a choice of 2.
abbrev picked : Dropdown Widget ℕ
picked = record start { waiting = false; value = 2; tom = some (2, true) }

picked-Reachable : Reachable tom_select start picked
unfolding choose sqlpage_select_dropdown_individual
picked-Reachable = later (later at_start (initialised refl)) (chosen 2)

Reachable-shown_example : tom_select.shown (2, true) ≡ picked.value
Reachable-shown_example = Reachable-shown tom_select (2, true) picked-Reachable refl refl refl
