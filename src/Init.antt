-- ===== src/Init.antt =====
-- add_init_fn of sqlpage/sqlpage.js, which the scripts use to have a function called when the page or a
-- fragment of it has loaded. The functions F are of any type. `calls` is the trace of their calls.
pub mod Calls
mod Tests
use sqlpage.Prelude.{if◌then◌else◌, Bool, true, false, List, [], ◌∷◌, ◌++◌}

-- `document.readyState`
pub data ReadyState : Type 0 where
  loading : ReadyState
  interactive : ReadyState
  complete : ReadyState

-- The document is parsed: one that was loading is interactive, and the deferred scripts run before the
-- event DOMContentLoaded.
unfoldable pub after_parsing : ReadyState → ReadyState
after_parsing loading = interactive
after_parsing interactive = interactive
after_parsing complete = complete

-- `is_loaded` says that DOMContentLoaded was fired, which happens while the document is interactive.
pub record Document (F : Type 0) : Type 0 where
  pub ready_state : ReadyState
  pub is_loaded : Bool
  pub on_content_loaded : List F
  pub on_fragment_loaded : List F
  pub timers : List F
  pub calls : List F

module _ {F : Type 0} where
  -- `if (document.readyState !== "loading") setTimeout(f, 0)`
  unfoldable pub set_timer : ReadyState → F → List F → List F
  set_timer loading f timers = timers
  set_timer interactive f timers = timers ++ f ∷ []
  set_timer complete f timers = timers ++ f ∷ []

  unfoldable pub add_init_fn : F → Document F → Document F
  unfolding set_timer
  add_init_fn f d = record d {
    on_content_loaded = d.on_content_loaded ++ f ∷ [];
    on_fragment_loaded = d.on_fragment_loaded ++ f ∷ [];
    timers = set_timer d.ready_state f d.timers;
  }

  -- The calls of a script, in its order.
  unfoldable pub add_init_fns : List F → Document F → Document F
  add_init_fns [] d = d
  add_init_fns (f ∷ fs) d = add_init_fns fs (add_init_fn f d)

  -- The event DOMContentLoaded, which is fired once.
  unfoldable pub content_loaded : Document F → Document F
  unfolding after_parsing
  content_loaded d = if d.is_loaded then d else record d {
    ready_state = after_parsing d.ready_state;
    is_loaded = true;
    calls = d.calls ++ d.on_content_loaded;
  }

  unfoldable pub fragment_loaded : Document F → Document F
  fragment_loaded d = record d { calls = d.calls ++ d.on_fragment_loaded }

  unfoldable pub run_timers : Document F → Document F
  run_timers d = record d { timers = []; calls = d.calls ++ d.timers }

-- When a script runs: while the document is parsed; deferred, before DOMContentLoaded; added by
-- load_scripts, so that it runs in an interactive document after that event; or in a complete one.
pub data Moment : Type 0 where
  parsing : Moment
  deferred : Moment
  added : Moment
  completed : Moment

abbrev pub state_at : Moment → ReadyState
state_at parsing = loading
state_at deferred = interactive
state_at added = interactive
state_at completed = complete

abbrev pub is_loaded_at : Moment → Bool
is_loaded_at parsing = false
is_loaded_at deferred = false
is_loaded_at added = true
is_loaded_at completed = true

abbrev pub document_at : {F : Type 0} → Moment → Document F
document_at m = record {
  ready_state = state_at m;
  is_loaded = is_loaded_at m;
  on_content_loaded = [];
  on_fragment_loaded = [];
  timers = [];
  calls = [];
}
