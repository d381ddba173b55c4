-- ===== src/Init/Tests.antt =====
-- Runs of add_init_fn of sqlpage/sqlpage.js, and the theorem at a concrete input. A function is a number.
use sqlpage.Prelude.{ℕ, ◌≡◌, refl, [], ◌∷◌, ◌++◌}
use sqlpage.Init.{
  deferred, Document, add_init_fns, document_at, fragment_loaded, run_timers, content_loaded,
}
use sqlpage.Init.Calls.{loaded, calls_at, add_init_fns-calls}

-- The functions of a deferred script.
abbrev at_start : Document ℕ
at_start = loaded (add_init_fns (1 ∷ 2 ∷ []) (document_at deferred))

calls-at_start : at_start.calls ≡ 1 ∷ 2 ∷ 1 ∷ 2 ∷ []
unfolding add_init_fns run_timers content_loaded sqlpage.Init.add_init_fn
calls-at_start = refl

add_init_fns-calls_example :
    (at_start.calls ≡ calls_at deferred (1 ∷ 2 ∷ []))
    × ((fragment_loaded at_start).calls ≡ calls_at deferred (1 ∷ 2 ∷ []) ++ 1 ∷ 2 ∷ [])
add_init_fns-calls_example = add_init_fns-calls deferred (1 ∷ 2 ∷ [])
