-- ===== src/Init/Calls.antt =====
-- How often the init functions are called.
use sqlpage.Prelude.{◌≡◌, refl, ap, sym, ◌∙◌, subst, List, [], ◌∷◌, ◌++◌, append_assoc, append-nil}
use sqlpage.Init.{
  ReadyState, loading, interactive, complete, Document, add_init_fn, add_init_fns, set_timer,
  content_loaded, fragment_loaded, run_timers, document_at, Moment, parsing, deferred, added,
  completed,
}

module _ {F : Type 0} where
  -- The calls of a page when it has loaded, by the moment at which a script adds its functions.
  abbrev pub calls_at : Moment → List F → List F
  calls_at parsing fs = fs
  calls_at deferred fs = fs ++ fs
  calls_at added fs = fs
  calls_at completed fs = fs

  abbrev timers_at : ReadyState → List F → List F → List F
  timers_at loading fs ts = ts
  timers_at interactive fs ts = ts ++ fs
  timers_at complete fs ts = ts ++ fs

  snoc_assoc : (xs : List F) (f : F) (fs : List F) → (xs ++ f ∷ []) ++ fs ≡ xs ++ f ∷ fs
  snoc_assoc xs f fs = append_assoc xs (f ∷ []) fs

  timers-set_timer :
      (s : ReadyState) (f : F) (fs ts : List F)
      → timers_at s fs (set_timer s f ts) ≡ timers_at s (f ∷ fs) ts
  unfolding set_timer
  timers-set_timer loading f fs ts = refl
  timers-set_timer interactive f fs ts = snoc_assoc ts f fs
  timers-set_timer complete f fs ts = snoc_assoc ts f fs

  timers-nil : (s : ReadyState) (ts : List F) → timers_at s [] ts ≡ ts
  timers-nil loading ts = refl
  timers-nil interactive ts = append-nil ts
  timers-nil complete ts = append-nil ts

  -- The document after a script's calls of add_init_fn.
  abbrev with_fns : List F → Document F → Document F
  with_fns fs d = record d {
    on_content_loaded = d.on_content_loaded ++ fs;
    on_fragment_loaded = d.on_fragment_loaded ++ fs;
    timers = timers_at d.ready_state fs d.timers;
  }

  add_init_fns-with_fns : (fs : List F) (d : Document F) → add_init_fns fs d ≡ with_fns fs d
  unfolding add_init_fns add_init_fn
  add_init_fns-with_fns [] d =
      rw
        (
          append-nil d.on_content_loaded,
          append-nil d.on_fragment_loaded,
          timers-nil d.ready_state d.timers,
        )
        refl
  add_init_fns-with_fns (f ∷ fs) d =
      add_init_fns-with_fns fs (add_init_fn f d)
      ∙ rw
          (
            snoc_assoc d.on_content_loaded f fs,
            snoc_assoc d.on_fragment_loaded f fs,
            timers-set_timer d.ready_state f fs d.timers,
          )
          refl

  abbrev pub loaded : Document F → Document F
  loaded d = run_timers (content_loaded d)

  loaded-with_fns :
      (m : Moment) (fs : List F)
      → ((loaded (with_fns fs (document_at m))).calls ≡ calls_at m fs)
        × ((fragment_loaded (loaded (with_fns fs (document_at m)))).calls ≡ calls_at m fs ++ fs)
  unfolding run_timers content_loaded fragment_loaded
  loaded-with_fns parsing fs = (append-nil fs, ap (◌++ fs) (append-nil fs))
  loaded-with_fns deferred fs = (refl, refl)
  loaded-with_fns added fs = (refl, refl)
  loaded-with_fns completed fs = (refl, refl)

  -- When the page has loaded and the timers have run, the init functions of a deferred script, which
  -- runs in an interactive document before DOMContentLoaded, were called twice each, and those of a
  -- script that ran while the document was parsed, or after that event as the scripts do that
  -- load_scripts adds, once each; and each fragment that loads calls them once more.
  pub add_init_fns-calls :
      (m : Moment) (fs : List F)
      → let d = loaded (add_init_fns fs (document_at m)) in
        (d.calls ≡ calls_at m fs) × ((fragment_loaded d).calls ≡ calls_at m fs ++ fs)
  add_init_fns-calls m fs =
      subst
        (λ d.
          ((loaded d).calls ≡ calls_at m fs)
          × ((fragment_loaded (loaded d)).calls ≡ calls_at m fs ++ fs))
        (sym (add_init_fns-with_fns fs (document_at m))) (loaded-with_fns m fs)
