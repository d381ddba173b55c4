-- ===== src/Select/Dropdown/Synced.antt =====
-- That a drop-down shows the value of its <select>.
use sqlpage.Prelude.{
  ◌≡◌, refl, ap, sym, subst, ◌∙◌, Bool, true, false, ◌||◌, Option, none, some, List, [], ◌∷◌, ◌++◌,
  ◌⊎◌, inl, inr,
}
use sqlpage.Select.Dropdown.{
  SelectOptions, TomSelect, Timer, before_sync, before_blur, Dropdown, select_options, new_tom,
  sqlpage_select_dropdown_individual, choose, reset_timers, on_reset, on_tom, run_timer, Step,
  initialised, chosen, reset, due, Reachable, at_start, later,
}

abbrev pub has_sync : List Timer → Bool
has_sync [] = false
has_sync (before_sync ∷ ts) = true
has_sync (before_blur ∷ ts) = has_sync ts

or_true : (b : Bool) → b || true ≡ true
or_true true = refl
or_true false = refl

has_sync-append : (ss ts : List Timer) → has_sync (ss ++ ts) ≡ has_sync ss || has_sync ts
has_sync-append [] ts = refl
has_sync-append (before_sync ∷ ss) ts = refl
has_sync-append (before_blur ∷ ss) ts = has_sync-append ss ts

module _ {T V : Type 0} (tom_select : TomSelect T V) where
  -- A widget shows the value; no widget shows nothing else.
  abbrev pub Shows : V → Option T → Type 0
  Shows v none = Unit
  Shows v (some t) = tom_select.shown t ≡ v

  IsSynced : Dropdown T V → Type 0
  IsSynced d = (has_sync d.timers ≡ true) ⊎ Shows d.value d.tom

  Shows-new_tom :
      (is_focused : Bool) (v : V) (o : SelectOptions) (t : Option T)
      → tom_select.new o v ≡ t
      → Shows v (new_tom tom_select is_focused t)
  Shows-new_tom is_focused v o none e = tt
  Shows-new_tom true v o (some t) e = tom_select.shown_focus t ∙ tom_select.shown_new o v t e
  Shows-new_tom false v o (some t) e = tom_select.shown_new o v t e

  Shows-sync : (v : V) (t : Option T) → Shows v (on_tom tom_select (tom_select.sync v) t)
  Shows-sync v none = tt
  Shows-sync v (some t) = tom_select.shown_sync v t

  Shows-close :
      (v : V) (t : Option T)
      → Shows v t
      → Shows v (on_tom tom_select (λ t. tom_select.close (tom_select.blur t)) t)
  Shows-close v none e = tt
  Shows-close v (some t) e = tom_select.shown_close _ ∙ tom_select.shown_blur t ∙ e

  choose-IsSynced : (v : V) (d : Dropdown T V) (t : Option T) → IsSynced (choose tom_select v d t)
  unfolding choose IsSynced
  choose-IsSynced v d none = inr tt
  choose-IsSynced v d (some t) = inr (tom_select.shown_pick v t)

  -- With a widget, a reset has its listener's timer; without, the value is not shown at all.
  on_reset-IsSynced :
      (d : Dropdown T V) (t : Option T) → d.tom ≡ t → IsSynced (on_reset tom_select d)
  unfolding IsSynced on_reset
  on_reset-IsSynced d none e = inr (subst (Shows d.initial) (sym e) tt)
  on_reset-IsSynced d (some t) e = inl (
      ap (λ o. has_sync (d.timers ++ reset_timers tom_select o)) e
      ∙ has_sync-append d.timers (before_sync ∷ [])
      ∙ or_true (has_sync d.timers))

  run_timer-IsSynced :
      (d : Dropdown T V) (t : Timer) (others : List Timer)
      → d.timers ≡ t ∷ others
      → IsSynced d
      → IsSynced (run_timer tom_select t others d)
  unfolding IsSynced run_timer
  run_timer-IsSynced d before_sync others e s = inr (Shows-sync d.value d.tom)
  run_timer-IsSynced d before_blur others e (inl h) = inl (sym (ap has_sync e) ∙ h)
  run_timer-IsSynced d before_blur others e (inr h) = inr (Shows-close d.value d.tom h)

  setup-IsSynced : (d : Dropdown T V) → IsSynced (sqlpage_select_dropdown_individual tom_select d)
  unfolding IsSynced sqlpage_select_dropdown_individual
  setup-IsSynced d = inr (
      Shows-new_tom d.is_focused d.value (select_options d)
        (tom_select.new (select_options d) d.value) refl)

  Step-IsSynced : {d e : Dropdown T V} → IsSynced d → Step tom_select d e → IsSynced e
  Step-IsSynced {d} s (initialised w) = setup-IsSynced d
  Step-IsSynced {d} s (chosen v) = choose-IsSynced v d d.tom
  Step-IsSynced {d} s (reset f) = on_reset-IsSynced d d.tom refl
  Step-IsSynced {d} s (due t others e) = run_timer-IsSynced d t others e s

  Reachable-IsSynced :
      {start d : Dropdown T V} → start.tom ≡ none → Reachable tom_select start d → IsSynced d
  unfolding IsSynced
  Reachable-IsSynced {start} n at_start = inr (subst (Shows start.value) (sym n) tt)
  Reachable-IsSynced n (later r s) = Step-IsSynced (Reachable-IsSynced n r) s

  -- On every drop-down that is reached from one with no widget, by its set-up, choices, resets and
  -- timers, the widget shows the value of the <select> whenever no timer is due.
  pub Reachable-shown :
      {start d : Dropdown T V} (t : T)
      → Reachable tom_select start d
      → start.tom ≡ none
      → d.timers ≡ []
      → d.tom ≡ some t
      → tom_select.shown t ≡ d.value
  unfolding IsSynced
  Reachable-shown {start} {d} t r n timers e = elim (Reachable-IsSynced n r) [
    | inl h ↦ let q : false ≡ true = sym (ap has_sync timers) ∙ h in cc
    | inr h ↦ subst (Shows d.value) e h
  ]

  -- A reset of the form of a drop-down with no timer due ends, after its two timers, with the widget
  -- showing the value that the reset gives the <select>, without the focus, and no timer due.
  pub run_timer-on_reset :
      (d : Dropdown T V) (t : T)
      → d.timers ≡ []
      → d.tom ≡ some t
      → let e =
          run_timer tom_select before_blur []
            (run_timer tom_select before_sync [] (on_reset tom_select d)) in
        (u : T) × (e.tom ≡ some u)
        × (tom_select.shown u ≡ d.initial)
        × (tom_select.focused u ≡ false)
        × (e.timers ≡ [])
  unfolding run_timer on_reset
  run_timer-on_reset d t timers e =
      let synced : T = tom_select.sync d.initial t in
      (
        tom_select.close (tom_select.blur synced),
        rw e refl,
        tom_select.shown_close _ ∙ tom_select.shown_blur synced ∙ tom_select.shown_sync d.initial t,
        tom_select.focused_close _ ∙ tom_select.focused_blur synced,
        refl,
      )
