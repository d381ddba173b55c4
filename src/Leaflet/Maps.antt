-- ===== src/Leaflet/Maps.antt =====
-- Which map elements sqlpage_map initialises.
use sqlpage.Prelude.{
  ℕ, ◌+◌, ◌≡◌, refl, ap, sym, ◌∙◌, subst, Bool, true, false, not, List, [], ◌∷◌, ◌++◌, ◌&&◌, ◌⊎◌,
  inl, inr, Eq, arith, IsDistinct, IsDistinct-snoc, append-nil, append_assoc, Bool-cases,
}
use sqlpage.Leaflet.{
  Page, nonempty_maps, init_maps, on_leaflet_load, inject_leaflet, load_if_loaded, sqlpage_map,
  script_runs, Step, inserted, called, loaded, Reachable, at_start, after,
}
use sqlpage.Leaflet.Steps.{count, Reachable-IsSound, on_leaflet_load-eq}

module _ {M : Type 0} where
  -- The map elements, the initialised ones first.
  abbrev pub known : Page M → List M
  known p = p.maps ++ p.uninitialised

  known-on_leaflet_load : (p : Page M) → known (on_leaflet_load p) ≡ known p
  unfolding on_leaflet_load init_maps
  known-on_leaflet_load p = go p.has_leaflet (nonempty_maps p.uninitialised)
    where
      go : (l n : Bool) → known (init_maps l (record p { is_leaflet_loaded = true })) ≡ known p
      go true n = append-nil (p.maps ++ p.uninitialised)
      go false n = elim (Bool-cases (nonempty_maps p.uninitialised)) [
        | inl a ↦ rw a refl
        | inr b ↦ rw b refl
      ]

  -- What adding the script leaves.
  inject_leaflet-keeps :
      (p : Page M)
      → ((inject_leaflet p).maps ≡ p.maps)
        × ((inject_leaflet p).uninitialised ≡ p.uninitialised)
        × ((inject_leaflet p).has_leaflet ≡ p.has_leaflet)
        × ((inject_leaflet p).is_leaflet_loaded ≡ p.is_leaflet_loaded)
  unfolding inject_leaflet
  inject_leaflet-keeps p =
      elim (Bool-cases (nonempty_maps p.uninitialised && not p.is_leaflet_injected)) [
        | inl a ↦ rw a (refl, refl, refl, refl)
        | inr b ↦ rw b (refl, refl, refl, refl)
      ]

  known-inject_leaflet : (p : Page M) → known (inject_leaflet p) ≡ known p
  known-inject_leaflet p = let (a, b, c, d) = inject_leaflet-keeps p in rw (a, b) refl

  known-sqlpage_map : (p : Page M) → known (sqlpage_map p) ≡ known p
  unfolding sqlpage_map load_if_loaded
  known-sqlpage_map p =
      elim (Bool-cases (nonempty_maps p.uninitialised && (inject_leaflet p).is_leaflet_loaded)) [
        | inl a ↦ rw a (known-on_leaflet_load (inject_leaflet p) ∙ known-inject_leaflet p)
        | inr b ↦ rw b (known-inject_leaflet p)
      ]

  -- When the script has run, all map elements are initialised.
  script_runs-known :
      (others : ℕ) (p : Page M)
      → ((script_runs others p).uninitialised ≡ []) × ((script_runs others p).maps ≡ known p)
  unfolding script_runs
  script_runs-known others p =
      let e = on_leaflet_load-eq (record p { waiting = others; has_leaflet = true }) refl in
      (ap (λ q. q.uninitialised) e, ap (λ q. q.maps) e)

  nonempty_maps-false : (ms : List M) → nonempty_maps ms ≡ false → ms ≡ []
  nonempty_maps-false [] h = refl
  nonempty_maps-false (m ∷ ms) h = cc

  called_empty :
      (p : Page M)
      → nonempty_maps p.uninitialised ≡ false
      → ((sqlpage_map p).uninitialised ≡ []) × (p.uninitialised ≡ [])
  unfolding sqlpage_map load_if_loaded
  called_empty p h =
      let e = nonempty_maps-false p.uninitialised h in
      let (a, b, c, d) = inject_leaflet-keeps p in (rw h e, e)

  load_if_loaded-eq :
      (first : Bool) (p : Page M)
      → first ≡ true
      → p.is_leaflet_loaded ≡ true
      → load_if_loaded first p ≡ on_leaflet_load p
  unfolding load_if_loaded
  load_if_loaded-eq first p h l = rw (h, l) refl

  called_loaded :
      (p : Page M)
      → nonempty_maps p.uninitialised ≡ true
      → p.has_leaflet ≡ true
      → p.is_leaflet_loaded ≡ true
      → ((sqlpage_map p).uninitialised ≡ []) × ((sqlpage_map p).maps ≡ known p)
  called_loaded p h defined l =
      let (a, b, c, d) = inject_leaflet-keeps p in
      let e : sqlpage_map p ≡ on_leaflet_load (inject_leaflet p) =
        unfold sqlpage_map in load_if_loaded-eq _ (inject_leaflet p) h (d ∙ l) in
      let f = e ∙ on_leaflet_load-eq (inject_leaflet p) (c ∙ defined) in
      (ap (λ q. q.uninitialised) f, ap (λ q. q.maps) f ∙ known-inject_leaflet p)

  called_waiting :
      (p : Page M)
      → nonempty_maps p.uninitialised ≡ true
      → p.scripts ≡ count p.is_leaflet_injected
      → p.waiting + count p.has_leaflet ≡ p.scripts
      → p.has_leaflet ≡ false
      → p.is_leaflet_loaded ≡ false
      → (sqlpage_map p).waiting ≡ 1
  unfolding sqlpage_map load_if_loaded inject_leaflet
  called_waiting p h a b undefined l =
      let none_run : p.waiting + 0 ≡ p.scripts = rw undefined at b in
      elim (Bool-cases p.is_leaflet_injected) [
        | inl i ↦ let x : p.scripts ≡ 1 = rw i at a in rw (h, i, l) (omega arith)
        | inr i ↦ let x : p.scripts ≡ 0 = rw i at a in rw (h, i, l) (omega arith)
      ]

  module _ ⦃e : Eq M⦄ where
    -- On every page that is reached, no map element was initialised twice.
    pub Reachable-IsDistinct : (p : Page M) → Reachable p → IsDistinct (known p)
    Reachable-IsDistinct p at_start = tt
    Reachable-IsDistinct q (after {p = p} r s) = go s (Reachable-IsDistinct p r)
      where
        go : {q : Page M} → Step p q → IsDistinct (known p) → IsDistinct (known q)
        go (inserted m new) h =
            subst IsDistinct (append_assoc p.maps p.uninitialised (m ∷ []))
              (IsDistinct-snoc (known p) m h new)
        go called h = subst IsDistinct (sym (known-sqlpage_map p)) h
        go (loaded others w) h =
            let f = known-on_leaflet_load (record p { waiting = others; has_leaflet = true }) in
            unfold script_runs in subst IsDistinct (sym f) h

    -- On every page that is reached, a call of sqlpage_map initialises all map elements, or it
    -- leaves one script on its way that initialises all of them when it has run.
    pub sqlpage_map-known :
        (p : Page M)
        → Reachable p
        → (((sqlpage_map p).uninitialised ≡ []) × ((sqlpage_map p).maps ≡ known p))
          ⊎ (((sqlpage_map p).waiting ≡ 1)
              × ((script_runs 0 (sqlpage_map p)).uninitialised ≡ [])
              × ((script_runs 0 (sqlpage_map p)).maps ≡ known p))
    sqlpage_map-known p r = elim (Bool-cases (nonempty_maps p.uninitialised)) [
      | inl some_map ↦
          let (a, b, c, d) = Reachable-IsSound p r in
          elim (Bool-cases p.has_leaflet) [
            | inl defined ↦ inl (called_loaded p some_map defined (c ∙ defined))
            | inr undefined ↦ inr (
              called_waiting p some_map a b undefined (c ∙ undefined),
              (script_runs-known 0 (sqlpage_map p)).0,
              (script_runs-known 0 (sqlpage_map p)).1 ∙ known-sqlpage_map p,
            )
          ]
      | inr no_map ↦
          let (a, b) = called_empty p no_map in
          inl (
            a,
            sym (append-nil (sqlpage_map p).maps)
                ∙ ap ((sqlpage_map p).maps ++◌) (sym a)
                ∙ known-sqlpage_map p,
          )
    ]
