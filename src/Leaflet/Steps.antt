-- ===== src/Leaflet/Steps.antt =====
-- The states that the page reaches with sqlpage_map.
use sqlpage.Prelude.{
  ℕ, suc, ◌+◌, ◌≡◌, refl, sym, ◌∙◌, subst, Bool, true, false, not, [], ◌++◌, if◌then◌else◌, ◌&&◌,
  Eq, arith,
}
use sqlpage.Leaflet.{
  Page, nonempty_maps, init_maps, on_leaflet_load, inject_leaflet, load_if_loaded, sqlpage_map,
  script_runs, Step, inserted, called, loaded, Reachable, at_start, after,
}

abbrev pub count : Bool → ℕ
count true = 1
count false = 0

module _ {M : Type 0} where
  -- The script is added once, the flag for its load says whether `L` is defined, and nothing has
  -- thrown.
  abbrev pub IsSound : Page M → Type 0
  IsSound p =
      (p.scripts ≡ count p.is_leaflet_injected)
      × (p.waiting + count p.has_leaflet ≡ p.scripts)
      × (p.is_leaflet_loaded ≡ p.has_leaflet)
      × (p.exceptions ≡ 0)

  inject_leaflet-IsSound : (p : Page M) → IsSound p → IsSound (inject_leaflet p)
  unfolding inject_leaflet
  inject_leaflet-IsSound p (a, b, c, d) =
      go (nonempty_maps p.uninitialised) p.is_leaflet_injected refl
    where
      go :
          (first injected : Bool)
          → p.is_leaflet_injected ≡ injected
          → IsSound (
              if first && not injected
              then record p {
                is_leaflet_injected = true;
                scripts = suc p.scripts;
                waiting = suc p.waiting;
              }
              else p)
      go true true e = (a, b, c, d)
      go true false e = let z : p.scripts ≡ 0 = rw e at a in (omega arith, omega arith, c, d)
      go false true e = (a, b, c, d)
      go false false e = (a, b, c, d)

  pub on_leaflet_load-eq :
      (p : Page M)
      → p.has_leaflet ≡ true
      → on_leaflet_load p ≡ record p {
        is_leaflet_loaded = true;
        uninitialised = [];
        maps = p.maps ++ p.uninitialised;
      }
  unfolding on_leaflet_load init_maps
  on_leaflet_load-eq p h = rw h refl

  on_leaflet_load-IsSound :
      (p : Page M)
      → p.has_leaflet ≡ true
      → (p.scripts ≡ count p.is_leaflet_injected)
      → (p.waiting + count p.has_leaflet ≡ p.scripts)
      → (p.exceptions ≡ 0)
      → IsSound (on_leaflet_load p)
  on_leaflet_load-IsSound p h a b d = subst IsSound (sym (on_leaflet_load-eq p h)) (a, b, sym h, d)

  load_if_loaded-IsSound :
      (first : Bool) (p : Page M) → IsSound p → IsSound (load_if_loaded first p)
  unfolding load_if_loaded
  load_if_loaded-IsSound first p (a, b, c, d) = go (first && p.is_leaflet_loaded) refl
    where
      go :
          (t : Bool)
          → first && p.is_leaflet_loaded ≡ t
          → IsSound (if t then on_leaflet_load p else p)
      go true e =
          let l : p.is_leaflet_loaded ≡ true = ground arith in
          on_leaflet_load-IsSound p (sym c ∙ l) a b d
      go false e = (a, b, c, d)

  script_runs-IsSound :
      (p : Page M) (others : ℕ)
      → IsSound p
      → p.waiting ≡ suc others
      → IsSound (script_runs others p)
  unfolding script_runs
  script_runs-IsSound p others (a, b, c, d) w =
      on_leaflet_load-IsSound (record p { waiting = others; has_leaflet = true }) refl a
        (total p.is_leaflet_injected p.has_leaflet refl refl) d
    where
      total : (i l : Bool) → p.is_leaflet_injected ≡ i → p.has_leaflet ≡ l → others + 1 ≡ p.scripts
      total true true f g =
          let x : p.scripts ≡ 1 = rw f at a in
          let y : p.waiting + 1 ≡ p.scripts = rw g at b in absurd (omega arith)
      total true false f g = let y : p.waiting + 0 ≡ p.scripts = rw g at b in omega arith
      total false l f g = let x : p.scripts ≡ 0 = rw f at a in absurd (omega arith)

  module _ ⦃e : Eq M⦄ where
    -- On every page that is reached, the script was added at most once, and `L` was never used
    -- before it was defined.
    pub Reachable-IsSound : (p : Page M) → Reachable p → IsSound p
    Reachable-IsSound p at_start = (refl, refl, refl, refl)
    Reachable-IsSound q (after {p = p} r s) = go s (Reachable-IsSound p r)
      where
        go : {q : Page M} → Step p q → IsSound p → IsSound q
        go (inserted m new) h = h
        go called h =
            unfold sqlpage_map in
            load_if_loaded-IsSound (nonempty_maps p.uninitialised) (inject_leaflet p)
              (inject_leaflet-IsSound p h)
        go (loaded others w) h = script_runs-IsSound p others h w
