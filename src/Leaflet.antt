-- ===== src/Leaflet.antt =====
-- sqlpage_map of sqlpage/sqlpage.js: how Leaflet's script gets on the page and how the map elements
-- are initialised. The elements are of any type. The script runs as an event of the browser.
pub mod Steps
pub mod Maps
pub mod Markers
pub mod Views
mod Tests
use sqlpage.Prelude.{
  ℕ, suc, ◌+◌, Bool, true, false, List, [], ◌∷◌, ◌++◌, if◌then◌else◌, ◌&&◌, not, Eq, has, ◌≡◌,
}

-- The two flags of the file, the script elements that were added and those of them that have not
-- run, whether `L` is defined, the elements with `data-pre-init=map`, those that were initialised,
-- and the exceptions.
pub record Page (M : Type 0) : Type 0 where
  pub is_leaflet_injected : Bool
  pub is_leaflet_loaded : Bool
  pub scripts : ℕ
  pub waiting : ℕ
  pub has_leaflet : Bool
  pub uninitialised : List M
  pub maps : List M
  pub exceptions : ℕ

module _ {M : Type 0} where
  abbrev pub nonempty_maps : List M → Bool
  nonempty_maps [] = false
  nonempty_maps (m ∷ ms) = true

  -- The loop over the map elements, without what it does to each of them: the use of `L` throws
  -- when it is not defined, and else every element loses `data-pre-init`.
  unfoldable pub init_maps : Bool → Page M → Page M
  init_maps true p = record p { uninitialised = []; maps = p.maps ++ p.uninitialised }
  init_maps false p =
      if nonempty_maps p.uninitialised then record p { exceptions = suc p.exceptions } else p

  unfoldable pub on_leaflet_load : Page M → Page M
  unfolding init_maps
  on_leaflet_load p = init_maps p.has_leaflet (record p { is_leaflet_loaded = true })

  -- Adds the style sheet and the script.
  unfoldable pub inject_leaflet : Page M → Page M
  inject_leaflet p =
      if nonempty_maps p.uninitialised && not p.is_leaflet_injected
      then record p { is_leaflet_injected = true; scripts = suc p.scripts; waiting = suc p.waiting }
      else p

  unfoldable pub load_if_loaded : Bool → Page M → Page M
  unfolding on_leaflet_load
  load_if_loaded first_map p = if first_map && p.is_leaflet_loaded then on_leaflet_load p else p

  unfoldable pub sqlpage_map : Page M → Page M
  unfolding inject_leaflet load_if_loaded
  sqlpage_map p = load_if_loaded (nonempty_maps p.uninitialised) (inject_leaflet p)

  -- A script that was added has run, and calls its `onload`.
  unfoldable pub script_runs : ℕ → Page M → Page M
  unfolding on_leaflet_load
  script_runs others p = on_leaflet_load (record p { waiting = others; has_leaflet = true })

  abbrev pub start_page : Page M
  start_page = record {
    is_leaflet_injected = false;
    is_leaflet_loaded = false;
    scripts = 0;
    waiting = 0;
    has_leaflet = false;
    uninitialised = [];
    maps = [];
    exceptions = 0;
  }

  -- A page or a fragment brings a map element.
  abbrev pub insert_map : M → Page M → Page M
  insert_map m p = record p { uninitialised = p.uninitialised ++ m ∷ [] }

  module _ ⦃e : Eq M⦄ where
    -- What can happen: a new map element, an event that calls sqlpage_map, the script's load event.
    pub data Step (p : Page M) : Page M → Type 0 where
      inserted : (m : M) → has m (p.maps ++ p.uninitialised) ≡ false → Step p (insert_map m p)
      called : Step p (sqlpage_map p)
      loaded : (others : ℕ) → p.waiting ≡ suc others → Step p (script_runs others p)

    pub data Reachable : Page M → Type 0 where
      at_start : Reachable start_page
      after : {p q : Page M} → Reachable p → Step p q → Reachable q
