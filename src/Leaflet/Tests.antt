-- ===== src/Leaflet/Tests.antt =====
-- Runs of sqlpage_map of sqlpage/sqlpage.js, and the theorems at concrete inputs.
use sqlpage.Prelude.{ℕ, ◌≡◌, refl, [], ◌∷◌, ◌⊎◌, ◌==◌, ==_iff, Eq, has, IsDistinct}
use sqlpage.Leaflet.{
  Page, sqlpage_map, script_runs, start_page, insert_map, inserted, called, Reachable, at_start,
  after,
}
use sqlpage.Leaflet.Steps.{IsSound, Reachable-IsSound}
use sqlpage.Leaflet.Maps.{known, Reachable-IsDistinct, sqlpage_map-known}

instance eq_map : Eq ℕ
eq_map = record { beq = λ a b. a == b; beq_iff = ==_iff }

-- A page with one map, after the first call of sqlpage_map, with a second map from a fragment.
abbrev two_maps : Page ℕ
two_maps = insert_map 8 (sqlpage_map (insert_map 7 start_page))

two_maps-Reachable : Reachable two_maps
unfolding has sqlpage_map eq_map
two_maps-Reachable = after (after (after at_start (inserted 7 refl)) called) (inserted 8 refl)

maps-two_maps : (script_runs 0 (sqlpage_map two_maps)).maps ≡ 7 ∷ 8 ∷ []
unfolding script_runs sqlpage_map
maps-two_maps = refl

Reachable-IsSound_example : IsSound two_maps
Reachable-IsSound_example = Reachable-IsSound two_maps two_maps-Reachable

Reachable-IsDistinct_example : IsDistinct (known two_maps)
Reachable-IsDistinct_example = Reachable-IsDistinct two_maps two_maps-Reachable

sqlpage_map-known_example :
    (((sqlpage_map two_maps).uninitialised ≡ []) × ((sqlpage_map two_maps).maps ≡ known two_maps))
    ⊎ (((sqlpage_map two_maps).waiting ≡ 1)
        × ((script_runs 0 (sqlpage_map two_maps)).uninitialised ≡ [])
        × ((script_runs 0 (sqlpage_map two_maps)).maps ≡ known two_maps))
sqlpage_map-known_example = sqlpage_map-known two_maps two_maps-Reachable
