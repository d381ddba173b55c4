-- ===== src/Leaflet/Views/Tests.antt =====
-- Runs of the markers and the views of maps of sqlpage/sqlpage.js, and the theorems at concrete inputs.
-- The number of a text is the text itself here, and every layer can be added.
use sqlpage.Prelude.{
  ◌≡◌, refl, Option, none, some, [], ◌∷◌, map, if◌then◌else◌, Text, codes, nonempty, includes,
}
use sqlpage.Leaflet.Markers.{
  MarkerElement, MarkerOptions, Layer, at_coords, Marker, Properties, with_properties, icon_options,
  new_marker, point_to_layer, parse_coords,
}
use sqlpage.Leaflet.Markers.Coords.{point_to_layer-coords}
use sqlpage.Leaflet.Views.{
  MapElement, MapState, fitted, europe, nonempty_list, zoom_of, show_map, set_view, add_markers,
  push_marker, init_map,
}
use sqlpage.Leaflet.Views.Added.{added, shown, show_map-view}

abbrev same : Text → Text
same s = s

abbrev no_json : Text → Option Text
no_json s = none

abbrev no_color : Text → Text
no_color s = []

abbrev add_to : Layer Text Text → Option (Layer Text Text)
add_to layer = some layer

abbrev marker_of : MarkerElement → Option (Marker (Layer Text Text))
marker_of = new_marker same same nonempty same [] no_json no_color same add_to

abbrev element : Option Text → MarkerElement
element coords = record {
  color = none;
  title = some (codes "here");
  coords = coords;
  geojson = none;
  link = none;
  text = codes "here";
  icon = none;
}

-- The second marker has no place, so that addMarker throws.
abbrev map_element : MapElement
map_element = record {
  tile_source = none;
  attribution = none;
  max_zoom = none;
  zoom = some (codes "5");
  center = none;
  markers = element (some (codes "1,2")) ∷ element none ∷ element (some (codes "3,4")) ∷ [];
}

abbrev bounds : Layer Text Text → Layer Text Text
bounds layer = layer

abbrev map_shown : MapState Text (Layer Text Text) (Layer Text Text)
map_shown = shown same same [] bounds marker_of map_element

errors-map_shown : map_shown.errors ≡ 1
unfolding show_map set_view add_markers push_marker init_map new_marker parse_coords
errors-map_shown = refl

show_map-view_example :
    (map_shown.view ≡ (
      if nonempty_list (added marker_of map_element.markers)
      then fitted (map (λ m. bounds m.layer) (added marker_of map_element.markers))
      else europe (zoom_of same [] map_element.zoom)))
    × (map_shown.zoomed ≡ some (codes "5"))
show_map-view_example = show_map-view same same [] bounds marker_of map_element refl

abbrev no_properties : Properties Text
no_properties = record { color = none; title = none; size = none }

abbrev options : MarkerOptions Text
options = record { color = none; title = []; size = none; icon_size = none; icon_class = [] }

point_to_layer-coords_example :
    (point_to_layer same same nonempty same [] {J = Text} same
      (element none)
      options
      no_properties
      (codes "48.8")
      (codes "2.3")).1
    ≡ at_coords
        (some (codes "48.8" ∷ codes "2.3" ∷ []))
        (icon_options same same nonempty same [] none (with_properties no_properties options))
point_to_layer-coords_example =
    point_to_layer-coords same same nonempty same [] same (element none) options no_properties
      (codes "48.8") (codes "2.3") refl refl (unfold includes in refl) (unfold includes in refl)
