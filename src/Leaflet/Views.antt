-- ===== src/Leaflet/Views.antt =====
-- What onLeafletLoad of sqlpage/sqlpage.js does to one map element: its tiles, the timers that add the
-- markers, and the later timer that sets the view. Leaflet's layers L and their bounds B are of any types.
pub mod Added
mod Tests
use sqlpage.Prelude.{
  ℕ, suc, Bool, true, false, Option, none, some, List, [], ◌∷◌, ◌++◌, map, if◌then◌else◌, Text,
  nonempty,
}
use sqlpage.Leaflet.Markers.{MarkerElement, Marker, is_given, parse_coords}

pub data View (N : Type 0) (B : Type 0) : Type 0 where
  unset : View N B
  centered : List N → (zoom : N) → View N B
  fitted : List B → View N B
  europe : (zoom : N) → View N B

-- `L.tileLayer(source, { attribution, maxZoom })`
pub record Tiles (N : Type 0) : Type 0 where
  pub source : Text
  pub attribution : Option Text
  pub max_zoom : N

-- `zoomed` is the zoom that setZoom sets after the view, and `errors` counts the exceptions in timers.
pub record MapState (N : Type 0) (L : Type 0) (B : Type 0) : Type 0 where
  pub attribution_control : Bool
  pub tiles : Option (Tiles N)
  pub markers : List (Marker L)
  pub view : View N B
  pub zoomed : Option N
  pub errors : ℕ

pub record MapElement : Type 0 where
  pub tile_source : Option Text
  pub attribution : Option Text
  pub max_zoom : Option Text
  pub zoom : Option Text
  pub center : Option Text
  pub markers : List MarkerElement

abbrev pub nonempty_list : {A : Type 0} → List A → Bool
nonempty_list [] = false
nonempty_list (x ∷ xs) = true

-- `+zoom`, for a zoom that can be undefined.
unfoldable pub zoom_of : {N : Type 0} → (number_of : Text → N) → (nan : N) → Option Text → N
zoom_of number_of nan none = nan
zoom_of number_of nan (some zoom) = number_of zoom

unfoldable pub tiles_of :
    {N : Type 0} → (number_of : Text → N) → (nan : N) → MapElement → Option (Tiles N)
unfolding zoom_of
tiles_of number_of nan e = elim e.tile_source [
  | none ↦ none
  | some source ↦
      if nonempty source
      then some (record {
        source = source;
        attribution = e.attribution;
        max_zoom = zoom_of number_of nan e.max_zoom;
      })
      else none
]

-- The map before the timers.
unfoldable pub init_map :
    {N L B : Type 0} → (number_of : Text → N) → (nan : N) → MapElement → MapState N L B
init_map number_of nan e = record {
  attribution_control = is_given e.attribution;
  tiles = tiles_of number_of nan e;
  markers = [];
  view = unset;
  zoomed = none;
  errors = 0;
}

module _ {N L B : Type 0} where
  -- A timer with addMarker, which may throw.
  unfoldable pub push_marker : Option (Marker L) → MapState N L B → MapState N L B
  push_marker none s = record s { errors = suc s.errors }
  push_marker (some marker) s = record s { markers = s.markers ++ marker ∷ [] }

  module _ (new_marker : MarkerElement → Option (Marker L)) where
    unfoldable pub add_markers : List MarkerElement → MapState N L B → MapState N L B
    add_markers [] s = s
    add_markers (m ∷ ms) s = add_markers ms (push_marker (new_marker m) s)

  module _ (number_of : Text → N) (nan : N) (bounds : L → B) where
    unfoldable pub fit_markers : MapElement → MapState N L B → MapState N L B
    unfolding zoom_of
    fit_markers e s = record s {
      view =
          if nonempty_list s.markers
          then fitted (map (λ m. bounds m.layer) s.markers)
          else europe (zoom_of number_of nan e.zoom);
      zoomed = elim e.zoom [ none ↦ none | some zoom ↦ some (number_of zoom) ];
    }

    -- The timer that sets the view.
    unfoldable pub set_view : MapElement → Option (List N) → MapState N L B → MapState N L B
    unfolding fit_markers
    set_view e (some center) s = record s { view = centered center (zoom_of number_of nan e.zoom) }
    set_view e none s = fit_markers e s

    -- The map after its timers: those of the markers are due first.
    unfoldable pub show_map :
        (parse_float : Text → N) → (MarkerElement → Option (Marker L)) → MapElement → MapState N L B
    show_map parse_float new_marker e =
        set_view e (parse_coords parse_float e.center)
          (add_markers new_marker e.markers (init_map number_of nan e))
