-- ===== src/Leaflet/Markers.antt =====
-- The markers of a map in sqlpage/sqlpage.js: parseCoords, createMarker, createGeoJSONMarker and what
-- addMarker makes of an element. Leaflet's layers L, JavaScript's numbers N and the parsed GeoJSON
-- objects J are of any types.
pub mod Coords
use mathlib.Core.Option
use sqlpage.Prelude.{
  ℕ, suc, Bool, true, false, ◌&&◌, Option, none, some, List, [], ◌∷◌, ◌++◌, map, if◌then◌else◌,
  Text, codes, nonempty, split,
}

-- The code unit of ",".
abbrev pub comma : ℕ
comma = 44

abbrev pub first_two : {A : Type 0} → List A → List A
first_two [] = []
first_two (x ∷ []) = x ∷ []
first_two (x ∷ y ∷ xs) = x ∷ y ∷ []

-- The dataset and the contents of a marker's element. `title` is `none` without an <h3>, and `icon` is
-- the `width` of the first child of its icon, if it has an icon.
pub record MarkerElement : Type 0 where
  pub color : Option Text
  pub title : Option Text
  pub coords : Option Text
  pub geojson : Option Text
  pub link : Option Text
  pub text : Text
  pub icon : Option (Option Text)

-- `icon_size` is the side of the icon's square; its anchor is the middle.
pub record MarkerOptions (N : Type 0) : Type 0 where
  pub color : Option Text
  pub title : Text
  pub size : Option N
  pub icon_size : Option N
  pub icon_class : Text

-- The layers that the code makes: a marker, or a GeoJSON object.
pub data Layer (N : Type 0) (J : Type 0) : Type 0 where
  at_coords : Option (List N) → MarkerOptions N → Layer N J
  geo_json : J → MarkerOptions N → Layer N J

-- What a click on a marker does.
pub data Action : Type 0 where
  opens_popup : Action
  goes_to : (link : Text) → Action
  does_nothing : Action

pub record Marker (L : Type 0) : Type 0 where
  pub layer : L
  pub action : Action

-- The truthiness of an entry of a dataset.
abbrev pub is_given : Option Text → Bool
is_given none = false
is_given (some s) = nonempty s

abbrev pub first_some : {A : Type 0} → Option A → Option A → Option A
first_some none o = o
first_some (some a) o = some a

unfoldable pub parse_coords : {N : Type 0} → (Text → N) → Option Text → Option (List N)
parse_coords parse_float none = none
parse_coords parse_float (some coords) = some (map parse_float (first_two (split comma coords)))

-- The properties of a GeoJSON feature that a marker's options can have.
pub record Properties (N : Type 0) : Type 0 where
  pub color : Option Text
  pub title : Option Text
  pub size : Option N

-- `{ ...options, ...properties }`
unfoldable pub with_properties : {N : Type 0} → Properties N → MarkerOptions N → MarkerOptions N
with_properties properties options = record options {
  color = first_some properties.color options.color;
  title = elim properties.title [ none ↦ options.title | some t ↦ t ];
  size = first_some properties.size options.size;
}

-- `style` of a feature, whose properties are `none` where they are no object.
unfoldable pub style : {N : Type 0} → MarkerOptions N → Option (Properties N) → MarkerOptions N
unfolding with_properties
style options none = options
style options (some properties) = with_properties properties options

-- `color || "primary"`
unfoldable pub color_or_primary : Option Text → Text
color_or_primary none = codes "primary"
color_or_primary (some []) = codes "primary"
color_or_primary (some (c ∷ cs)) = c ∷ cs

-- The options that addMarker starts with.
unfoldable pub options_of : {N : Type 0} → MarkerElement → Text → MarkerOptions N
options_of m title = record {
  color = m.color;
  title = title;
  size = none;
  icon_size = none;
  icon_class = [];
}

unfoldable pub action_of : (trim : Text → Text) → MarkerElement → Action
action_of trim m = if nonempty (trim m.text) then opens_popup else elim m.link [
  | none ↦ does_nothing
  | some link ↦ if nonempty link then goes_to link else does_nothing
]

module _ {N : Type 0} (parse_float number_of : Text → N) (truthy : N → Bool) (times_1_5 : N → N)
    (n24 : N) where
  -- `1.5 * +(width || 24)`
  unfoldable pub size_of_width : Option Text → N
  size_of_width none = times_1_5 n24
  size_of_width (some s) = if nonempty s then times_1_5 (number_of s) else times_1_5 n24

  -- `1.5 * +(options.size || width || 24)`
  unfoldable pub icon_size_of : Option N → Option Text → N
  unfolding size_of_width
  icon_size_of none width = size_of_width width
  icon_size_of (some n) width = if truthy n then times_1_5 n else size_of_width width

  unfoldable pub icon_options : Option (Option Text) → MarkerOptions N → MarkerOptions N
  unfolding icon_size_of color_or_primary
  icon_options none options = options
  icon_options (some width) options = record options {
    icon_size = some (icon_size_of options.size width);
    icon_class =
        codes "border-0 bg-"
        ++ color_or_primary options.color
        ++ codes " bg-gradient text-white rounded-circle shadow d-flex justify-content-center"
        ++ codes " align-items-center";
  }

  unfoldable pub create_marker : {J : Type 0} → MarkerElement → MarkerOptions N → Layer N J
  unfolding icon_options
  create_marker m options =
      at_coords (parse_coords parse_float m.coords) (icon_options m.icon options)

  -- `pointToLayer` at a latitude and a longitude: the element with its new coordinates, and the layer.
  unfoldable pub point_to_layer :
      {J : Type 0}
      → (to_text : N → Text) → MarkerElement
      → MarkerOptions N
      → Properties N
      → N
      → N
      → MarkerElement × Layer N J
  unfolding create_marker with_properties
  point_to_layer to_text m options properties lat lng =
      let m' : MarkerElement = record m { coords = some (to_text lat ++ comma ∷ to_text lng) } in
      (m', create_marker m' (with_properties properties options))

  module _ {J : Type 0} (json_parse : Text → Option J) (tabler_color : Text → Text) where
    -- `get_tabler_color(color) || color`
    unfoldable pub resolved_color : Option Text → Option Text
    resolved_color none = none
    resolved_color (some color) =
        if nonempty color && nonempty (tabler_color color)
        then some (tabler_color color)
        else some color

    -- `none` stands for the exception of JSON.parse, also on a missing text.
    unfoldable pub create_geo_json_marker : MarkerElement → MarkerOptions N → Option (Layer N J)
    unfolding resolved_color
    create_geo_json_marker m options =
        let options' : MarkerOptions N = record options { color = resolved_color options.color } in
        elim m.geojson [
          | none ↦ none
          | some text ↦ Option.map (λ json. geo_json json options') (json_parse text)
        ]

    unfoldable pub layer_of : (trim : Text → Text) → MarkerElement → Text → Option (Layer N J)
    unfolding create_marker create_geo_json_marker options_of
    layer_of trim m title =
        let options = options_of m (trim title) in
        if is_given m.coords
        then some (create_marker m options)
        else create_geo_json_marker m options

    module _ (trim : Text → Text) {L : Type 0} (add_to : Layer N J → Option L) where
      -- The marker that addMarker pushes; `none` stands for an exception before that.
      unfoldable pub new_marker : MarkerElement → Option (Marker L)
      unfolding layer_of action_of
      new_marker m = elim m.title [
        | none ↦ none
        | some title ↦ elim (layer_of trim m title) [
          | none ↦ none
          | some layer ↦
              Option.map (λ l. record { layer = l; action = action_of trim m }) (add_to layer)
        ]
      ]
