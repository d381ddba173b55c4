-- ===== src/Leaflet/Markers/Coords.antt =====
-- That the coordinates which pointToLayer writes on a marker's element are read back.
use sqlpage.Prelude.{
  ℕ, ◌≡◌, refl, ap, Bool, false, some, [], ◌∷◌, ◌++◌, Text, split, includes, split-of_not_includes,
  push_head, ◌==◌, arith,
}
use sqlpage.Leaflet.Markers.{
  comma, MarkerElement, MarkerOptions, at_coords, Properties, parse_coords, with_properties,
  icon_options, create_marker, point_to_layer,
}

split-append : (c : ℕ) (s t : Text) → includes c s ≡ false → split c (s ++ c ∷ t) ≡ s ∷ split c t
unfolding split includes
split-append c [] t h = ground arith
split-append c (x ∷ s) t h =
    let other : (x == c) ≡ false = ground arith in
    rw other (ap (push_head x) (split-append c s t (ground arith)))

module _ {N : Type 0} (parse_float number_of : Text → N) (truthy : N → Bool) (times_1_5 : N → N)
    (n24 : N) (to_text : N → Text) where
  parse_coords-text :
      (lat lng : N)
      → parse_float (to_text lat) ≡ lat
      → parse_float (to_text lng) ≡ lng
      → includes comma (to_text lat) ≡ false
      → includes comma (to_text lng) ≡ false
      → parse_coords parse_float (some (to_text lat ++ comma ∷ to_text lng)) ≡ some (lat ∷ lng ∷ [])
  unfolding parse_coords
  parse_coords-text lat lng p q f g =
      rw
        (
          split-append comma (to_text lat) (to_text lng) f,
          split-of_not_includes comma (to_text lng) g,
          p,
          q,
        )
        refl

  -- A marker at a point of a GeoJSON object has the latitude and the longitude that Leaflet gives for
  -- the point, if parseFloat reads them back from their texts and the texts have no comma.
  pub point_to_layer-coords :
      {J : Type 0} (m : MarkerElement) (options : MarkerOptions N) (properties : Properties N)
      (lat lng : N)
      → parse_float (to_text lat) ≡ lat
      → parse_float (to_text lng) ≡ lng
      → includes comma (to_text lat) ≡ false
      → includes comma (to_text lng) ≡ false
      → (point_to_layer parse_float number_of truthy times_1_5 n24 {J = J} to_text m options
          properties lat lng).1
        ≡ at_coords (some (lat ∷ lng ∷ [])) (
            icon_options parse_float number_of truthy times_1_5 n24 m.icon
              (with_properties properties options))
  unfolding point_to_layer create_marker
  point_to_layer-coords m options properties lat lng p q f g =
      ap
        (λ c. at_coords c (
          icon_options parse_float number_of truthy times_1_5 n24 m.icon
            (with_properties properties options)))
        (parse_coords-text lat lng p q f g)
