-- ===== src/Leaflet/Views/Added.antt =====
-- Which markers a map gets from its timers, and what its view shows.
use mathlib.Core.Option
use sqlpage.Prelude.{
  suc, ◌+◌, ◌≡◌, refl, ap, sym, ◌∙◌, Option, none, some, List, [], ◌∷◌, ◌++◌, map, length,
  append_assoc, append-nil, if◌then◌else◌, Text, arith,
}
use sqlpage.Leaflet.Markers.{MarkerElement, Marker, parse_coords}
use sqlpage.Leaflet.Views.{
  fitted, europe, MapState, MapElement, nonempty_list, push_marker, add_markers, init_map, zoom_of,
  fit_markers, set_view, fit_markers, show_map,
}

module _ {L : Type 0} (new_marker : MarkerElement → Option (Marker L)) where
  abbrev kept : Option (Marker L) → List (Marker L) → List (Marker L)
  kept none ms = ms
  kept (some m) ms = m ∷ ms

  -- The markers of the elements for which addMarker does not throw.
  abbrev pub added : List MarkerElement → List (Marker L)
  added [] = []
  added (m ∷ ms) = kept (new_marker m) (added ms)

  module _ {N B : Type 0} where
    IsAdded : List MarkerElement → List (Marker L) → MapState N L B → MapState N L B → Type 0
    IsAdded ms markers s t =
        (t.markers ≡ s.markers ++ markers) × (t.errors + length markers ≡ s.errors + length ms)

    push_marker-IsAdded :
        (m : MarkerElement) (ms : List MarkerElement) (o : Option (Marker L)) (s : MapState N L B)
        → ((r : MapState N L B) → IsAdded ms (added ms) r (add_markers new_marker ms r))
        → IsAdded (m ∷ ms) (kept o (added ms)) s (add_markers new_marker ms (push_marker o s))
    unfolding IsAdded push_marker
    push_marker-IsAdded m ms none s rest =
        let (p, q) = rest (record s { errors = suc s.errors }) in (p, omega arith)
    push_marker-IsAdded m ms (some marker) s rest =
        let (p, q) = rest (record s { markers = s.markers ++ marker ∷ [] }) in
        (p ∙ append_assoc s.markers (marker ∷ []) (added ms), omega arith)

    add_markers-IsAdded :
        (ms : List MarkerElement) (s : MapState N L B)
        → IsAdded ms (added ms) s (add_markers new_marker ms s)
    unfolding add_markers IsAdded
    add_markers-IsAdded [] s = (sym (append-nil s.markers), refl)
    add_markers-IsAdded (m ∷ ms) s =
        push_marker-IsAdded m ms (new_marker m) s (add_markers-IsAdded ms)

module _ {N L B : Type 0} (parse_float number_of : Text → N) (nan : N) (bounds : L → B)
    (new_marker : MarkerElement → Option (Marker L)) (e : MapElement) where
  -- The map of an element after all its timers.
  abbrev pub shown : MapState N L B
  shown = show_map number_of nan bounds parse_float new_marker e

  set_view-markers :
      (center : Option (List N)) (s : MapState N L B)
      → ((set_view number_of nan bounds e center s).markers ≡ s.markers)
        × ((set_view number_of nan bounds e center s).errors ≡ s.errors)
  unfolding set_view
  set_view-markers none s = (refl, refl)
  set_view-markers (some c) s = (refl, refl)

  added_at_start :
      ((add_markers {B = B} new_marker e.markers (init_map {N = N} number_of nan e)).markers
        ≡ added new_marker e.markers)
      × ((add_markers {B = B} new_marker e.markers (init_map {N = N} number_of nan e)).errors
            + length (added new_marker e.markers)
          ≡ length e.markers)
  unfolding IsAdded init_map
  added_at_start =
      let (p, q) =
        add_markers-IsAdded new_marker e.markers
          (init_map {N = N} {L = L} {B = B} number_of nan e) in
      (p, omega arith)

  -- A map gets the markers of all the elements for which addMarker does not throw, in the order of the
  -- page, and logs an exception for each of the others.
  pub show_map-added :
      (shown.markers ≡ added new_marker e.markers)
      × (shown.errors + length shown.markers ≡ length e.markers)
  unfolding show_map
  show_map-added =
      let center = parse_coords parse_float e.center in
      let (p, q) =
        set_view-markers center (add_markers new_marker e.markers (init_map number_of nan e)) in
      let (a, b) = added_at_start in (p ∙ a, rw (p, q, a) (b))

  fit_markers-view :
      (s : MapState N L B)
      → ((fit_markers number_of nan bounds e s).view ≡ (
          if nonempty_list s.markers
          then fitted (map (λ m. bounds m.layer) s.markers)
          else europe (zoom_of number_of nan e.zoom)))
        × ((fit_markers number_of nan bounds e s).zoomed ≡ Option.map number_of e.zoom)
  unfolding fit_markers
  fit_markers-view s = (refl, zoomed e.zoom)
    where
      zoomed :
          (z : Option Text)
          → elim z [ none ↦ none | some zoom ↦ some (number_of zoom) ] ≡ Option.map number_of z
      zoomed none = refl
      zoomed (some zoom) = refl

  -- A map with no centre is fitted to the bounds of all the markers that it got, or to Europe if there
  -- are none, and after that its zoom is set to the element's zoom, if it has one, also where not all
  -- the markers are in sight at that zoom.
  pub show_map-view :
      e.center ≡ none
      → (shown.view ≡ (
          if nonempty_list (added new_marker e.markers)
          then fitted (map (λ m. bounds m.layer) (added new_marker e.markers))
          else europe (zoom_of number_of nan e.zoom)))
        × (shown.zoomed ≡ Option.map number_of e.zoom)
  unfolding show_map set_view parse_coords
  show_map-view center =
      let start : MapState N L B = add_markers new_marker e.markers (init_map number_of nan e) in
      let none_set =
        ap (λ c. set_view number_of nan bounds e (parse_coords parse_float c) start) center in
      let (p, q) = fit_markers-view start in
      (
        ap (λ s. s.view) none_set
            ∙ p
            ∙ ap
                (λ ms.
                  if nonempty_list ms
                  then fitted (map (λ m. bounds m.layer) ms)
                  else europe (zoom_of number_of nan e.zoom))
                added_at_start.0,
        ap (λ s. s.zoomed) none_set ∙ q,
      )
