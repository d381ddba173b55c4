-- ===== src/Chart/Build/Drawn.antt =====
-- That a page draws its charts: build_sqlpage_chart with the options of Chart/Options.
use sqlpage.Prelude.{
  ℕ, ◌≡◌, refl, ap, ◌∙◌, Bool, true, false, Option, none, some, get_elem?, get_elem?-map, Text, Eq,
  if◌then◌else◌,
}
use sqlpage.Chart.Grouping.{XValue, ChartX}
use sqlpage.Chart.Grouping.Kept.{any_inherited}
use sqlpage.Chart.Options.{ChartData, ChartOptions}
use sqlpage.Chart.Options.Series.{prepare}
use sqlpage.Chart.Options.Series.Shown.{prepare-some, prepare-none}
use sqlpage.Chart.Build.{
  drawn, empty, ChartElement, ChartPage, draw, build_sqlpage_chart, sqlpage_chart,
}
use sqlpage.Chart.Build.Alone.{alone, sqlpage_chart-alone}

module _ {N D : Type 0} ⦃e : Eq (ChartX N D)⦄ (truthy : N → Bool) (zero : N) (milliseconds : N → N)
    (date_of : XValue N → D) (time_of : XValue N → N) (is_dark_theme : Bool)
    (accepts : ChartOptions (ChartX N D) N → Bool) where
  abbrev pub options_of : ChartData N → Text → Option (ChartOptions (ChartX N D) N)
  options_of d height = prepare truthy zero milliseconds date_of time_of d is_dark_theme height

  alone-drawn :
      (c : ChartElement (ChartData N) (ChartOptions (ChartX N D) N)) (d : ChartData N)
      (o : ChartOptions (ChartX N D) N)
      → c.waiting ≡ true
      → c.json ≡ some d
      → options_of d c.height ≡ some o
      → accepts o ≡ true
      → alone options_of accepts c ≡ record c { waiting = false; json = none; content = drawn o }
  unfolding build_sqlpage_chart draw
  alone-drawn c d o w j made a =
      ap (λ b. if b then (build_sqlpage_chart options_of accepts c c.json).0 else c) w
      ∙ ap (λ j. (build_sqlpage_chart options_of accepts c j).0) j
      ∙ ap (λ o. (draw options_of accepts c o).0) made
      ∙ rw a refl

  alone-failed :
      (c : ChartElement (ChartData N) (ChartOptions (ChartX N D) N)) (d : ChartData N)
      → c.waiting ≡ true
      → c.json ≡ some d
      → options_of d c.height ≡ none
      → alone options_of accepts c ≡ record c { json = none; content = empty }
  unfolding build_sqlpage_chart draw
  alone-failed c d w j failed =
      ap (λ b. if b then (build_sqlpage_chart options_of accepts c c.json).0 else c) w
      ∙ ap (λ j. (build_sqlpage_chart options_of accepts c j).0) j
      ∙ ap (λ o. (draw options_of accepts c o).0) failed

  -- A chart on the page that waits, with a point whose series name is that of a property of
  -- Object.prototype, is not drawn by a call of sqlpage_chart, whatever ApexCharts accepts: it still
  -- waits, with an empty container and no data.
  pub sqlpage_chart-inherited :
      (p : ChartPage (ChartData N) (ChartOptions (ChartX N D) N)) (i : ℕ)
      (c : ChartElement (ChartData N) (ChartOptions (ChartX N D) N)) (d : ChartData N)
      → get_elem? p.elements i ≡ some c
      → c.waiting ≡ true
      → c.json ≡ some d
      → any_inherited d.points ≡ true
      → get_elem? (sqlpage_chart options_of accepts p).elements i
        ≡ some (record c { json = none; content = empty })
  sqlpage_chart-inherited p i c d at w j h =
      ap (λ es. get_elem? es i) (sqlpage_chart-alone options_of accepts p).0
      ∙ get_elem?-map (alone options_of accepts) p.elements i c at
      ∙ ap some (
          alone-failed c d w j
            (prepare-none truthy zero milliseconds date_of time_of d is_dark_theme c.height h))

  -- A chart on the page that waits, with data in which no series name is that of a property of
  -- Object.prototype, is drawn by a call of sqlpage_chart, whatever the other charts are, if
  -- ApexCharts accepts its options.
  pub sqlpage_chart-drawn :
      (p : ChartPage (ChartData N) (ChartOptions (ChartX N D) N)) (i : ℕ)
      (c : ChartElement (ChartData N) (ChartOptions (ChartX N D) N)) (d : ChartData N)
      → get_elem? p.elements i ≡ some c
      → c.waiting ≡ true
      → c.json ≡ some d
      → any_inherited d.points ≡ false
      → ((o : ChartOptions (ChartX N D) N) → options_of d c.height ≡ some o → accepts o ≡ true)
      → (o : ChartOptions (ChartX N D) N) × (options_of d c.height ≡ some o)
        × (get_elem? (sqlpage_chart options_of accepts p).elements i
            ≡ some (record c { waiting = false; json = none; content = drawn o }))
  sqlpage_chart-drawn p i c d at w j valid accepted =
      let (o, made) =
        prepare-some truthy zero milliseconds date_of time_of d is_dark_theme c.height valid in
      (
        o,
        made,
        ap (λ es. get_elem? es i) (sqlpage_chart-alone options_of accepts p).0
            ∙ get_elem?-map (alone options_of accepts) p.elements i c at
            ∙ ap some (alone-drawn c d o w j made (accepted o made)),
      )
