-- ===== src/Chart/Options/Series/Shown.antt =====
-- That a chart gets options, and what its series show of the data.
use mathlib.Core.Option
use sqlpage.Prelude.{
  ◌<◌, ◌≡◌, refl, ap, ◌∙◌, Bool, true, false, ◌&&◌, ◌||◌, Option, none, some, List, [], ◌∷◌, map,
  length, ltb, Text, codes, text_eq, text_eq_iff, Eq, All, IsDistinct, Bool-cases, inl, inr, arith,
}
use sqlpage.Chart.Align.{Point, align_categories}
use sqlpage.Chart.Align
use sqlpage.Chart.Align.Values.{xs_of}
use sqlpage.Chart.Align.Kept.{align_categories-same_categories}
use sqlpage.Chart.Grouping.{
  XValue, number, YValue, single, ChartX, NamedSeries, is_inherited, chart_series,
}
use sqlpage.Chart.Grouping.Kept.{any_inherited, given, chart_series-given, chart_series-inherited}
use sqlpage.Chart.Grouping.Find.{points_of}
use sqlpage.Chart.Options.{
  ChartPoint, ChartData, is_type, ChartSeries, lines, ChartOptions, chart_options,
}
use sqlpage.Chart.Options.Series.{
  has_categories, to_align, from_align, y_truthy, align, choose_series, chart_point, prepare_series,
  prepare,
}

module _ {X N : Type 0} where
  -- The x values of a chart's series, in the order of its points.
  abbrev pub chart_xs : NamedSeries (ChartPoint X N) → List X
  chart_xs s = map (λ p. p.x) s.points

  xs-from_align :
      ⦃e : Eq X⦄ (points : List (Point X (YValue N)))
      → map (λ p. p.x) (from_align (record { name = []; points = points })).points ≡ xs_of points
  xs-from_align [] = refl
  xs-from_align (p ∷ points) = ap (p.x ∷◌) (xs-from_align points)

  All-from_align :
      ⦃e : Eq X⦄ (cs : List X) (rs : List (Align.Series X (YValue N)))
      → All (λ s. xs_of s.points ≡ cs) rs
      → All (λ s. chart_xs s ≡ cs) (map from_align rs)
  All-from_align cs [] a = tt
  All-from_align cs (s ∷ rs) (p, a) = (xs-from_align s.points ∙ p, All-from_align cs rs a)

  names-from_align :
      (rs : List (Align.Series X (YValue N)))
      → map (λ s. s.name) (map from_align rs) ≡ map (λ s. s.name) rs
  names-from_align [] = refl
  names-from_align (s ∷ rs) = ap (s.name ∷◌) (names-from_align rs)

  names-to_align :
      (ss : List (NamedSeries (ChartPoint X N)))
      → map (λ s. s.name) (map to_align ss) ≡ map (λ s. s.name) ss
  names-to_align [] = refl
  names-to_align (s ∷ ss) = ap (s.name ∷◌) (names-to_align ss)

module _ {N D : Type 0} (milliseconds : N → N) (date_of : XValue N → D) (time_of : XValue N → N)
    (d : ChartData N) where
  -- The points of a chart after the conversion of their values.
  abbrev pub chart_points :
      List (Text × ChartPoint (XValue N) N) → List (Text × ChartPoint (ChartX N D) N)
  chart_points points = map (chart_point milliseconds date_of time_of d) points

  any_inherited-chart_points :
      (points : List (Text × ChartPoint (XValue N) N))
      → any_inherited (chart_points points) ≡ any_inherited points
  unfolding chart_point
  any_inherited-chart_points [] = refl
  any_inherited-chart_points ((name, p) ∷ points) =
      ap (is_inherited name ||◌) (any_inherited-chart_points points)

  chart_points-given :
      any_inherited d.points ≡ false
      → (ss : List (NamedSeries (ChartPoint (ChartX N D) N))) × (chart_series
            (chart_points d.points)
          ≡ some ss)
        × ((n : Text) → points_of n ss ≡ given n (chart_points d.points))
  chart_points-given h =
      chart_series-given (chart_points d.points) (any_inherited-chart_points d.points ∙ h)

bar-pie : {N : Type 0} (d : ChartData N) → is_type d "bar" ≡ true → is_type d "pie" ≡ false
unfolding is_type text_eq
bar-pie d bar =
    let same : d.type ≡ codes "bar" = (text_eq_iff d.type (codes "bar")).0 bar in rw same refl

module _ {N D : Type 0} ⦃e : Eq (ChartX N D)⦄ (truthy : N → Bool) (zero : N) where
  align-same_categories :
      (ss : List (NamedSeries (ChartPoint (ChartX N D) N)))
      → (cs : List (ChartX N D)) × (rs : List (NamedSeries (ChartPoint (ChartX N D) N))) × (align
            truthy zero ss
          ≡ some rs)
        × All (λ s. chart_xs s ≡ cs) rs
        × (map (λ s. s.name) rs ≡ map (λ s. s.name) ss)
        × IsDistinct cs
  unfolding align
  align-same_categories ss =
      let (cs, rs, a, b, c, f, g) =
        align_categories-same_categories (y_truthy truthy) (single (number zero))
          (map to_align ss) in
      (
        cs,
        map from_align rs,
        ap (Option.map (map from_align)) a,
        All-from_align cs rs b,
        names-from_align rs ∙ c ∙ names-to_align ss,
        f,
      )

  choose_series-some :
      (d : ChartData N) (ss : List (NamedSeries (ChartPoint (ChartX N D) N)))
      → (r : ChartSeries (ChartX N D) N × Option (List (XValue N))) × (choose_series truthy zero d
            ss
          ≡ some r)
  unfolding choose_series
  choose_series-some d ss = elim (Bool-cases (is_type d "pie")) [
    | inl a ↦ rw a (_, refl)
    | inr a ↦ elim (Bool-cases (has_categories ss && is_type d "bar" && ltb 1 (length ss))) [
      | inl b ↦ let (cs, rs, s, a', b', c') = align-same_categories ss in rw (a, b, s) (_, refl)
      | inr b ↦ rw (a, b) (_, refl)
    ]
  ]

  choose_series-lines :
      (d : ChartData N) (ss : List (NamedSeries (ChartPoint (ChartX N D) N)))
      → is_type d "pie" ≡ false
      → is_type d "bar" ≡ false
      → choose_series truthy zero d ss ≡ some (lines ss, none)
  unfolding choose_series
  choose_series-lines d ss pie bar = elim (Bool-cases (has_categories ss)) [
    | inl h ↦ rw (pie, h, bar) refl
    | inr h ↦ rw (pie, h) refl
  ]

  choose_series-align :
      (d : ChartData N) (ss rs : List (NamedSeries (ChartPoint (ChartX N D) N)))
      → is_type d "bar" ≡ true
      → has_categories ss ≡ true
      → 1 < length ss
      → align truthy zero ss ≡ some rs
      → choose_series truthy zero d ss ≡ some (lines rs, none)
  unfolding choose_series
  choose_series-align d ss rs bar categories several aligned =
      let pie = bar-pie d bar in
      let more : ltb 1 (length ss) ≡ true = ground arith in
      rw (pie, categories, bar, more, aligned) refl

  -- With a series name that is that of a property of Object.prototype, there are no options.
  pub prepare-none :
      (milliseconds : N → N) (date_of : XValue N → D) (time_of : XValue N → N) (d : ChartData N)
      (is_dark_theme : Bool) (height : Text)
      → any_inherited d.points ≡ true
      → prepare truthy zero milliseconds date_of time_of d is_dark_theme height ≡ none
  unfolding prepare prepare_series
  prepare-none milliseconds date_of time_of d is_dark_theme height h =
      ap (prepare_series truthy zero d is_dark_theme height) (
        chart_series-inherited (chart_points milliseconds date_of time_of d d.points)
          (any_inherited-chart_points milliseconds date_of time_of d d.points ∙ h))

  module _ (milliseconds : N → N) (date_of : XValue N → D) (time_of : XValue N → N)
      (d : ChartData N) (is_dark_theme : Bool) (height : Text)
      (valid : any_inherited d.points ≡ false) where
    -- If no series name is that of a property of Object.prototype, the chart gets its options.
    pub prepare-some :
        (o : ChartOptions (ChartX N D) N) × (prepare truthy zero milliseconds date_of time_of d
            is_dark_theme height
          ≡ some o)
    unfolding prepare prepare_series
    prepare-some =
        let (ss, made, points) = chart_points-given milliseconds date_of time_of d valid in
        let (r, chosen) = choose_series-some d ss in rw (made, chosen) (_, refl)

    -- A chart that is neither a pie nor of bars, if no series name is that of a property of
    -- Object.prototype, gets the series of all the points: that of each name has the points that were
    -- given with the name, in their order, with their values converted.
    pub prepare-lines :
        is_type d "pie" ≡ false
        → is_type d "bar" ≡ false
        → (o : ChartOptions (ChartX N D) N) × (ss : List (NamedSeries (ChartPoint (ChartX N D) N)))
          × (prepare truthy zero milliseconds date_of time_of d is_dark_theme height ≡ some o)
          × (o.series ≡ lines ss)
          × ((n : Text)
              → points_of n ss ≡ given n (chart_points milliseconds date_of time_of d d.points))
    unfolding prepare prepare_series chart_options
    prepare-lines pie bar =
        let (ss, made, points) = chart_points-given milliseconds date_of time_of d valid in
        let chosen = choose_series-lines d ss pie bar in
        rw (made, chosen) (_, ss, refl, refl, points)

    -- A chart of bars in two or more series, the first of which starts at a text, if no series name
    -- is that of a property of Object.prototype, gets its series with all the same x values, each once.
    pub prepare-bars :
        (ss : List (NamedSeries (ChartPoint (ChartX N D) N)))
        → is_type d "bar" ≡ true
        → chart_series (chart_points milliseconds date_of time_of d d.points) ≡ some ss
        → has_categories ss ≡ true
        → 1 < length ss
        → (o : ChartOptions (ChartX N D) N) × (rs : List (NamedSeries (ChartPoint (ChartX N D) N)))
          × (cs : List (ChartX N D)) × (prepare truthy zero milliseconds date_of time_of d
                is_dark_theme height
              ≡ some o)
          × (o.series ≡ lines rs)
          × All (λ s. chart_xs s ≡ cs) rs
          × (map (λ s. s.name) rs ≡ map (λ s. s.name) ss)
          × IsDistinct cs
    unfolding prepare prepare_series chart_options
    prepare-bars ss bar made categories several =
        let (cs, rs, aligned, same, names, distinct) = align-same_categories ss in
        let chosen = choose_series-align d ss rs bar categories several aligned in
        rw (made, chosen) (_, rs, cs, refl, refl, same, names, distinct)
