-- ===== src/Chart/Options/Series.antt =====
-- Which series and labels build_sqlpage_chart of sqlpage/apexcharts.js gives to a chart, from the
-- data to the options.
pub mod Shown
use mathlib.Core.Option
use sqlpage.Prelude.{
  Bool, true, false, ◌&&◌, Option, none, some, List, [], ◌∷◌, map, length, ltb, if◌then◌else◌, Text,
  nonempty, Eq,
}
use sqlpage.Chart.Align.{Point, align_categories}
use sqlpage.Chart.Align
use sqlpage.Chart.Grouping.{
  XValue, number, text, flag, null, YValue, single, range, ChartX, plain, date, convert_point,
  NamedSeries, chart_series,
}
use sqlpage.Chart.Options.{
  ChartPoint, ChartData, is_type, ChartSeries, lines, slices, ChartOptions, chart_options,
}

-- `typeof series[0].data[0].x === "string"`. A series has a point, since it is made with one.
unfoldable pub point_is_text : {N D : Type 0} → List (ChartPoint (ChartX N D) N) → Bool
point_is_text [] = false
point_is_text (p ∷ ps) = elim p.x [
  | plain x ↦ elim x [ text s ↦ true | number n ↦ false | flag b ↦ false | null ↦ false ]
  | date d ↦ false
]

unfoldable pub has_categories :
    {N D : Type 0} → List (NamedSeries (ChartPoint (ChartX N D) N)) → Bool
unfolding point_is_text
has_categories [] = false
has_categories (s ∷ ss) = point_is_text s.points

-- A series as align_categories reads it, and one as it returns it, whose points have no z.
abbrev pub to_align : {X N : Type 0} → NamedSeries (ChartPoint X N) → Align.Series X (YValue N)
to_align s = record { name = s.name; points = map (λ p. record { x = p.x; y = p.y }) s.points }

abbrev pub from_align : {X N : Type 0} → Align.Series X (YValue N) → NamedSeries (ChartPoint X N)
from_align s = record {
  name = s.name;
  points = map (λ p. record { x = p.x; y = p.y; z = none }) s.points;
}

module _ {N : Type 0} (truthy : N → Bool) where
  abbrev pub y_truthy : YValue N → Bool
  y_truthy (single y) = elim y [
    | number n ↦ truthy n
    | text s ↦ nonempty s
    | flag b ↦ b
    | null ↦ false
  ]
  y_truthy (range ns) = true

  -- `x || name`
  unfoldable pub label_of : Text × ChartPoint (XValue N) N → XValue N
  label_of (name, p) = elim p.x [
    | number n ↦ if truthy n then number n else text name
    | text s ↦ if nonempty s then text s else text name
    | flag b ↦ if b then flag true else text name
    | null ↦ text name
  ]

module _ {N D : Type 0} (milliseconds : N → N) (date_of : XValue N → D)
    (time_of : XValue N → N) where
  -- A step of the loop over `data.points`: its name, and its values after the conversion.
  unfoldable pub chart_point :
      ChartData N → Text × ChartPoint (XValue N) N → Text × ChartPoint (ChartX N D) N
  unfolding convert_point
  chart_point d (name, p) =
      let (x, y) =
        convert_point milliseconds date_of time_of d.time (is_type d "rangeBar") p.x p.y in
      (name, record { x = x; y = y; z = p.z })

module _ {N D : Type 0} ⦃e : Eq (ChartX N D)⦄ (truthy : N → Bool) (zero : N) where
  unfoldable pub align :
      List (NamedSeries (ChartPoint (ChartX N D) N))
      → Option (List (NamedSeries (ChartPoint (ChartX N D) N)))
  align ss =
      Option.map (map from_align)
        (align_categories (y_truthy truthy) (single (number zero)) (map to_align ss))

  unfoldable pub choose_series :
      ChartData N
      → List (NamedSeries (ChartPoint (ChartX N D) N))
      → Option (ChartSeries (ChartX N D) N × Option (List (XValue N)))
  unfolding align
  choose_series d ss =
      if is_type d "pie"
      then some (slices (map (λ point. point.1.y) d.points), some (map (label_of truthy) d.points))
      else if has_categories ss && is_type d "bar" && ltb 1 (length ss)
      then Option.map (λ rs. (lines rs, none)) (align ss)
      else some (lines ss, none)

  -- The options of a chart with its series; `none` stands for an exception.
  unfoldable pub prepare_series :
      ChartData N
      → Bool
      → Text
      → Option (List (NamedSeries (ChartPoint (ChartX N D) N)))
      → Option (ChartOptions (ChartX N D) N)
  prepare_series d is_dark_theme height none = none
  prepare_series d is_dark_theme height (some ss) =
      Option.map (chart_options truthy zero is_dark_theme d height (has_categories ss))
        (choose_series d ss)

  unfoldable pub prepare :
      (milliseconds : N → N)
      → (XValue N → D)
      → (time_of : XValue N → N) → ChartData N
      → Bool
      → Text
      → Option (ChartOptions (ChartX N D) N)
  prepare milliseconds date_of time_of d is_dark_theme height =
      prepare_series d is_dark_theme height
        (chart_series (map (chart_point milliseconds date_of time_of d) d.points))
