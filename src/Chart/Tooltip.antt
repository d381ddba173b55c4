-- ===== src/Chart/Tooltip.antt =====
-- bubbleTooltip of sqlpage/apexcharts.js: the elements that it builds, before `outerHTML`.
use mathlib.Core.Option
use sqlpage.Chart.Grouping.{YValue}
use sqlpage.Chart.Options.{ChartPoint}
use sqlpage.Prelude.{Option, none, some, List, [], ◌∷◌, ◌++◌, Text, codes}

-- An element with its tag, its class, its style, and the text that `innerText` sets or its children.
mutual
  pub data Html : Type 0 where
    with_text : (tag class : Text) → (style : List (Text × Text)) → (inner_text : Text) → Html
    with_children : (tag class : Text) → (style : List (Text × Text)) → Htmls → Html

  pub data Htmls : Type 0 where
    no_html : Htmls
    html : Html → Htmls → Htmls

-- `w.config.xaxis` and the like, with the title's text: an object or an array of them.
pub data AxisConf : Type 0 where
  axis : (title : Option Text) → AxisConf
  axes : List (Option Text) → AxisConf

-- `title || axis`
unfoldable pub title_or_axis : Text → Option Text → Text
title_or_axis name none = name
title_or_axis name (some []) = name
title_or_axis name (some (c ∷ cs)) = c ∷ cs

-- `axis_conf.title.text || axis`; `none` stands for the exception at an empty array.
unfoldable pub axis_title : Text → AxisConf → Option Text
unfolding title_or_axis
axis_title name (axis title) = some (title_or_axis name title)
axis_title name (axes []) = none
axis_title name (axes (title ∷ titles)) = some (title_or_axis name title)

-- The line of an axis, with its title and its value.
unfoldable pub axis_line : Text → Text → Html
axis_line title value = with_children (codes "div") (codes "apexcharts-tooltip-y-group") [] (
    html
      (with_text (codes "span") (codes "apexcharts-tooltip-text-y-label") [] (title ++ codes ": "))
      (html (with_text (codes "span") (codes "apexcharts-tooltip-text-y-value") [] value) no_html))

unfoldable pub titled_line : Option Text → Text → Option Htmls → Option Htmls
unfolding axis_line
titled_line none value rest = none
titled_line (some title) value none = none
titled_line (some title) value (some lines) = some (html (axis_line title value) lines)

-- The loop over the axes, from one axis on. A missing value has no line.
unfoldable pub append_axis : Text → AxisConf → Option Text → Option Htmls → Option Htmls
unfolding titled_line axis_title
append_axis name conf none rest = rest
append_axis name conf (some value) rest = titled_line (axis_title name conf) value rest

-- The texts of the values are those that JavaScript makes of them; null has none.
module _ {X N : Type 0} (x_text : X → Option Text) (y_text : YValue N → Option Text)
    (z_text : N → Text) where
  unfoldable pub axis_lines : (xaxis yaxis zaxis : AxisConf) → ChartPoint X N → Option Htmls
  unfolding append_axis
  axis_lines xaxis yaxis zaxis point = append_axis (codes "x") xaxis (x_text point.x) (
      append_axis (codes "y") yaxis (y_text point.y)
        (append_axis (codes "z") zaxis (Option.map z_text point.z) (some no_html)))

  unfoldable pub bubble_tooltip :
      (name : Text) → (xaxis yaxis zaxis : AxisConf) → ChartPoint X N → Option Html
  unfolding axis_lines
  bubble_tooltip name xaxis yaxis zaxis point =
      Option.map
        (λ lines.
          with_children (codes "div") (codes "apexcharts-tooltip-text")
            ((codes "fontFamily", codes "inherit") ∷ [])
            (html
              (with_text (codes "div") (codes "apexcharts-tooltip-y-group")
                ((codes "fontWeight", codes "bold") ∷ []) name)
              lines))
        (axis_lines xaxis yaxis zaxis point)
