-- ===== src/Chart/Sections.antt =====
-- The sections of the options that build_sqlpage_chart of sqlpage/apexcharts.js makes from the data of
-- a chart, with the options that are the same for every chart.
use sqlpage.Prelude.{
  ℕ, Bool, true, false, ◌&&◌, ◌||◌, Option, none, some, if◌then◌else◌, Text, codes, text_eq,
  nonempty,
}
use sqlpage.Chart.Data.{ChartData, is_type, or_undefined}
use sqlpage.Chart.Grouping.{is_inherited}

pub record ChartSection : Type 0 where
  pub type : Text
  pub font_family : Text
  pub parent_height_offset : ℕ
  pub height : Text
  pub stacked : Bool
  pub toolbar_show : Bool
  pub animations_enabled : Bool
  pub zoom_enabled : Bool

unfoldable pub chart_section : {N : Type 0} → ChartData N → Text → ChartSection
chart_section d height = record {
  type = if nonempty d.type then d.type else codes "line";
  font_family = codes "inherit";
  parent_height_offset = 0;
  height = height;
  stacked = d.stacked;
  toolbar_show = d.toolbar;
  animations_enabled = false;
  zoom_enabled = false;
}

-- The three functions that `dataLabels.formatter` can be.
pub data LabelFormat : Type 0 where
  series_name : LabelFormat
  slice_percentage : LabelFormat
  locale_string : LabelFormat

pub record DataLabels : Type 0 where
  pub enabled : Bool
  pub drop_shadow_enabled : Bool
  pub drop_shadow_color : Text
  pub formatter : LabelFormat

unfoldable pub data_labels : {N : Type 0} → ChartData N → DataLabels
unfolding is_type
data_labels d = record {
  enabled = d.labels;
  drop_shadow_enabled = false;
  drop_shadow_color = codes "var(--tblr-primary-bg-subtle)";
  formatter =
      if is_type d "rangeBar"
      then series_name
      else if is_type d "pie"
      then slice_percentage
      else locale_string;
}

-- `{ area: 3, line: 2 }[chart_type] || 0`, which can also be what every object inherits.
pub data StrokeWidth : Type 0 where
  pixels : ℕ → StrokeWidth
  inherited_property : StrokeWidth

pub record Stroke : Type 0 where
  pub width : StrokeWidth
  pub line_cap : Text
  pub curve : Text

unfoldable pub stroke_width : Text → StrokeWidth
unfolding is_inherited
stroke_width chart_type =
    if text_eq chart_type (codes "area")
    then pixels 3
    else if text_eq chart_type (codes "line")
    then pixels 2
    else if is_inherited chart_type
    then inherited_property
    else pixels 0

unfoldable pub stroke : Text → Stroke
unfolding stroke_width
stroke chart_type = record {
  width = stroke_width chart_type;
  line_cap = codes "round";
  curve = codes "smooth";
}

-- The type of the x axis, `none` for undefined.
unfoldable pub xaxis_type : Bool → Bool → Option Text
xaxis_type true categories = some (codes "datetime")
xaxis_type false true = some (codes "category")
xaxis_type false false = none

pub record XAxis (N : Type 0) : Type 0 where
  pub tooltip_enabled : Bool
  pub min : Option N
  pub max : Option N
  pub title : Option Text
  pub type : Option Text
  pub datetime_utc : Bool
  pub tick_amount : Option N

-- With `options.xaxis.tickAmount`, which is set only where `data.xticks` counts as true.
unfoldable pub xaxis : {N : Type 0} → (N → Bool) → ChartData N → Bool → XAxis N
unfolding xaxis_type or_undefined
xaxis truthy d categories = record {
  tooltip_enabled = false;
  min = d.xmin;
  max = d.xmax;
  title = or_undefined d.xtitle;
  type = xaxis_type d.time categories;
  datetime_utc = false;
  tick_amount = elim d.xticks [ none ↦ none | some n ↦ if truthy n then some n else none ];
}

pub record YAxis (N : Type 0) : Type 0 where
  pub logarithmic : Bool
  pub min : Option N
  pub max : Option N
  pub step_size : Option N
  pub tick_amount : Option N
  pub title : Option Text

unfoldable pub yaxis : {N : Type 0} → ChartData N → YAxis N
unfolding or_undefined
yaxis d = record {
  logarithmic = d.logarithmic;
  min = d.ymin;
  max = d.ymax;
  step_size = d.ystep;
  tick_amount = d.yticks;
  title = or_undefined d.ytitle;
}

pub record Markers (N : Type 0) : Type 0 where
  pub size : N
  pub stroke_width : ℕ
  pub hover_size_offset : ℕ

-- `zero` is the number 0.
unfoldable pub markers : {N : Type 0} → (N → Bool) → N → ChartData N → Markers N
markers truthy zero d = record {
  size = elim d.marker [ none ↦ zero | some n ↦ if truthy n then n else zero ];
  stroke_width = 0;
  hover_size_offset = 5;
}

-- `bubble_tooltip` tells whether `custom` is bubbleTooltip, and `dates` whether the formatter of y
-- shows dates.
pub record Tooltip : Type 0 where
  pub fill_series_color : Bool
  pub bubble_tooltip : Bool
  pub dates : Bool

unfoldable pub tooltip : {N : Type 0} → ChartData N → Tooltip
unfolding is_type
tooltip d = record {
  fill_series_color = false;
  bubble_tooltip = is_type d "bubble" || is_type d "scatter";
  dates = d.time && is_type d "rangeBar";
}

pub record PlotOptions : Type 0 where
  pub horizontal : Bool
  pub border_radius : ℕ
  pub min_bubble_radius : ℕ

unfoldable pub plot_options : {N : Type 0} → ChartData N → PlotOptions
unfolding is_type
plot_options d = record {
  horizontal = d.horizontal || is_type d "rangeBar";
  border_radius = 5;
  min_bubble_radius = 5;
}
