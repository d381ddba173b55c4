-- ===== src/Chart/Options.antt =====
-- The options that build_sqlpage_chart of sqlpage/apexcharts.js hands to ApexCharts. JavaScript's
-- numbers and dates are of any types, `truthy` is the test that `||` and `if` make on a number, and
-- an Option of a number is `none` where the number is null or undefined.
pub mod Series
pub mod Labels
pub use sqlpage.Chart.Data.{ChartPoint, ChartData}
unfoldable pub use sqlpage.Chart.Data.{is_type, or_undefined}
use sqlpage.Prelude.{
  ℕ, Bool, true, false, ◌&&◌, ◌||◌, Option, none, some, List, [], ◌∷◌, map, if◌then◌else◌, Text,
  codes, text_eq, nonempty,
}
use sqlpage.Chart.Grouping.{XValue, YValue, NamedSeries, is_inherited}
use sqlpage.Chart.Palette.{Color, chart_colors}
use Prim.Native.String.{String}
pub use sqlpage.Chart.Sections.{
  ChartSection, LabelFormat, series_name, slice_percentage, locale_string, DataLabels, StrokeWidth,
  Stroke, XAxis, YAxis, Markers, Tooltip, PlotOptions,
}
unfoldable pub use sqlpage.Chart.Sections.{
  chart_section, data_labels, stroke, xaxis, yaxis, markers, tooltip, plot_options,
}

-- The series of a chart: a list of series, or the sizes of the slices of a pie.
pub data ChartSeries (X : Type 0) (N : Type 0) : Type 0 where
  lines : List (NamedSeries (ChartPoint X N)) → ChartSeries X N
  slices : List (YValue N) → ChartSeries X N

pub record ChartOptions (X : Type 0) (N : Type 0) : Type 0 where
  pub chart : ChartSection
  pub palette : Text
  pub data_labels : DataLabels
  pub fill : Text
  pub stroke : Stroke
  pub xaxis : XAxis N
  pub yaxis : YAxis N
  pub zaxis_title : Option Text
  pub markers : Markers N
  pub tooltip : Tooltip
  pub plot_options : PlotOptions
  pub colors : List Color
  pub series : ChartSeries X N
  pub labels : Option (List (XValue N))

unfoldable pub chart_options :
    {X N : Type 0}
    → (N → Bool)
    → N
    → (is_dark_theme : Bool) → ChartData N
    → (height : Text) → (categories : Bool) → ChartSeries X N × Option (List (XValue N))
    → ChartOptions X N
unfolding chart_section data_labels is_type stroke xaxis yaxis markers tooltip plot_options
    or_undefined
chart_options truthy zero is_dark_theme d height categories (series, labels) =
    let chart = chart_section d height in
    record {
      chart = chart;
      palette = codes "palette4";
      data_labels = data_labels d;
      fill = if is_type d "area" then codes "gradient" else codes "solid";
      stroke = stroke chart.type;
      xaxis = xaxis truthy d categories;
      yaxis = yaxis d;
      zaxis_title = or_undefined d.ztitle;
      markers = markers truthy zero d;
      tooltip = tooltip d;
      plot_options = plot_options d;
      colors = chart_colors is_dark_theme d.colors;
      series = series;
      labels = labels;
    }
