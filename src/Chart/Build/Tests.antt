-- ===== src/Chart/Build/Tests.antt =====
-- Runs of the charts of a page of sqlpage/apexcharts.js, and the theorems at concrete inputs. Numbers
-- and dates are natural numbers here.
use sqlpage.Prelude.{
  if◌then◌else◌, sym, ℕ, ◌+◌, ◌*◌, ◌≡◌, ◌↔◌, refl, ap, Bool, true, false, not, ◌==◌, ==_iff, Option,
  none, some, List, [], ◌∷◌, map, get_elem?, Text, codes, text_eq, text_eq_iff, Eq, All, IsDistinct,
}
use sqlpage.Chart.Grouping.{
  XValue, number, text, flag, null, single, ChartX, plain, date, NamedSeries, is_inherited,
  chart_series,
}
use sqlpage.Chart.Grouping.Kept.{given}
use sqlpage.Chart.Grouping.Find.{points_of}
use sqlpage.Chart.Options.{ChartPoint, ChartData, ChartOptions, lines, is_type}
use sqlpage.Chart.Options.Series.{has_categories, prepare, chart_point}
use sqlpage.Chart.Options.Series.Shown.{chart_xs, chart_points, prepare-lines, prepare-bars}
use sqlpage.Chart.Build.{spinner, drawn, empty, ChartElement, ChartPage, sqlpage_chart}
use sqlpage.Chart.Build.Alone.{failed_page, waiting, sqlpage_chart-again}
use sqlpage.Chart.Build.Drawn.{options_of, sqlpage_chart-drawn, sqlpage_chart-inherited}

abbrev same_value : XValue ℕ → XValue ℕ → Bool
same_value (number m) (number n) = m == n
same_value (text s) (text t) = text_eq s t
same_value (flag a) (flag b) = if a then b else not b
same_value null null = true
same_value (number x) (text y) = false
same_value (number x) (flag y) = false
same_value (number x) null = false
same_value (text x) (number y) = false
same_value (text x) (flag y) = false
same_value (text x) null = false
same_value (flag x) (number y) = false
same_value (flag x) (text y) = false
same_value (flag x) null = false
same_value null (number y) = false
same_value null (text y) = false
same_value null (flag y) = false

same_value_iff : (x y : XValue ℕ) → (same_value x y ≡ true) ↔ (x ≡ y)
same_value_iff (number m) (number n) =
    ((λ h. ap number ((==_iff m n).0 h)), (λ h. (==_iff m n).1 cc))
same_value_iff (text s) (text t) =
    ((λ h. ap text ((text_eq_iff s t).0 h)), (λ h. (text_eq_iff s t).1 cc))
same_value_iff (flag true) (flag b) = ((λ h. ap flag (sym h)), (λ h. cc))
same_value_iff (flag false) (flag true) = ((λ h. cc), (λ h. cc))
same_value_iff (flag false) (flag false) = ((λ h. refl), (λ h. refl))
same_value_iff null null = ((λ h. refl), (λ h. refl))
same_value_iff (number x) (text y) = ((λ h. cc), (λ h. cc))
same_value_iff (number x) (flag y) = ((λ h. cc), (λ h. cc))
same_value_iff (number x) null = ((λ h. cc), (λ h. cc))
same_value_iff (text x) (number y) = ((λ h. cc), (λ h. cc))
same_value_iff (text x) (flag y) = ((λ h. cc), (λ h. cc))
same_value_iff (text x) null = ((λ h. cc), (λ h. cc))
same_value_iff (flag x) (number y) = ((λ h. cc), (λ h. cc))
same_value_iff (flag x) (text y) = ((λ h. cc), (λ h. cc))
same_value_iff (flag x) null = ((λ h. cc), (λ h. cc))
same_value_iff null (number y) = ((λ h. cc), (λ h. cc))
same_value_iff null (text y) = ((λ h. cc), (λ h. cc))
same_value_iff null (flag y) = ((λ h. cc), (λ h. cc))

abbrev same_x : ChartX ℕ ℕ → ChartX ℕ ℕ → Bool
same_x (plain x) (plain y) = same_value x y
same_x (date m) (date n) = m == n
same_x (plain x) (date n) = false
same_x (date m) (plain y) = false

same_x_iff : (x y : ChartX ℕ ℕ) → (same_x x y ≡ true) ↔ (x ≡ y)
same_x_iff (plain x) (plain y) =
    ((λ h. ap plain ((same_value_iff x y).0 h)), (λ h. (same_value_iff x y).1 cc))
same_x_iff (date m) (date n) = ((λ h. ap date ((==_iff m n).0 h)), (λ h. (==_iff m n).1 cc))
same_x_iff (plain x) (date n) = ((λ h. cc), (λ h. cc))
same_x_iff (date m) (plain y) = ((λ h. cc), (λ h. cc))

instance eq_x : Eq (ChartX ℕ ℕ)
eq_x = record { beq = same_x; beq_iff = same_x_iff }

abbrev truthy : ℕ → Bool
truthy n = not (n == 0)

abbrev milliseconds : ℕ → ℕ
milliseconds n = n * 1000

abbrev date_of : XValue ℕ → ℕ
date_of (number n) = n
date_of (text s) = 0
date_of (flag b) = if b then 1 else 0
date_of null = 0

abbrev time_of : XValue ℕ → ℕ
time_of = date_of

abbrev at : Text → Text → ℕ → Text × ChartPoint (XValue ℕ) ℕ
at name x y = (name, record { x = text x; y = single (number y); z = none })

-- A chart of a type with the points of two series.
abbrev chart_of : Text → ChartData ℕ
chart_of type = record {
  type = type;
  time = false;
  stacked = false;
  toolbar = false;
  labels = false;
  logarithmic = false;
  horizontal = false;
  xmin = none;
  xmax = none;
  ymin = none;
  ymax = none;
  xticks = none;
  yticks = none;
  ystep = none;
  marker = none;
  xtitle = [];
  ytitle = [];
  ztitle = [];
  colors = [];
  points =
      at (codes "B") (codes "Q1") 3
      ∷ at (codes "A") (codes "Q1") 5
      ∷ at (codes "B") (codes "Q2") 4
      ∷ [];
}

abbrev line_chart : ChartData ℕ
line_chart = chart_of (codes "line")

abbrev bar_chart : ChartData ℕ
bar_chart = chart_of (codes "bar")

abbrev converted : ChartData ℕ → List (Text × ChartPoint (ChartX ℕ ℕ) ℕ)
converted d = chart_points milliseconds date_of time_of d d.points

abbrev series : Text → List (ChartPoint (ChartX ℕ ℕ) ℕ) → NamedSeries (ChartPoint (ChartX ℕ ℕ) ℕ)
series name points = record { name = name; points = points }

abbrev point : Text → ℕ → ChartPoint (ChartX ℕ ℕ) ℕ
point x y = record { x = plain (text x); y = single (number y); z = none }

abbrev bar_series : List (NamedSeries (ChartPoint (ChartX ℕ ℕ) ℕ))
bar_series =
    series (codes "B") (point (codes "Q1") 3 ∷ point (codes "Q2") 4 ∷ [])
    ∷ series (codes "A") (point (codes "Q1") 5 ∷ [])
    ∷ []

bar_series-chart_series : chart_series (converted bar_chart) ≡ some bar_series
unfolding chart_series chart_point is_type text_eq
bar_series-chart_series = refl

abbrev accepts : ChartOptions (ChartX ℕ ℕ) ℕ → Bool
accepts o = true

abbrev options : ChartData ℕ → Text → Option (ChartOptions (ChartX ℕ ℕ) ℕ)
options = options_of truthy 0 milliseconds date_of time_of false accepts

abbrev element : Option (ChartData ℕ) → ChartElement (ChartData ℕ) (ChartOptions (ChartX ℕ ℕ) ℕ)
element json = record { waiting = true; json = json; height = codes "250px"; content = spinner }

-- A chart whose JSON is broken, before one of lines.
abbrev page : ChartPage (ChartData ℕ) (ChartOptions (ChartX ℕ ℕ) ℕ)
page = record { elements = element none ∷ element (some line_chart) ∷ []; charts = []; errors = 0 }

prepare-lines_example :
    (o : ChartOptions (ChartX ℕ ℕ) ℕ) × (ss : List (NamedSeries (ChartPoint (ChartX ℕ ℕ) ℕ)))
    × (prepare truthy 0 milliseconds date_of time_of line_chart true (codes "250px") ≡ some o)
    × (o.series ≡ lines ss)
    × ((n : Text) → points_of n ss ≡ given n (converted line_chart))
prepare-lines_example =
    prepare-lines truthy 0 milliseconds date_of time_of line_chart true (codes "250px")
      (unfold is_inherited text_eq in refl) (unfold is_type text_eq in refl)
      (unfold is_type text_eq in refl)

prepare-bars_example :
    (o : ChartOptions (ChartX ℕ ℕ) ℕ) × (rs : List (NamedSeries (ChartPoint (ChartX ℕ ℕ) ℕ)))
    × (cs : List (ChartX ℕ ℕ)) × (prepare truthy 0 milliseconds date_of time_of bar_chart true
          (codes "250px")
        ≡ some o)
    × (o.series ≡ lines rs)
    × All (λ s. chart_xs s ≡ cs) rs
    × (map (λ s. s.name) rs ≡ map (λ s. s.name) bar_series)
    × IsDistinct cs
prepare-bars_example =
    prepare-bars truthy 0 milliseconds date_of time_of bar_chart true (codes "250px")
      (unfold is_inherited text_eq in refl) bar_series (unfold is_type text_eq in refl)
      bar_series-chart_series (unfold has_categories in refl) (omega sqlpage.Prelude.arith)

sqlpage_chart-drawn_example :
    (o : ChartOptions (ChartX ℕ ℕ) ℕ) × (options line_chart (codes "250px") ≡ some o)
    × (get_elem? (sqlpage_chart options accepts page).elements 1
        ≡ some (record (element (some line_chart)) {
          waiting = false;
          json = none;
          content = drawn o;
        }))
sqlpage_chart-drawn_example =
    sqlpage_chart-drawn truthy 0 milliseconds date_of time_of false accepts page 1
      (element (some line_chart)) line_chart refl refl refl (unfold is_inherited text_eq in refl)
      (λ o made. refl)

sqlpage_chart-again_example :
    sqlpage_chart options accepts (sqlpage_chart options accepts page)
    ≡ failed_page
        (sqlpage_chart options accepts page).elements
        (sqlpage_chart options accepts page).charts
        ((sqlpage_chart options accepts page).errors
          + waiting (sqlpage_chart options accepts page).elements)
sqlpage_chart-again_example = sqlpage_chart-again options accepts page

-- A chart with a series named "constructor", behind one that is drawn.
abbrev constructor_chart : ChartData ℕ
constructor_chart = record line_chart { points = at (codes "constructor") (codes "Q1") 3 ∷ [] }

abbrev failing_page : ChartPage (ChartData ℕ) (ChartOptions (ChartX ℕ ℕ) ℕ)
failing_page = record page {
  elements = element (some line_chart) ∷ element (some constructor_chart) ∷ [];
}

sqlpage_chart-inherited_example :
    get_elem? (sqlpage_chart options accepts failing_page).elements 1
    ≡ some (record (element (some constructor_chart)) { json = none; content = empty })
sqlpage_chart-inherited_example =
    sqlpage_chart-inherited truthy 0 milliseconds date_of time_of false accepts failing_page 1
      (element (some constructor_chart)) constructor_chart refl refl refl
      (unfold is_inherited text_eq in refl)
