-- ===== src/Chart/Data.antt =====
-- The data of a chart that build_sqlpage_chart of sqlpage/apexcharts.js reads from the page.
use sqlpage.Prelude.{Bool, Option, none, some, List, [], ◌∷◌, Text, codes, text_eq}
use sqlpage.Chart.Grouping.{XValue, YValue}
use Prim.Native.String.{String}

-- A point of a series, as the loop over the points makes it.
pub record ChartPoint (X : Type 0) (N : Type 0) : Type 0 where
  pub x : X
  pub y : YValue N
  pub z : Option N

-- The JSON of a chart. A text that is missing is empty, and flags are read as JavaScript's tests
-- read them. `points` has the series name, x, y and z of each point.
pub record ChartData (N : Type 0) : Type 0 where
  pub type : Text
  pub time : Bool
  pub stacked : Bool
  pub toolbar : Bool
  pub labels : Bool
  pub logarithmic : Bool
  pub horizontal : Bool
  pub xmin : Option N
  pub xmax : Option N
  pub ymin : Option N
  pub ymax : Option N
  pub xticks : Option N
  pub yticks : Option N
  pub ystep : Option N
  pub marker : Option N
  pub xtitle : Text
  pub ytitle : Text
  pub ztitle : Text
  pub colors : List Text
  pub points : List (Text × ChartPoint (XValue N) N)

-- `data.type === type`
unfoldable pub is_type : {N : Type 0} → ChartData N → String → Bool
is_type d type = text_eq d.type (codes type)

-- `text || undefined`
unfoldable pub or_undefined : Text → Option Text
or_undefined [] = none
or_undefined (c ∷ cs) = some (c ∷ cs)
