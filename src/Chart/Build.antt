-- ===== src/Chart/Build.antt =====
-- build_sqlpage_chart and the loop of sqlpage/apexcharts.js over the charts of a page, for any
-- options: `prepare` makes the options of a chart, or throws, for which `none` stands, and `accepts`
-- tells whether ApexCharts draws them without an exception.
pub mod Alone
pub mod Drawn
mod Tests
use sqlpage.Prelude.{
  ℕ, suc, ◌+◌, ◌≡◌, refl, ap, ◌∙◌, Bool, true, false, Option, none, some, List, [], ◌∷◌, ◌++◌, map,
  length, append_assoc, append-nil, if◌then◌else◌, Text, Bool-cases, inl, inr, arith,
}

-- What the container of a chart shows: the spinner of the server's HTML, nothing, or the chart.
pub data Content (O : Type 0) : Type 0 where
  spinner : Content O
  empty : Content O
  drawn : O → Content O

-- A chart on the page: `waiting` is whether it has `data-pre-init`, `json` is the value of its element
-- <data>, `none` where that is missing or is no JSON, and `height` is the style of its container.
pub record ChartElement (J : Type 0) (O : Type 0) : Type 0 where
  pub waiting : Bool
  pub json : Option J
  pub height : Text
  pub content : Content O

-- The charts on the page, `window.charts`, empty where it is undefined, and the number of exceptions
-- on the console.
pub record ChartPage (J : Type 0) (O : Type 0) : Type 0 where
  pub elements : List (ChartElement J O)
  pub charts : List O
  pub errors : ℕ

abbrev pub put_element : {J O : Type 0} → ChartElement J O → ChartPage J O → ChartPage J O
put_element c p = record p { elements = c ∷ p.elements }

-- The `try` around a chart, and what comes after it.
unfoldable pub try_chart :
    {J O : Type 0}
    → ChartElement J O × Option O
    → (List O → ℕ → ChartPage J O)
    → List O
    → ℕ
    → ChartPage J O
try_chart (c, none) next charts errors = put_element c (next charts (suc errors))
try_chart (c, some options) next charts errors =
    put_element c (next (charts ++ options ∷ []) errors)

module _ {J O : Type 0} (prepare : J → Text → Option O) (accepts : O → Bool) where
  -- The container is empty by now, and with it the element <data>, which stands in it.
  unfoldable pub draw : ChartElement J O → Option O → ChartElement J O × Option O
  draw c none = (record c { json = none; content = empty }, none)
  draw c (some options) =
      if accepts options
      then (record c { waiting = false; json = none; content = drawn options }, some options)
      else (record c { json = none; content = empty }, none)

  -- The element afterwards, and the chart, `none` where the function throws.
  unfoldable pub build_sqlpage_chart : ChartElement J O → Option J → ChartElement J O × Option O
  unfolding draw
  build_sqlpage_chart c none = (c, none)
  build_sqlpage_chart c (some json) = draw c (prepare json c.height)

  -- The loop over the charts that wait.
  unfoldable pub build_charts : List (ChartElement J O) → List O → ℕ → ChartPage J O
  build_charts [] charts errors = record { elements = []; charts = charts; errors = errors }
  build_charts (c ∷ cs) charts errors =
      let next : List O → ℕ → ChartPage J O = λ charts' errors'. build_charts cs charts' errors' in
      if c.waiting
      then try_chart (build_sqlpage_chart c c.json) next charts errors
      else put_element c (next charts errors)

  unfoldable pub sqlpage_chart : ChartPage J O → ChartPage J O
  sqlpage_chart p = build_charts p.elements p.charts p.errors
