-- ===== src/Chart/Build/Alone.antt =====
-- That each chart of a page comes out as if it were alone.
use sqlpage.Prelude.{
  ℕ, suc, ◌+◌, ◌≡◌, refl, ap, sym, ◌∙◌, subst, Bool, true, false, Option, none, some, List, [], ◌∷◌,
  ◌++◌, map, append_assoc, append-nil, if◌then◌else◌, Text, All, Bool-cases, inl, inr, arith,
}
use sqlpage.Chart.Build.{
  ChartElement, ChartPage, put_element, draw, build_sqlpage_chart, try_chart, build_charts,
  sqlpage_chart,
}

module _ {J O : Type 0} where
  -- A chart that waits, if its element <data> is gone.
  abbrev pub HasFailed : ChartElement J O → Type 0
  HasFailed c = c.waiting ≡ true → c.json ≡ none

  abbrev pub waiting : List (ChartElement J O) → ℕ
  waiting [] = 0
  waiting (c ∷ cs) = if c.waiting then suc (waiting cs) else waiting cs

  abbrev pub failed_page : List (ChartElement J O) → List O → ℕ → ChartPage J O
  failed_page cs charts errors = record { elements = cs; charts = charts; errors = errors }

module _ {J O : Type 0} (prepare : J → Text → Option O) (accepts : O → Bool) where
  -- What the loop makes of a chart, alone.
  abbrev pub alone : ChartElement J O → ChartElement J O
  alone c = if c.waiting then (build_sqlpage_chart prepare accepts c c.json).0 else c

  abbrev pub new_chart : ChartElement J O → Option O
  new_chart c = if c.waiting then (build_sqlpage_chart prepare accepts c c.json).1 else none

  abbrev added : Option O → List O → List O
  added none os = os
  added (some o) os = o ∷ os

  abbrev pub new_charts : List (ChartElement J O) → List O
  new_charts [] = []
  new_charts (c ∷ cs) = added (new_chart c) (new_charts cs)

  IsAlone : List (ChartElement J O) → List O → ChartPage J O → Type 0
  IsAlone cs charts p = (p.elements ≡ map alone cs) × (p.charts ≡ charts ++ new_charts cs)

  try_chart-IsAlone :
      (c : ChartElement J O) (cs : List (ChartElement J O)) (r : ChartElement J O × Option O)
      (next : List O → ℕ → ChartPage J O) (charts : List O) (errors : ℕ)
      → ((charts' : List O) (errors' : ℕ) → IsAlone cs charts' (next charts' errors'))
      → alone c ≡ r.0
      → new_chart c ≡ r.1
      → IsAlone (c ∷ cs) charts (try_chart r next charts errors)
  unfolding IsAlone try_chart
  try_chart-IsAlone c cs (d, none) next charts errors rest a n =
      let (e, f) = rest charts (suc errors) in
      (rw (a, e) refl, f ∙ ap (λ o. charts ++ added o (new_charts cs)) (sym n))
  try_chart-IsAlone c cs (d, some o) next charts errors rest a n =
      let (e, f) = rest (charts ++ o ∷ []) errors in
      (
        rw (a, e) refl,
        f
            ∙ append_assoc charts (o ∷ []) (new_charts cs)
            ∙ ap (λ o'. charts ++ added o' (new_charts cs)) (sym n),
      )

  tried-IsAlone :
      (c : ChartElement J O) (cs : List (ChartElement J O)) (b : Bool)
      (next : List O → ℕ → ChartPage J O) (charts : List O) (errors : ℕ)
      → ((charts' : List O) (errors' : ℕ) → IsAlone cs charts' (next charts' errors'))
      → c.waiting ≡ b
      → IsAlone (c ∷ cs) charts (
          if b
          then try_chart (build_sqlpage_chart prepare accepts c c.json) next charts errors
          else put_element c (next charts errors))
  unfolding IsAlone
  tried-IsAlone c cs true next charts errors rest w =
      let built = build_sqlpage_chart prepare accepts c c.json in
      try_chart-IsAlone c cs built next charts errors rest (ap (λ b. if b then built.0 else c) w)
        (ap (λ b. if b then built.1 else none) w)
  tried-IsAlone c cs false next charts errors rest w =
      let built = build_sqlpage_chart prepare accepts c c.json in
      let (e, f) = rest charts errors in
      (
        ap (c ∷◌) e ∙ ap (λ b. (if b then built.0 else c) ∷ map alone cs) (sym w),
        f ∙ ap (λ b. charts ++ added (if b then built.1 else none) (new_charts cs)) (sym w),
      )

  build_charts-IsAlone :
      (cs : List (ChartElement J O)) (charts : List O) (errors : ℕ)
      → IsAlone cs charts (build_charts prepare accepts cs charts errors)
  unfolding IsAlone build_charts
  build_charts-IsAlone [] charts errors = (refl, sym (append-nil charts))
  build_charts-IsAlone (c ∷ cs) charts errors =
      tried-IsAlone c cs c.waiting
        (λ charts' errors'. build_charts prepare accepts cs charts' errors') charts errors
        (build_charts-IsAlone cs) refl

  -- Each chart of the page becomes what it would become alone, whatever happens at the other charts,
  -- and `window.charts` gets the new charts in the order of the page.
  pub sqlpage_chart-alone :
      (p : ChartPage J O)
      → ((sqlpage_chart prepare accepts p).elements ≡ map alone p.elements)
        × ((sqlpage_chart prepare accepts p).charts ≡ p.charts ++ new_charts p.elements)
  unfolding sqlpage_chart IsAlone
  sqlpage_chart-alone p = build_charts-IsAlone p.elements p.charts p.errors

  draw-HasFailed : (c : ChartElement J O) (o : Option O) → HasFailed (draw prepare accepts c o).0
  unfolding draw
  draw-HasFailed c none = λ w. refl
  draw-HasFailed c (some options) = elim (Bool-cases (accepts options)) [
    | inl a ↦ rw a (λ w. refl)
    | inr a ↦ rw a (λ w. refl)
  ]

  build_sqlpage_chart-HasFailed :
      (c : ChartElement J O) (j : Option J)
      → c.json ≡ j
      → HasFailed (build_sqlpage_chart prepare accepts c j).0
  unfolding build_sqlpage_chart
  build_sqlpage_chart-HasFailed c none h = λ w. h
  build_sqlpage_chart-HasFailed c (some json) h = draw-HasFailed c (prepare json c.height)

  alone-HasFailed : (c : ChartElement J O) → HasFailed (alone c)
  alone-HasFailed c = go c.waiting refl
    where
      go :
          (b : Bool)
          → c.waiting ≡ b
          → HasFailed (if b then (build_sqlpage_chart prepare accepts c c.json).0 else c)
      go true w = build_sqlpage_chart-HasFailed c c.json refl
      go false w = λ v. cc

  All-HasFailed : (cs : List (ChartElement J O)) → All HasFailed (map alone cs)
  All-HasFailed [] = tt
  All-HasFailed (c ∷ cs) = (alone-HasFailed c, All-HasFailed cs)

  tried-failed :
      (c : ChartElement J O) (cs : List (ChartElement J O)) (b : Bool)
      (next : List O → ℕ → ChartPage J O) (charts : List O) (errors : ℕ)
      → ((n : ℕ) → next charts n ≡ failed_page cs charts (n + waiting cs))
      → HasFailed c
      → c.waiting ≡ b
      → (if b
          then try_chart (build_sqlpage_chart prepare accepts c c.json) next charts errors
          else put_element c (next charts errors))
        ≡ failed_page (c ∷ cs) charts (errors + (if b then suc (waiting cs) else waiting cs))
  unfolding build_sqlpage_chart try_chart
  tried-failed c cs true next charts errors rest h w =
      ap (λ j. try_chart (build_sqlpage_chart prepare accepts c j) next charts errors) (h w)
      ∙ ap (put_element c) (rest (suc errors))
      ∙ ap (failed_page (c ∷ cs) charts) (omega arith)
  tried-failed c cs false next charts errors rest h w = ap (put_element c) (rest errors)

  build_charts-failed :
      (cs : List (ChartElement J O)) (charts : List O) (errors : ℕ)
      → All HasFailed cs
      → build_charts prepare accepts cs charts errors ≡ failed_page cs charts (errors + waiting cs)
  unfolding build_charts
  build_charts-failed [] charts errors a = ap (failed_page [] charts) (omega arith)
  build_charts-failed (c ∷ cs) charts errors (h, a) =
      tried-failed c cs c.waiting
        (λ charts' errors'. build_charts prepare accepts cs charts' errors') charts errors
        (λ n. build_charts-failed cs charts n a) h refl

  -- A second call of sqlpage_chart draws nothing and changes no chart. It only logs an exception for
  -- each chart that still waits, since the data of that chart was removed with its spinner.
  pub sqlpage_chart-again :
      (p : ChartPage J O)
      → sqlpage_chart prepare accepts (sqlpage_chart prepare accepts p)
        ≡ failed_page
            (sqlpage_chart prepare accepts p).elements
            (sqlpage_chart prepare accepts p).charts
            ((sqlpage_chart prepare accepts p).errors
              + waiting (sqlpage_chart prepare accepts p).elements)
  unfolding sqlpage_chart
  sqlpage_chart-again p =
      let q = sqlpage_chart prepare accepts p in
      build_charts-failed q.elements q.charts q.errors
        (subst (All HasFailed) (sym (sqlpage_chart-alone p).0) (All-HasFailed p.elements))
