-- ===== src/Chart/Tests.antt =====
-- Runs of the charts' code of sqlpage/apexcharts.js, and the theorems at concrete inputs.
use sqlpage.Prelude.{
  ℕ, text_eq, ◌≡◌, refl, Bool, true, false, not, none, some, Option, List, [], ◌∷◌, ◌++◌, map, Text,
  codes, get_elem?, ◌==◌, ==_iff, Eq, All, has, IsDistinct,
}
use sqlpage.Chart.Palette.{
  color, undefined, tblr_colors, chosen_colors, chart_colors, IsColor, chart_colors-IsColor,
}
use sqlpage.Chart.Grouping.{chart_series}
use sqlpage.Chart.Align.{Point, Series, align_categories, aligned}
use sqlpage.Chart.Align.Refine.{align_categories-columns, ordered_categories}
use sqlpage.Chart.Align.Kept.{align_categories-kept}

-- Three points of the series "b", "7" and "b", and two of which one has an inherited name.
abbrev named_points : List (Text × ℕ)
named_points = (codes "b", 1) ∷ (codes "7", 2) ∷ (codes "b", 3) ∷ []

abbrev constructor_points : List (Text × ℕ)
constructor_points = (codes "b", 1) ∷ (codes "constructor", 2) ∷ []

chart_series-run :
    chart_series named_points
    ≡ some (
        record { name = codes "7"; points = 2 ∷ [] }
        ∷ record { name = codes "b"; points = 1 ∷ 3 ∷ [] }
        ∷ [])
unfolding chart_series text_eq
chart_series-run = refl

inherited_name-run : chart_series constructor_points ≡ none
unfolding chart_series text_eq
inherited_name-run = refl

abbrev colour_names : List Text
colour_names = codes "red" ∷ [] ∷ codes "blue-lt" ∷ []

chosen_colors-run :
    chosen_colors (codes "red" ∷ codes "navy" ∷ []) ≡ color (codes "#d11414") ∷ undefined ∷ []
unfolding chosen_colors text_eq
chosen_colors-run = refl

chart_colors-IsColor_example : All IsColor (chart_colors true colour_names)
chart_colors-IsColor_example =
    chart_colors-IsColor true colour_names
      (unfold tblr_colors text_eq in ((λ h. refl), ((λ h. cc), ((λ h. refl), tt))))

instance eq_nat : Eq ℕ
eq_nat = record { beq = λ a b. a == b; beq_iff = ==_iff }

abbrev truthy : ℕ → Bool
truthy y = not (y == 0)

abbrev at : ℕ → ℕ → Point ℕ ℕ
at x y = record { x = x; y = y }

-- The series of the example in the comment of align_categories.
abbrev example_series : List (Series ℕ ℕ)
example_series =
    record { name = codes "A"; points = at 2 10 ∷ at 3 30 ∷ [] }
    ∷ record { name = codes "B"; points = at 1 25 ∷ at 2 20 ∷ [] }
    ∷ []

-- The order is 2, 1, 3 where the comment has 2, 3, 1.
align_categories-example :
    align_categories truthy 0 example_series
    ≡ some (
        record { name = codes "A"; points = at 2 10 ∷ at 1 0 ∷ at 3 30 ∷ [] }
        ∷ record { name = codes "B"; points = at 2 20 ∷ at 1 25 ∷ at 3 0 ∷ [] }
        ∷ [])
unfolding align_categories sqlpage.Prelude.add eq_nat
align_categories-example = refl

align_categories-columns_example :
    align_categories truthy 0 example_series
    ≡ some (map (aligned truthy 0 (ordered_categories example_series)) example_series)
align_categories-columns_example = align_categories-columns truthy 0 example_series

align_categories-kept_example :
    (rs : List (Series ℕ ℕ)) × (s : Series ℕ ℕ) × (i : ℕ) × (align_categories truthy 0
        example_series
      ≡ some rs)
    × (get_elem? rs 1 ≡ some s)
    × (s.name ≡ codes "B")
    × (get_elem? s.points i ≡ some (at 2 20))
align_categories-kept_example =
    align_categories-kept truthy 0 example_series 1 (codes "B") (at 1 25 ∷ []) (at 2 20) [] refl
      (unfold has in refl) refl
