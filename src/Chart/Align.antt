-- ===== src/Chart/Align.antt =====
-- align_categories of sqlpage/apexcharts.js. The x values are of any type with the equality of
-- JavaScript's Set and Map. The y values are of any type with a zero and the test that `||` makes.
-- The `z` of a point, which the code does not read here, is left out.
pub mod Pointers
pub mod Choice
pub mod Columns
pub mod Refine
pub mod Values
pub mod Kept
use mathlib.Core.Option
use sqlpage.Prelude.{
  ℕ, zero, suc, ◌+◌, Bool, true, false, Option, none, some, List, [], ◌∷◌, ◌++◌, map, length,
  get_elem?, ltb, ◌==◌, if◌then◌else◌, Text, Eq, add, get_or_else,
}

pub record Point (X : Type 0) (Y : Type 0) : Type 0 where
  pub x : X
  pub y : Y

pub record Series (X : Type 0) (Y : Type 0) : Type 0 where
  pub name : Text
  pub points : List (Point X Y)

-- `pointers[i]`. The loop reads it at indices of the array only.
abbrev pub pointer : List ℕ → ℕ → ℕ
pointer [] i = 0
pointer (p ∷ ps) zero = p
pointer (p ∷ ps) (suc i) = pointer ps i

-- `pointers[i]++`
abbrev pub bump : List ℕ → ℕ → List ℕ
bump [] i = []
bump (p ∷ ps) zero = suc p ∷ ps
bump (p ∷ ps) (suc i) = p ∷ bump ps i

-- `Math.min` of a number and more numbers.
abbrev pub min_of : ℕ → List ℕ → ℕ
min_of m [] = m
min_of m (n ∷ ns) = if ltb n m then min_of n ns else min_of m ns

-- `series_idxs.find((i) => pointers[i] === min_ptr) | 0`
abbrev pub find_pointer : List ℕ → ℕ → List ℕ → ℕ
find_pointer ps m [] = 0
find_pointer ps m (i ∷ is) = if pointer ps i == m then i else find_pointer ps m is

-- The smallest pointer among the open series `i ∷ is`, and the first of them that has it.
unfoldable pub min_ptr : List ℕ → ℕ → List ℕ → ℕ
min_ptr ps i is = min_of (pointer ps i) (map (pointer ps) is)

unfoldable pub min_series_idx : List ℕ → ℕ → List ℕ → ℕ
unfolding min_ptr
min_series_idx ps i is = find_pointer ps (min_ptr ps i is) (i ∷ is)

module _ {X : Type 0} {Y : Type 0} where
  -- The indices, from `i` on, of the series that have a point at their pointer.
  unfoldable pub open_idxs : List ℕ → ℕ → List (Series X Y) → List ℕ
  open_idxs ps i [] = []
  open_idxs ps i (s ∷ ss) =
      if ltb (pointer ps i) (length s.points)
      then i ∷ open_idxs ps (suc i) ss
      else open_idxs ps (suc i) ss

  -- `series[i].data[ptr]`; `none` stands for the exception at a missing series or point.
  unfoldable pub point_at : List (Series X Y) → ℕ → ℕ → Option (Point X Y)
  point_at [] i ptr = none
  point_at (s ∷ ss) zero ptr = get_elem? s.points ptr
  point_at (s ∷ ss) (suc i) ptr = point_at ss i ptr

-- `valueMap.get(category) || 0`
unfoldable pub or_zero : {Y : Type 0} → (Y → Bool) → Y → Option Y → Y
or_zero truthy y0 none = y0
or_zero truthy y0 (some y) = if truthy y then y else y0

abbrev pub total_points : {X Y : Type 0} → List (Series X Y) → ℕ
total_points [] = 0
total_points (s ∷ ss) = length s.points + total_points ss

module _ {X : Type 0} {Y : Type 0} ⦃e : Eq X⦄ where
  -- The rest of a round at the point that was found; `next` makes the further rounds.
  unfoldable pub visit :
      (List ℕ → List X → Option (List X))
      → List ℕ
      → List X
      → ℕ
      → Option (Point X Y)
      → Option (List X)
  visit next ps categories idx none = none
  visit next ps categories idx (some p) = next (bump ps idx) (add categories p.x)

  -- A round of the loop, on the indices of the open series.
  unfoldable pub round :
      (List ℕ → List X → Option (List X))
      → List (Series X Y)
      → List ℕ
      → List X
      → List ℕ
      → Option (List X)
  unfolding visit min_ptr min_series_idx point_at
  round next ss ps categories [] = some categories
  round next ss ps categories (i ∷ is) =
      let idx = min_series_idx ps i is in
      visit next ps categories idx (point_at ss idx (min_ptr ps i is))

  -- `while (true)` on fuel; `none` stands for an exception or for fuel that ran out.
  unfoldable pub collect : ℕ → List (Series X Y) → List ℕ → List X → Option (List X)
  unfolding round open_idxs
  collect zero ss ps categories = none
  collect (suc fuel) ss ps categories =
      round (λ ps' categories'. collect fuel ss ps' categories') ss ps categories
        (open_idxs ps 0 ss)

  -- The Map of a series from categories to values: a later point replaces an earlier one.
  unfoldable pub value_of : Option Y → List (Point X Y) → X → Option Y
  value_of found [] c = found
  value_of found (p ∷ ps) c = value_of (if e.beq p.x c then some p.y else found) ps c

  unfoldable pub aligned : (Y → Bool) → Y → List X → Series X Y → Series X Y
  unfolding value_of or_zero
  aligned truthy y0 categories s = record {
    name = s.name;
    points =
        map (λ c. record { x = c; y = or_zero truthy y0 (value_of none s.points c) }) categories;
  }

  unfoldable pub align_categories : (Y → Bool) → Y → List (Series X Y) → Option (List (Series X Y))
  unfolding collect aligned
  align_categories truthy y0 ss =
      Option.map (λ categories. map (aligned truthy y0 categories) ss)
        (collect (suc (total_points ss)) ss (map (λ s. 0) ss) [])
