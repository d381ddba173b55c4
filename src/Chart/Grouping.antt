-- ===== src/Chart/Grouping.antt =====
-- How build_sqlpage_chart of sqlpage/apexcharts.js groups the points by series. JavaScript's dates
-- and its numbers are of any types.
pub mod Find
pub mod Kept
use mathlib.Core.Option
use sqlpage.Prelude.{
  ℕ, zero, suc, ◌+◌, ◌*◌, ◌-◌, Bool, true, false, not, ◌&&◌, ◌||◌, Option, none, some, List, [],
  ◌∷◌, ◌++◌, map, any, all, ltb, leb, ◌==◌, if◌then◌else◌, Text, codes, text_eq,
}

-- The JSON values of a point: what `stringify` writes for the values of a row, `null` where a column is
-- missing. A y is such a value or an array of them.
pub data XValue (N : Type 0) : Type 0 where
  number : N → XValue N
  text : Text → XValue N
  flag : Bool → XValue N
  null : XValue N

pub data YValue (N : Type 0) : Type 0 where
  single : XValue N → YValue N
  range : List (XValue N) → YValue N

-- An x value of the chart: a date in a time series.
pub data ChartX (N : Type 0) (D : Type 0) : Type 0 where
  plain : XValue N → ChartX N D
  date : D → ChartX N D

module _ {N : Type 0} {D : Type 0} (milliseconds : N → N) (date_of : XValue N → D)
    (time_of : XValue N → N) where
  -- The x and y of a point: `milliseconds` is the product with 1000, `date_of` is `new Date`, and
  -- `time_of` is `new Date(y).getTime()`.
  unfoldable pub convert_point : Bool → Bool → XValue N → YValue N → ChartX N D × YValue N
  convert_point false is_range_bar x y = (plain x, y)
  convert_point true is_range_bar (number n) y = (date (date_of (number (milliseconds n))), y)
  convert_point true true x (range ys) = (plain x, range (map (λ y. number (time_of y)) ys))
  convert_point true true x (single y) = (date (date_of x), single y)
  convert_point true false x y = (date (date_of x), y)

-- The names that every object inherits from Object.prototype.
abbrev pub inherited_names : List Text
inherited_names =
    codes "constructor"
    ∷ codes "__defineGetter__"
    ∷ codes "__defineSetter__"
    ∷ codes "hasOwnProperty"
    ∷ codes "__lookupGetter__"
    ∷ codes "__lookupSetter__"
    ∷ codes "isPrototypeOf"
    ∷ codes "propertyIsEnumerable"
    ∷ codes "toString"
    ∷ codes "valueOf"
    ∷ codes "__proto__"
    ∷ codes "toLocaleString"
    ∷ []

unfoldable pub is_inherited : Text → Bool
is_inherited name = any (text_eq name) inherited_names

-- The value of the decimal digits of a text behind `n`, if it has no other code units.
unfoldable pub digits_value : ℕ → Text → Option ℕ
digits_value n [] = some n
digits_value n (c ∷ s) = if leb 48 c && leb c 57 then digits_value (n * 10 + (c - 48)) s else none

-- Whether a key is an array index, which Object.values puts first: a number below 2 ^ 32 - 1 in
-- decimal digits with no zero in front of others.
unfoldable pub array_index : Text → Option ℕ
unfolding digits_value
array_index [] = none
array_index (c ∷ []) = digits_value 0 (c ∷ [])
array_index (c ∷ d ∷ s) = if c == 48 then none else below (digits_value 0 (c ∷ d ∷ s))
  where
    below : Option ℕ → Option ℕ
    below none = none
    below (some n) = if ltb n 4294967295 then some n else none

unfoldable pub is_index : Text → Bool
unfolding array_index
is_index name = elim (array_index name) [ none ↦ false | some n ↦ true ]

-- Whether the first index comes before the second; a key that is none counts as 0.
unfoldable pub index_before : Text → Text → Bool
unfolding array_index
index_before s t = ltb (value (array_index s)) (value (array_index t))
  where
    value : Option ℕ → ℕ
    value none = 0
    value (some n) = n

-- A series of points of any type, with its name, which is the text of its key in `series_map`: a name
-- that is a number stands as its text.
pub record NamedSeries (P : Type 0) : Type 0 where
  pub name : Text
  pub points : List P

-- What a property of `series_map` can be: a series, or a value that every object inherits, which has no
-- `data`.
pub data Property (P : Type 0) : Type 0 where
  series : NamedSeries P → Property P
  inherited : Property P

module _ {P : Type 0} where
  -- `series_map[name]`: an own property, or what Object.prototype has; `none` stands for undefined.
  unfoldable pub lookup_series : Text → List (NamedSeries P) → Option (Property P)
  unfolding is_inherited
  lookup_series name [] = if is_inherited name then some inherited else none
  lookup_series name (s ∷ ss) =
      if text_eq s.name name then some (series s) else lookup_series name ss

  -- `series_map[name] || { name, data: [] }`
  unfoldable pub or_new : Text → Option (Property P) → Property P
  or_new name none = series (record { name = name; points = [] })
  or_new name (some property) = property

  -- `data.push(p)` on a property: an inherited one has no `data`, so that the call throws, for which
  -- `none` stands.
  unfoldable pub push_data : P → Property P → Option (NamedSeries P)
  push_data p inherited = none
  push_data p (series s) = some (record s { points = s.points ++ p ∷ [] })

  -- The own properties with a series under its name, where a new one is the last.
  unfoldable pub assign_series : NamedSeries P → List (NamedSeries P) → List (NamedSeries P)
  assign_series t [] = t ∷ []
  assign_series t (s ∷ ss) = if text_eq s.name t.name then t ∷ ss else s ∷ assign_series t ss

  -- The loop over the points, which an exception ends.
  unfoldable pub push_next :
      (List (NamedSeries P) → Option (List (NamedSeries P)))
      → List (NamedSeries P)
      → Option (NamedSeries P)
      → Option (List (NamedSeries P))
  push_next next ss none = none
  push_next next ss (some t) = next (assign_series t ss)

  unfoldable pub group : List (Text × P) → List (NamedSeries P) → Option (List (NamedSeries P))
  unfolding lookup_series or_new push_data assign_series push_next
  group [] ss = some ss
  group ((name, p) ∷ points) ss =
      push_next (λ ts. group points ts) ss (push_data p (or_new name (lookup_series name ss)))

  unfoldable pub select : Bool → List (NamedSeries P) → List (NamedSeries P)
  unfolding is_index
  select indexed [] = []
  select true (s ∷ ss) = if is_index s.name then s ∷ select true ss else select true ss
  select false (s ∷ ss) = if is_index s.name then select false ss else s ∷ select false ss

  unfoldable pub insert_by_index : NamedSeries P → List (NamedSeries P) → List (NamedSeries P)
  unfolding index_before
  insert_by_index s [] = s ∷ []
  insert_by_index s (t ∷ ts) =
      if index_before t.name s.name then t ∷ insert_by_index s ts else s ∷ t ∷ ts

  unfoldable pub sort_by_index : List (NamedSeries P) → List (NamedSeries P)
  unfolding insert_by_index
  sort_by_index [] = []
  sort_by_index (s ∷ ss) = insert_by_index s (sort_by_index ss)

  -- `Object.values(series_map)`: first the keys that are array indices, in ascending order.
  unfoldable pub object_values : List (NamedSeries P) → List (NamedSeries P)
  unfolding select sort_by_index
  object_values ss = sort_by_index (select true ss) ++ select false ss

  unfoldable pub chart_series : List (Text × P) → Option (List (NamedSeries P))
  unfolding group object_values
  chart_series points = Option.map object_values (group points [])
