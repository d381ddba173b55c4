-- ===== src/Table/Format.antt =====
-- apply_number_formatting and sqlpage_table of sqlpage/sqlpage.js. `to_locale` is toLocaleString with
-- the table's options, on the number that a text parses to and with or without a currency: `none`
-- stands for the exception that options which are not valid make.
pub mod Cells
use sqlpage.Prelude.{
  ℕ, zero, suc, Bool, true, false, not, ◌&&◌, Option, none, some, List, [], ◌∷◌, ◌++◌,
  if◌then◌else◌, Text, codes, text_eq, nonempty,
}

-- The dataset of a column's header; a column with no header has none.
pub record Column : Type 0 where
  pub column_type : Option Text
  pub raw_number : Bool
  pub money : Bool

-- What an exception leaves: the elements so far and those that were not reached.
pub data Result (A : Type 0) : Type 0 where
  finished : A → Result A
  threw : A → Result A

unfoldable pub is_number : Option Text → Bool
is_number none = false
is_number (some t) = text_eq t (codes "number")

unfoldable pub is_formatted : Option Column → Text → Bool
unfolding is_number
is_formatted none text = false
is_formatted (some col) text = is_number col.column_type && (not col.raw_number && nonempty text)

unfoldable pub is_money : Option Column → Bool
is_money none = false
is_money (some col) = col.money

abbrev pub first_column : List Column → Option Column
first_column [] = none
first_column (col ∷ cols) = some col

abbrev pub next_columns : List Column → List Column
next_columns [] = []
next_columns (col ∷ cols) = cols

-- An element in front of those that are left.
abbrev pub in_front : {A : Type 0} → A → Result (List A) → Result (List A)
in_front x (finished xs) = finished (x ∷ xs)
in_front x (threw xs) = threw (x ∷ xs)

module _ (to_locale : Bool → Text → Option Text) where
  -- The text of a cell afterwards.
  unfoldable pub format_cell : Option Column → Text → Option Text
  unfolding is_formatted is_money
  format_cell col text = if is_formatted col text then to_locale (is_money col) text else some text

  -- The new text and the rest of the row, which an exception leaves as it is.
  abbrev pub place_cell : Text → List Text → Option Text → Result (List Text) → Result (List Text)
  place_cell text cells none rest = threw (text ∷ cells)
  place_cell text cells (some formatted) rest = in_front formatted rest

  unfoldable pub format_cells : List Column → List Text → Result (List Text)
  format_cells cols [] = finished []
  format_cells cols (text ∷ cells) =
      place_cell text cells (format_cell (first_column cols) text)
        (format_cells (next_columns cols) cells)

  abbrev pub place_row :
      List (List Text) → Result (List Text) → Result (List (List Text)) → Result (List (List Text))
  place_row rows (threw row) rest = threw (row ∷ rows)
  place_row rows (finished row) rest = in_front row rest

  -- The rows of the table, each as its cells' texts.
  unfoldable pub apply_number_formatting :
      List Column → List (List Text) → Result (List (List Text))
  unfolding format_cells
  apply_number_formatting cols [] = finished []
  apply_number_formatting cols (row ∷ rows) =
      place_row rows (format_cells cols row) (apply_number_formatting cols rows)

-- The tables that were reached, with what their set-up made of them, and those that still have
-- `data-pre-init`.
pub record Tables (A : Type 0) : Type 0 where
  pub reached : List A
  pub waiting : List A

module _ {A : Type 0} (setup_table : A → Result A) where
  -- The loop ends with the first set-up that throws.
  abbrev pub reach : List A → Result A → Tables A → Tables A
  reach rest (threw t) next = record { reached = t ∷ []; waiting = rest }
  reach rest (finished t) next = record { reached = t ∷ next.reached; waiting = next.waiting }

  unfoldable pub sqlpage_table : List A → Tables A
  sqlpage_table [] = record { reached = []; waiting = [] }
  sqlpage_table (t ∷ ts) = reach ts (setup_table t) (sqlpage_table ts)
