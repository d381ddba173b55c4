-- ===== src/Table/Setup.antt =====
-- setup_table of sqlpage/sqlpage.js, which puts the parsing, the search, the sort buttons and the
-- number formatting of a table together. `row_text` is the text of the row with an identity and with
-- cells of the given texts.
pub mod Sorted
pub mod Searched
mod Tests
use sqlpage.Prelude.{
  ℕ, Bool, true, false, ◌||◌, Option, none, some, List, [], ◌∷◌, map, length, ltb, if◌then◌else◌,
  Text,
}
use sqlpage.Table.{Item, Table, TableRow, unsorted, table_parse_data, on_search}
use sqlpage.Table.Format.{Column, Result, finished, threw, apply_number_formatting}

-- A row of the body or of the foot of a table.
pub record PageRow : Type 0 where
  pub el : ℕ
  pub in_body : Bool
  pub cells : List Text

-- The table's element: the value of its search field, if it has one, its headers, for each sort button
-- whether it stands in a column of numbers, and its rows. `table` is what the listeners share.
pub record TableElement (N : Type 0) : Type 0 where
  pub search_input : Option Text
  pub columns : List Column
  pub is_num : List Bool
  pub table_rows : List PageRow
  pub table : Table N

-- The cells of the rows, from first to last, become those of the list.
abbrev pub with_cells : List PageRow → List (List Text) → List PageRow
with_cells [] css = []
with_cells (r ∷ rs) [] = r ∷ rs
with_cells (r ∷ rs) (cells ∷ css) = record r { cells = cells } ∷ with_cells rs css

-- An item is the row of the page, so that its text is that of the row.
abbrev pub set_texts : {N : Type 0} → List (Item N) → List TableRow → List (Item N)
set_texts [] trs = []
set_texts (i ∷ is) [] = i ∷ is
set_texts (i ∷ is) (tr ∷ trs) = record i { text = tr.text } ∷ set_texts is trs

abbrev pub has_search : Option Text → Bool
has_search none = false
has_search (some value) = true

module _ (row_text : ℕ → List Text → Text) where
  -- `table_el.querySelectorAll("tbody tr")`
  unfoldable pub body_rows : List PageRow → List TableRow
  body_rows [] = []
  body_rows (r ∷ rs) =
      let rest = body_rows rs in
      if r.in_body
      then record { el = r.el; text = row_text r.el r.cells; cells = r.cells } ∷ rest
      else rest

  -- The cells' texts after the formatting, which an exception ends.
  unfoldable pub show_cells : {N : Type 0} → TableElement N → List (List Text) → TableElement N
  show_cells t css =
      let rows = with_cells t.table_rows css in
      record t {
        table_rows = rows;
        table = record t.table { items = set_texts t.table.items (body_rows rows) };
      }

  unfoldable pub show_result :
      {N : Type 0} → TableElement N → Result (List (List Text)) → Result (TableElement N)
  unfolding show_cells
  show_result t (finished css) = finished (show_cells t css)
  show_result t (threw css) = threw (show_cells t css)

-- The first search, if there is a search field.
abbrev pub first_search :
    (is_space : ℕ → Bool) → (lower : Text → Text) → {N : Type 0} → Option Text → Table N → Table N
first_search is_space lower none t = t
first_search is_space lower (some value) t = on_search is_space lower value t

module _ (row_text : ℕ → List Text → Text) {N : Type 0} (parse_float : Text → Option N) where
  -- The items, which are parsed only for a search field or sort buttons.
  unfoldable pub setup_items : TableElement N → List (Item N)
  setup_items t =
      if has_search t.search_input || ltb 0 (length t.is_num)
      then table_parse_data parse_float t.is_num (body_rows row_text t.table_rows)
      else []

  module _ (is_space : ℕ → Bool) (lower : Text → Text) where
    -- The listeners of the search field and of the buttons, and the first search.
    unfoldable pub setup_listeners : TableElement N → TableElement N
    setup_listeners t = record t {
      table = first_search is_space lower t.search_input (record {
        buttons = map (λ b. unsorted) t.is_num;
        items = setup_items t;
        rows = map (λ tr. tr.el) (body_rows row_text t.table_rows);
      });
    }

    unfoldable pub setup_table :
        (to_locale : Bool → Text → Option Text) → TableElement N → Result (TableElement N)
    unfolding setup_listeners
    setup_table to_locale t =
        show_result row_text (setup_listeners t)
          (apply_number_formatting to_locale t.columns (map (λ r. r.cells) t.table_rows))

-- What is left of the element, whether or not an exception ended the set-up.
abbrev pub outcome : {A : Type 0} → Result A → A
outcome (finished a) = a
outcome (threw a) = a
