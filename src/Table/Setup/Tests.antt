-- ===== src/Table/Setup/Tests.antt =====
-- Runs of setup_table of sqlpage/sqlpage.js, and the theorems at concrete inputs. The number of a text
-- is its length here.
use sqlpage.Prelude.{
  suc, none, ℕ, ◌-◌, ◌≤◌, ◌≡◌, ◌≢◌, refl, Bool, true, false, Option, some, List, [], ◌∷◌, ◌++◌, map,
  length, ltb, ◌==◌, if◌then◌else◌, Text, codes, text_eq, Order, less, equal, greater, Comparison,
  IsSortOf, arith,
}
use sqlpage.Table.{Item, on_search, click_classes, sort_items, table_parse_data}
use sqlpage.Table.Sort.{directed}
use sqlpage.Table.Format.Cells.{sqlpage_table-threw}
use sqlpage.Table.Format.{Result, sqlpage_table, apply_number_formatting, format_cell}
use sqlpage.Table.Setup.{PageRow, TableElement, body_rows, setup_items, setup_table, show_result}
use sqlpage.Table.Setup.Sorted.{set_up, setup_table-sort_items}
use sqlpage.Table.Setup.Searched.{texts_of, matches, setup_table-on_search}

abbrev order : ℕ → ℕ → Order
order a b = if ltb a b then less else (if a == b then equal else greater)

not_greater : (a b : ℕ) → order a b ≢ greater → a ≤ b
not_greater a b h = ground arith

order_trans : (a b c : ℕ) → order a b ≢ greater → order b c ≢ greater → order a c ≢ greater
order_trans a b c h k e = let p = not_greater a b h in let q = not_greater b c k in ground arith

abbrev numbers : Comparison ℕ
numbers = record {
  compare = order;
  compare_flip = λ a b. ground arith;
  compare_trans = order_trans;
}

abbrev texts : Comparison Text
texts = record {
  compare = λ s t. order (length s) (length t);
  compare_flip = λ s t. ground arith;
  compare_trans = λ s t u. order_trans (length s) (length t) (length u);
}

-- The text of a row is that of its first cell.
abbrev row_text : ℕ → List Text → Text
row_text el [] = []
row_text el (text ∷ cells) = text

abbrev is_space : ℕ → Bool
is_space c = c == 32

abbrev lower : Text → Text
lower s = s

abbrev parse_float : Text → Option ℕ
parse_float s = some (length s)

abbrev in_locale : Bool → Text → Option Text
in_locale money s = some (s ++ codes ".0")

abbrev row : ℕ → Bool → Text → PageRow
row el in_body text = record { el = el; in_body = in_body; cells = text ∷ [] }

-- A table with two rows and a row in the foot, whose search field has a value from the server.
abbrev table : TableElement ℕ
table = record {
  search_input = some (codes "111");
  columns = record { column_type = some (codes "number"); raw_number = false; money = false } ∷ [];
  is_num = true ∷ [];
  table_rows = row 0 true (codes "111") ∷ row 1 true (codes "11") ∷ row 2 false (codes "1") ∷ [];
  table = record { buttons = []; items = []; rows = [] };
}

abbrev ready : TableElement ℕ
ready = set_up row_text is_space lower parse_float in_locale table

abbrev value : ℕ → ℕ
value el = 3 - el

texts-ready : texts_of row_text ready.table_rows ≡ codes "111.0" ∷ codes "11.0" ∷ []
unfolding setup_table show_result body_rows apply_number_formatting format_cell text_eq
texts-ready = refl

rows-sort_items : (sort_items order texts.compare 0 ready.table).rows ≡ 1 ∷ 0 ∷ []
unfolding setup_table show_result setup_items body_rows apply_number_formatting format_cell text_eq
    table_parse_data on_search sort_items
rows-sort_items = refl

setup_table-sort_items_example :
    (items : List (Item ℕ)) × (sort_items order texts.compare 0 ready.table ≡ record {
      buttons = click_classes 0 ready.table.buttons;
      items = items;
      rows = map (λ i. i.el) items;
    })
    × IsSortOf (directed false numbers) (λ i. value i.el) ready.table.items items
setup_table-sort_items_example =
    setup_table-sort_items row_text is_space lower parse_float in_locale numbers texts value 0 table
      refl (unfold body_rows in ((codes "111", refl, refl), ((codes "11", refl, refl), tt)))

setup_table-on_search_example :
    (map (λ i. i.shown) ready.table.items
      ≡ matches is_space lower (codes "111") (texts_of row_text table.table_rows))
    × (map (λ i. i.shown) (on_search is_space lower (codes "111.0") ready.table).items
        ≡ matches is_space lower (codes "111.0") (texts_of row_text ready.table_rows))
setup_table-on_search_example =
    setup_table-on_search row_text is_space lower parse_float in_locale table (codes "111")
      (codes "111.0") refl

-- A locale for which toLocaleString throws on every number.
abbrev no_locale : Bool → Text → Option Text
no_locale money s = none

-- A table whose column is not of numbers.
abbrev plain_table : TableElement ℕ
plain_table = record table {
  columns = record { column_type = none; raw_number = false; money = false } ∷ [];
}

abbrev set_up_table : TableElement ℕ → Result (TableElement ℕ)
set_up_table = setup_table row_text parse_float is_space lower no_locale

abbrev broken : TableElement ℕ
broken = set_up row_text is_space lower parse_float no_locale table

sqlpage_table-threw_example :
    ((sqlpage_table set_up_table ((plain_table ∷ []) ++ table ∷ plain_table ∷ [])).waiting
      ≡ plain_table ∷ [])
    × (length (sqlpage_table set_up_table ((plain_table ∷ []) ++ table ∷ plain_table ∷ [])).reached
        ≡ suc (length (plain_table ∷ [])))
unfolding setup_table show_result apply_number_formatting format_cell text_eq
sqlpage_table-threw_example =
    sqlpage_table-threw set_up_table (plain_table ∷ []) table broken (plain_table ∷ [])
      ((_, refl), tt) refl
