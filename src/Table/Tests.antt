-- ===== src/Table/Tests.antt =====
-- Runs of the table's search and sort of sqlpage/sqlpage.js, and the theorems at concrete inputs.
use sqlpage.Prelude.{
  suc, ℕ, ◌≤◌, ◌≡◌, refl, ◌≢◌, Bool, true, false, none, some, List, [], ◌∷◌, ◌++◌, map, Text, codes,
  get_elem?, length, ◌==◌, ltb, if◌then◌else◌, Order, less, equal, greater, flip, Comparison,
  IsSortOf, arith,
}
use sqlpage.Table.{
  unsorted, asc, desc, is_asc, class_at, Item, Table, TableRow, sort_items, on_search,
  click_classes, table_parse_data, search_words,
}
use sqlpage.Table.Sort.{directed, sort_items-numbers}
use sqlpage.Table.Search.{both, on_search-sort_items, on_search-two_texts}
use sqlpage.Table.Format.{Column, Result, finished, threw, apply_number_formatting, sqlpage_table}
use sqlpage.Table.Format.Cells.{ShowsRows, apply_number_formatting-Shows}

abbrev order : ℕ → ℕ → Order
order a b = if ltb a b then less else (if a == b then equal else greater)

order-flip : (a b : ℕ) → order b a ≡ flip (order a b)
order-flip a b = ground arith

not_greater : (a b : ℕ) → order a b ≢ greater → a ≤ b
not_greater a b h = ground arith

order_trans : (a b c : ℕ) → order a b ≢ greater → order b c ≢ greater → order a c ≢ greater
order_trans a b c h k e = let p = not_greater a b h in let q = not_greater b c k in ground arith

abbrev numbers : Comparison ℕ
numbers = record { compare = order; compare_flip = order-flip; compare_trans = order_trans }

-- An order of texts: by length.
abbrev by_length : Comparison Text
by_length = record {
  compare = λ s t. order (length s) (length t);
  compare_flip = λ s t. order-flip (length s) (length t);
  compare_trans = λ s t u. order_trans (length s) (length t) (length u);
}

abbrev numeric : ℕ → ℕ → Item ℕ
numeric el n = record {
  el = el;
  text = codes "a b";
  shown = true;
  sort_keys = record { num = some n; str = some (codes "n") } ∷ [];
}

abbrev textual : ℕ → Text → Item ℕ
textual el t = record {
  el = el;
  text = t;
  shown = true;
  sort_keys = record { num = none; str = some t } ∷ [];
}

abbrev table : Table ℕ
table = record {
  buttons = unsorted ∷ [];
  items = numeric 0 5 ∷ numeric 1 3 ∷ numeric 2 5 ∷ [];
  rows = 0 ∷ 1 ∷ 2 ∷ [];
}

abbrev texts : Table ℕ
texts = record {
  buttons = asc ∷ [];
  items = textual 0 (codes "a") ∷ textual 1 (codes "abc") ∷ [];
  rows = 0 ∷ 1 ∷ [];
}

abbrev value : Item ℕ → ℕ
value i = if i.el == 1 then 3 else 5

rows-sort_items : (sort_items order (λ s t. equal) 0 table).rows ≡ 1 ∷ 0 ∷ 2 ∷ []
unfolding sort_items
rows-sort_items = refl

rows-sort_items_twice :
    (sort_items order (λ s t. equal) 0 (sort_items order (λ s t. equal) 0 table)).rows
    ≡ 0 ∷ 2 ∷ 1 ∷ []
unfolding sort_items
rows-sort_items_twice = refl

abbrev is_blank : ℕ → Bool
is_blank c = c == 32

search_words-run : search_words is_blank (codes " ab  c ") ≡ codes "ab" ∷ codes "c" ∷ []
unfolding search_words
search_words-run = refl

sort_items-numbers_example :
    (items : List (Item ℕ)) × (sort_items order by_length.compare 0 table ≡ record {
      buttons = click_classes 0 (unsorted ∷ []);
      items = items;
      rows = map (λ i. i.el) items;
    })
    × IsSortOf (directed false numbers) value table.items items
sort_items-numbers_example =
    sort_items-numbers numbers by_length value 0 table
      ((some (codes "n"), refl), ((some (codes "n"), refl), ((some (codes "n"), refl), tt)))

on_search-sort_items_example :
    on_search is_blank (λ s. s) (codes "ab") (sort_items order by_length.compare 0 texts)
    ≡ sort_items order by_length.compare 0 (on_search is_blank (λ s. s) (codes "ab") texts)
on_search-sort_items_example =
    on_search-sort_items is_blank (λ s. s) order by_length.compare (codes "ab") 0 texts

on_search-two_texts_example :
    map (λ i. i.shown) (on_search is_blank (λ s. s) (codes "a" ++ 32 ∷ codes "bc") texts).items
    ≡ both
        (map (λ i. i.shown) (on_search is_blank (λ s. s) (codes "a") texts).items)
        (map (λ i. i.shown) (on_search is_blank (λ s. s) (codes "bc") texts).items)
on_search-two_texts_example =
    on_search-two_texts is_blank (λ s. s) (codes "a") 32 (codes "bc") texts refl refl

abbrev row : TableRow
row = record { el = 7; text = codes "x 12"; cells = codes "x" ∷ codes "12" ∷ [] }

-- A column of texts, one of amounts and one of raw numbers.
abbrev columns : List Column
columns =
    record { column_type = some (codes "string"); raw_number = false; money = false }
    ∷ record { column_type = some (codes "number"); raw_number = false; money = true }
    ∷ record { column_type = some (codes "number"); raw_number = true; money = false }
    ∷ []

abbrev in_euro : Bool → Text → Text
in_euro money t = if money then t ++ codes " EUR" else t

abbrev amounts : List (List Text)
amounts = (codes "5" ∷ codes "6" ∷ codes "7" ∷ []) ∷ (codes "8" ∷ [] ∷ []) ∷ []

apply_number_formatting-run :
    apply_number_formatting (λ m t. some (in_euro m t)) columns amounts
    ≡ finished ((codes "5" ∷ codes "6 EUR" ∷ codes "7" ∷ []) ∷ (codes "8" ∷ [] ∷ []) ∷ [])
unfolding apply_number_formatting sqlpage.Prelude.text_eq sqlpage.Table.Format.format_cell
apply_number_formatting-run = refl

apply_number_formatting-Shows_example :
    (rows' : List (List Text)) × (apply_number_formatting
        (λ m t. some (in_euro m t))
        columns
        amounts
      ≡ finished rows')
    × ShowsRows in_euro columns amounts rows'
apply_number_formatting-Shows_example = apply_number_formatting-Shows in_euro columns amounts
