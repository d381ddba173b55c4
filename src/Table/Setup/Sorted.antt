-- ===== src/Table/Setup/Sorted.antt =====
-- That the sort buttons of a table sort by the numbers before the formatting.
use native.Mathlib.Nat.{zero-add}
use sqlpage.Prelude.{
  ℕ, ◌≡◌, refl, ap, ◌∙◌, subst, Bool, true, false, ◌||◌, Option, none, some, List, [], ◌∷◌, map,
  length, ltb, get_elem?, if◌then◌else◌, Text, Comparison, IsSortOf, All,
}
use sqlpage.Table.{
  Item, Table, TableRow, unsorted, is_asc, class_at, sort_key, table_parse_data, search_item,
  search_words, on_search, click_classes, sort_items,
}
use sqlpage.Table.Sort.{directed, HasKey, class_at-unsorted, sort_items-numbers}
use sqlpage.Table.Parse.{get_elem?-sort_keys_of}
use sqlpage.Table.Format.{Result, finished, threw, apply_number_formatting}
use sqlpage.Table.Setup.{
  TableElement, with_cells, set_texts, has_search, body_rows, show_result, first_search,
  setup_items, setup_listeners, setup_table, outcome,
}

module _ {N : Type 0} (parse_float : Text → Option N) (value : ℕ → N) (k : ℕ) where
  -- The cell of a row at the button's index is a number, the value of the row.
  abbrev pub HasNumber : TableRow → Type 0
  HasNumber tr =
      (str : Text) × (get_elem? tr.cells k ≡ some str) × (parse_float str ≡ some (value tr.el))

  abbrev HasValue : Item N → Type 0
  HasValue i = (str : Option Text) × HasKey k (some (value i.el)) str i

  table_parse_data-HasValue :
      (is_num : List Bool) (trs : List TableRow)
      → get_elem? is_num k ≡ some true
      → All HasNumber trs
      → All HasValue (table_parse_data parse_float is_num trs)
  unfolding table_parse_data
  table_parse_data-HasValue is_num [] b a = tt
  table_parse_data-HasValue is_num (tr ∷ trs) b ((str, at, number), a) = (
    (
      some str,
      get_elem?-sort_keys_of parse_float is_num 0 k tr.cells true b
          ∙ unfold sort_key in rw (zero-add, at, number) refl,
    ),
    table_parse_data-HasValue is_num trs b a,
  )

  set_texts-HasValue :
      (is : List (Item N)) (trs : List TableRow) → All HasValue is → All HasValue (set_texts is trs)
  set_texts-HasValue [] trs a = tt
  set_texts-HasValue (i ∷ is) [] a = a
  set_texts-HasValue (i ∷ is) (tr ∷ trs) (h, a) = (h, set_texts-HasValue is trs a)

  search-HasValue :
      (is_space : ℕ → Bool) (lower : Text → Text) (words : List Text) (is : List (Item N))
      → All HasValue is
      → All HasValue (map (search_item is_space lower words) is)
  unfolding search_item
  search-HasValue is_space lower words [] a = tt
  search-HasValue is_space lower words (i ∷ is) (h, a) =
      (h, search-HasValue is_space lower words is a)

module _ {N : Type 0} (parse_float : Text → Option N) (value : ℕ → N) (k : ℕ) where
  first_search-HasValue :
      (is_space : ℕ → Bool) (lower : Text → Text) (search : Option Text) (u : Table N)
      → All (HasValue parse_float value k) u.items
      → All (HasValue parse_float value k) (first_search is_space lower search u).items
  unfolding on_search
  first_search-HasValue is_space lower none u a = a
  first_search-HasValue is_space lower (some v) u a =
      search-HasValue parse_float value k is_space lower (search_words is_space (lower v)) u.items a

  module _ (row_text : ℕ → List Text → Text) where
    setup_items-HasValue :
        (t : TableElement N)
        → get_elem? t.is_num k ≡ some true
        → All (HasNumber parse_float value k) (body_rows row_text t.table_rows)
        → All (HasValue parse_float value k) (setup_items row_text parse_float t)
    unfolding setup_items
    setup_items-HasValue t b a = go (has_search t.search_input || ltb 0 (length t.is_num))
      where
        go :
            (c : Bool)
            → All (HasValue parse_float value k) (
                if c
                then table_parse_data parse_float t.is_num (body_rows row_text t.table_rows)
                else [])
        go true =
            table_parse_data-HasValue parse_float value k t.is_num (body_rows row_text t.table_rows)
              b a
        go false = tt

    show_result-HasValue :
        (u : TableElement N) (r : Result (List (List Text)))
        → All (HasValue parse_float value k) u.table.items
        → All (HasValue parse_float value k) (outcome (show_result row_text u r)).table.items
    unfolding show_result
    show_result-HasValue u (finished css) a =
        set_texts-HasValue parse_float value k u.table.items
          (body_rows row_text (with_cells u.table_rows css)) a
    show_result-HasValue u (threw css) a =
        set_texts-HasValue parse_float value k u.table.items
          (body_rows row_text (with_cells u.table_rows css)) a

first_search-buttons :
    (is_space : ℕ → Bool) (lower : Text → Text) {N : Type 0} (search : Option Text) (u : Table N)
    → (first_search is_space lower search u).buttons ≡ u.buttons
unfolding on_search
first_search-buttons is_space lower none u = refl
first_search-buttons is_space lower (some v) u = refl

show_result-buttons :
    (row_text : ℕ → List Text → Text) {N : Type 0} (u : TableElement N)
    (r : Result (List (List Text)))
    → (outcome (show_result row_text u r)).table.buttons ≡ u.table.buttons
unfolding show_result
show_result-buttons row_text u (finished css) = refl
show_result-buttons row_text u (threw css) = refl

module _ (row_text : ℕ → List Text → Text) (is_space : ℕ → Bool) (lower : Text → Text) {N : Type 0}
    (parse_float : Text → Option N) (to_locale : Bool → Text → Option Text) where
  -- The table's element after setup_table.
  abbrev pub set_up : TableElement N → TableElement N
  set_up t = outcome (setup_table row_text parse_float is_space lower to_locale t)

  abbrev results : TableElement N → Result (List (List Text))
  results t = apply_number_formatting to_locale t.columns (map (λ r. r.cells) t.table_rows)

  set_up-HasValue :
      (value : ℕ → N) (k : ℕ) (t : TableElement N)
      → get_elem? t.is_num k ≡ some true
      → All (HasNumber parse_float value k) (body_rows row_text t.table_rows)
      → All (HasValue parse_float value k) (set_up t).table.items
  unfolding setup_table
  set_up-HasValue value k t b a =
      show_result-HasValue parse_float value k row_text
        (setup_listeners row_text parse_float is_space lower t) (results t)
        (unfold setup_listeners in
          first_search-HasValue parse_float value k is_space lower t.search_input _
            (setup_items-HasValue parse_float value k row_text t b a))

  set_up-unsorted : (k : ℕ) (t : TableElement N) → class_at (set_up t).table.buttons k ≡ unsorted
  unfolding setup_table setup_listeners
  set_up-unsorted k t =
      ap (λ bs. class_at bs k)
        (show_result-buttons row_text (setup_listeners row_text parse_float is_space lower t)
            (results t)
          ∙ first_search-buttons is_space lower t.search_input _)
      ∙ class_at-unsorted t.is_num k

  module _ (c : Comparison N) (d : Comparison Text) where
    -- In a table after setup_table, whether or not the formatting threw, the first click on a sort
    -- button in a column of numbers puts the rows in the order of the numbers that their cells had
    -- before the formatting; rows with equal numbers keep their order.
    pub setup_table-sort_items :
        (value : ℕ → N) (k : ℕ) (t : TableElement N)
        → get_elem? t.is_num k ≡ some true
        → All (HasNumber parse_float value k) (body_rows row_text t.table_rows)
        → (items : List (Item N)) × (sort_items c.compare d.compare k (set_up t).table ≡ record {
          buttons = click_classes k (set_up t).table.buttons;
          items = items;
          rows = map (λ i. i.el) items;
        })
          × IsSortOf (directed false c) (λ i. value i.el) (set_up t).table.items items
    setup_table-sort_items value k t b a =
        subst
          (λ asc.
            (items : List (Item N)) × (sort_items c.compare d.compare k (set_up t).table ≡ record {
              buttons = click_classes k (set_up t).table.buttons;
              items = items;
              rows = map (λ i. i.el) items;
            })
            × IsSortOf (directed asc c) (λ i. value i.el) (set_up t).table.items items)
          (ap is_asc (set_up-unsorted k t))
          (sort_items-numbers c d (λ i. value i.el) k (set_up t).table
            (set_up-HasValue value k t b a))
