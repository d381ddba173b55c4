-- ===== src/Table/Setup/Searched.antt =====
-- Which rows of a table a search shows, when the table is set up and later.
use sqlpage.Prelude.{
  ℕ, suc, ◌≡◌, refl, ap, sym, ◌∙◌, Bool, Option, some, List, [], ◌∷◌, map, length, Text, all,
  Bool-cases, inl, inr, arith,
}
use sqlpage.Table.{Item, TableRow, contains, table_parse_data, search_item, search_words, on_search}
use sqlpage.Table.Format.{Result, finished, threw, apply_number_formatting}
use sqlpage.Table.Setup.{
  PageRow, TableElement, with_cells, set_texts, body_rows, show_result, setup_items,
  setup_listeners, setup_table, outcome,
}
use sqlpage.Table.Setup.Sorted.{set_up}

-- The texts of the rows in the body of a table.
abbrev pub texts_of : (ℕ → List Text → Text) → List PageRow → List Text
texts_of row_text rows = map (λ tr. tr.text) (body_rows row_text rows)

-- Whether each text has all the words of a search.
abbrev pub matches : (ℕ → Bool) → (Text → Text) → Text → List Text → List Bool
matches is_space lower value texts =
    map (λ text. all (λ s. contains s (lower text)) (search_words is_space (lower value))) texts

module _ {N : Type 0} where
  shown-set_texts :
      (is : List (Item N)) (trs : List TableRow)
      → map (λ i. i.shown) (set_texts is trs) ≡ map (λ i. i.shown) is
  shown-set_texts [] trs = refl
  shown-set_texts (i ∷ is) [] = refl
  shown-set_texts (i ∷ is) (tr ∷ trs) = ap (i.shown ∷◌) (shown-set_texts is trs)

  text-set_texts :
      (is : List (Item N)) (trs : List TableRow)
      → length is ≡ length trs
      → map (λ i. i.text) (set_texts is trs) ≡ map (λ tr. tr.text) trs
  text-set_texts [] [] e = refl
  text-set_texts [] (tr ∷ trs) e = absurd (omega arith)
  text-set_texts (i ∷ is) [] e = absurd (omega arith)
  text-set_texts (i ∷ is) (tr ∷ trs) e = ap (tr.text ∷◌) (text-set_texts is trs (omega arith))

  module _ (is_space : ℕ → Bool) (lower : Text → Text) (value : Text) where
    shown-search :
        (is : List (Item N))
        → map
            (λ i. i.shown)
            (map (search_item is_space lower (search_words is_space (lower value))) is)
          ≡ matches is_space lower value (map (λ i. i.text) is)
    unfolding search_item
    shown-search [] = refl
    shown-search (i ∷ is) =
        ap ((search_item is_space lower (search_words is_space (lower value)) i).shown ∷◌)
          (shown-search is)

    length-search :
        (ws : List Text) (is : List (Item N))
        → length (map (search_item is_space lower ws) is) ≡ length is
    length-search ws [] = refl
    length-search ws (i ∷ is) = ap suc (length-search ws is)

  module _ (parse_float : Text → Option N) (is_num : List Bool) where
    text-table_parse_data :
        (trs : List TableRow)
        → map (λ i. i.text) (table_parse_data parse_float is_num trs) ≡ map (λ tr. tr.text) trs
    unfolding table_parse_data
    text-table_parse_data [] = refl
    text-table_parse_data (tr ∷ trs) = ap (tr.text ∷◌) (text-table_parse_data trs)

    length-table_parse_data :
        (trs : List TableRow) → length (table_parse_data parse_float is_num trs) ≡ length trs
    unfolding table_parse_data
    length-table_parse_data [] = refl
    length-table_parse_data (tr ∷ trs) = ap suc (length-table_parse_data trs)

module _ (row_text : ℕ → List Text → Text) where
  length-body_rows :
      (rows : List PageRow) (css : List (List Text))
      → length (body_rows row_text (with_cells rows css)) ≡ length (body_rows row_text rows)
  unfolding body_rows
  length-body_rows [] css = refl
  length-body_rows (r ∷ rows) [] = refl
  length-body_rows (r ∷ rows) (cells ∷ css) = elim (Bool-cases r.in_body) [
    | inl b ↦ rw b (ap suc (length-body_rows rows css))
    | inr b ↦ rw b (length-body_rows rows css)
  ]

  module _ {N : Type 0} (v : TableElement N) where
    shown-show_result :
        (r : Result (List (List Text)))
        → map (λ i. i.shown) (outcome (show_result row_text v r)).table.items
          ≡ map (λ i. i.shown) v.table.items
    unfolding show_result
    shown-show_result (finished css) =
        shown-set_texts v.table.items (body_rows row_text (with_cells v.table_rows css))
    shown-show_result (threw css) =
        shown-set_texts v.table.items (body_rows row_text (with_cells v.table_rows css))

    text-show_result :
        (r : Result (List (List Text)))
        → length v.table.items ≡ length (body_rows row_text v.table_rows)
        → map (λ i. i.text) (outcome (show_result row_text v r)).table.items
          ≡ texts_of row_text (outcome (show_result row_text v r)).table_rows
    unfolding show_result
    text-show_result (finished css) e =
        text-set_texts v.table.items (body_rows row_text (with_cells v.table_rows css))
          (e ∙ sym (length-body_rows v.table_rows css))
    text-show_result (threw css) e =
        text-set_texts v.table.items (body_rows row_text (with_cells v.table_rows css))
          (e ∙ sym (length-body_rows v.table_rows css))

  module _ (is_space : ℕ → Bool) (lower : Text → Text) {N : Type 0} (parse_float : Text → Option N)
      (to_locale : Bool → Text → Option Text) where
    abbrev parsed : TableElement N → List (Item N)
    parsed t = table_parse_data parse_float t.is_num (body_rows row_text t.table_rows)

    rows-setup_listeners :
        (t : TableElement N)
        → (setup_listeners row_text parse_float is_space lower t).table_rows ≡ t.table_rows
    unfolding setup_listeners
    rows-setup_listeners t = refl

    items-setup_listeners :
        (t : TableElement N) (first : Text)
        → t.search_input ≡ some first
        → (setup_listeners row_text parse_float is_space lower t).table.items
          ≡ map (search_item is_space lower (search_words is_space (lower first))) (parsed t)
    unfolding setup_listeners setup_items on_search
    items-setup_listeners t first s = rw s refl

    -- The first search, in the set-up of a table, shows the rows whose texts before the formatting
    -- have the words of the search. A later search, also one for the same value, shows the rows
    -- whose texts after the formatting have them.
    pub setup_table-on_search :
        (t : TableElement N) (first later : Text)
        → t.search_input ≡ some first
        → let u = set_up row_text is_space lower parse_float to_locale t in
          (map (λ i. i.shown) u.table.items
            ≡ matches is_space lower first (texts_of row_text t.table_rows))
          × (map (λ i. i.shown) (on_search is_space lower later u.table).items
              ≡ matches is_space lower later (texts_of row_text u.table_rows))
    unfolding setup_table on_search
    setup_table-on_search t first later s =
        let v = setup_listeners row_text parse_float is_space lower t in
        let r = apply_number_formatting to_locale t.columns (map (λ r. r.cells) t.table_rows) in
        let trs = body_rows row_text t.table_rows in
        let same : length v.table.items ≡ length trs =
          ap length (items-setup_listeners t first s)
          ∙ length-search is_space lower first (search_words is_space (lower first)) (parsed t)
          ∙ length-table_parse_data parse_float t.is_num trs in
        (
          shown-show_result v r
              ∙ ap (map (λ i. i.shown)) (items-setup_listeners t first s)
              ∙ shown-search is_space lower first (parsed t)
              ∙ ap (matches is_space lower first) (text-table_parse_data parse_float t.is_num trs),
          shown-search is_space lower later _
              ∙ ap (matches is_space lower later) (
                  text-show_result v r (
                    same
                    ∙ ap (λ rows. length (body_rows row_text rows))
                        (sym (rows-setup_listeners t)))),
        )
