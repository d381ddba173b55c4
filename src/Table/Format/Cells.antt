-- ===== src/Table/Format/Cells.antt =====
-- Which cells apply_number_formatting changes, and which tables sqlpage_table reaches.
use sqlpage.Prelude.{
  ◌≢◌, ◌⊎◌, subst, not, ◌&&◌, nonempty, get_or_else, inl, inr, sym, codes, text_eq, text_eq_iff,
  Bool-cases, ℕ, suc, ◌≡◌, refl, ap, Bool, true, false, Option, none, some, List, [], ◌∷◌, ◌++◌,
  map, length, get_elem?, if◌then◌else◌, Text,
}
use sqlpage.Table.Format.{
  Column, Result, finished, threw, is_number, is_formatted, is_money, format_cell, format_cells,
  apply_number_formatting, sqlpage_table,
}

module _ (locale : Bool → Text → Text) where
  -- The text of a cell whose column is of numbers and not raw, and which is not empty, in the locale;
  -- any other text as it is.
  abbrev formatted : Option Column → Text → Text
  formatted col text = if is_formatted col text then locale (is_money col) text else text

  -- The formatted texts of a row, by the index of the cell.
  abbrev formatted_from : List Column → ℕ → List Text → List Text
  formatted_from cols i [] = []
  formatted_from cols i (text ∷ cells) =
      formatted (get_elem? cols i) text ∷ formatted_from cols (suc i) cells

  format_cell-some :
      (col : Option Column) (text : Text)
      → format_cell (λ m t. some (locale m t)) col text ≡ some (formatted col text)
  unfolding format_cell
  format_cell-some col text = go (is_formatted col text)
    where
      go :
          (b : Bool)
          → (if b then some (locale (is_money col) text) else some text)
            ≡ some (if b then locale (is_money col) text else text)
      go true = refl
      go false = refl

  formatted_from-suc :
      (col : Column) (cols : List Column) (i : ℕ) (cells : List Text)
      → formatted_from (col ∷ cols) (suc i) cells ≡ formatted_from cols i cells
  formatted_from-suc col cols i [] = refl
  formatted_from-suc col cols i (text ∷ cells) =
      ap (formatted (get_elem? cols i) text ∷◌) (formatted_from-suc col cols (suc i) cells)

  formatted_from-none :
      (i : ℕ) (cells : List Text) → formatted_from [] (suc i) cells ≡ formatted_from [] i cells
  formatted_from-none i [] = refl
  formatted_from-none i (text ∷ cells) =
      ap (formatted none text ∷◌) (formatted_from-none (suc i) cells)

  format_cells-formatted :
      (cols : List Column) (cells : List Text)
      → format_cells (λ m t. some (locale m t)) cols cells ≡ finished (formatted_from cols 0 cells)
  unfolding format_cells
  format_cells-formatted cols [] = refl
  format_cells-formatted [] (text ∷ cells) =
      rw (format_cell-some none text, format_cells-formatted [] cells, formatted_from-none 0 cells)
  format_cells-formatted (col ∷ cols) (text ∷ cells) = rw (
    format_cell-some (some col) text,
    format_cells-formatted cols cells,
    formatted_from-suc col cols 0 cells,
  )

  apply_number_formatting-formatted :
      (cols : List Column) (rows : List (List Text))
      → apply_number_formatting (λ m t. some (locale m t)) cols rows
        ≡ finished (map (formatted_from cols 0) rows)
  unfolding apply_number_formatting
  apply_number_formatting-formatted cols [] = refl
  apply_number_formatting-formatted cols (row ∷ rows) =
      rw (format_cells-formatted cols row, apply_number_formatting-formatted cols rows) refl

-- What a cell shows afterwards: the text in the locale, with a currency or without, if its column has
-- the type "number" and no raw numbers and the cell has a text, and in each other case what it did.
pub data Shows (locale : Bool → Text → Text) : Option Column → Text → Text → Type 0 where
  in_locale :
      (money : Bool) (c : ℕ) (s : Text)
      → Shows locale
          (some (record { column_type = some (codes "number"); raw_number = false; money = money }))
          (c ∷ s)
          (locale money (c ∷ s))
  no_column : (t : Text) → Shows locale none t t
  other_type :
      (col : Column) (t : Text)
      → col.column_type ≢ some (codes "number")
      → Shows locale (some col) t t
  raw_numbers : (col : Column) (t : Text) → col.raw_number ≡ true → Shows locale (some col) t t
  no_text : (col : Option Column) → Shows locale col [] []

is_number_cases :
    (o : Option Text)
    → ((is_number o ≡ true) × (o ≡ some (codes "number")))
      ⊎ ((is_number o ≡ false) × (o ≢ some (codes "number")))
unfolding is_number
is_number_cases none = inr (refl, (λ e. cc))
is_number_cases (some t) = elim (Bool-cases (text_eq t (codes "number"))) [
  | inl a ↦ inl (a, ap some ((text_eq_iff t (codes "number")).0 a))
  | inr b ↦
      inr
        (b, (λ e. let q = (text_eq_iff t (codes "number")).1 (ap (λ o. get_or_else o []) e) in cc))
]

module _ (locale : Bool → Text → Text) where
  formatted-Shows : (col : Option Column) (t : Text) → Shows locale col t (formatted locale col t)
  unfolding is_formatted is_money
  formatted-Shows none t = no_column t
  formatted-Shows (some col) t = elim (is_number_cases col.column_type) [
    | inl (e, p) ↦ rw e (
        subst
          (λ o.
            Shows locale (some (record col { column_type = o })) t
              (if true && (not col.raw_number && nonempty t) then locale col.money t else t))
          (sym p) (numeric col.raw_number col.money t))
    | inr (e, n) ↦ rw e (other_type col t n)
  ]
    where
      numeric :
          (raw money : Bool) (t : Text)
          → Shows locale
              (some
                (record { column_type = some (codes "number"); raw_number = raw; money = money }))
              t
              (if not raw && nonempty t then locale money t else t)
      numeric true money t = raw_numbers _ t refl
      numeric false money [] = no_text _
      numeric false money (c ∷ s) = in_locale money c s

  -- The cells of a row show these texts afterwards, each by its own column, and they are as many.
  abbrev pub ShowsCells : List Column → ℕ → List Text → List Text → Type 0
  ShowsCells cols i [] [] = Unit
  ShowsCells cols i [] (t' ∷ cells') = ⊥
  ShowsCells cols i (t ∷ cells) [] = ⊥
  ShowsCells cols i (t ∷ cells) (t' ∷ cells') =
      Shows locale (get_elem? cols i) t t' × ShowsCells cols (suc i) cells cells'

  -- The same of all rows.
  abbrev pub ShowsRows : List Column → List (List Text) → List (List Text) → Type 0
  ShowsRows cols [] [] = Unit
  ShowsRows cols [] (row' ∷ rows') = ⊥
  ShowsRows cols (row ∷ rows) [] = ⊥
  ShowsRows cols (row ∷ rows) (row' ∷ rows') =
      ShowsCells cols 0 row row' × ShowsRows cols rows rows'

  formatted_from-ShowsCells :
      (cols : List Column) (i : ℕ) (cells : List Text)
      → ShowsCells cols i cells (formatted_from locale cols i cells)
  formatted_from-ShowsCells cols i [] = tt
  formatted_from-ShowsCells cols i (t ∷ cells) =
      (formatted-Shows (get_elem? cols i) t, formatted_from-ShowsCells cols (suc i) cells)

  map-ShowsRows :
      (cols : List Column) (rows : List (List Text))
      → ShowsRows cols rows (map (formatted_from locale cols 0) rows)
  map-ShowsRows cols [] = tt
  map-ShowsRows cols (row ∷ rows) = (formatted_from-ShowsCells cols 0 row, map-ShowsRows cols rows)

  -- Where toLocaleString does not throw, the formatting reaches all rows and cells: a cell that has a
  -- text and whose own column has the type "number" and no raw numbers shows the text in the locale,
  -- with a currency if the column has one, and each other cell shows the text that it did.
  pub apply_number_formatting-Shows :
      (cols : List Column) (rows : List (List Text))
      → (rows' : List (List Text)) × (apply_number_formatting (λ m t. some (locale m t)) cols rows
          ≡ finished rows')
        × ShowsRows cols rows rows'
  apply_number_formatting-Shows cols rows = (
    map (formatted_from locale cols 0) rows,
    apply_number_formatting-formatted locale cols rows,
    map-ShowsRows cols rows,
  )

module _ {A : Type 0} (setup_table : A → Result A) where
  abbrev pub Finishes : List A → Type 0
  Finishes [] = Unit
  Finishes (t ∷ ts) = ((u : A) × (setup_table t ≡ finished u)) × Finishes ts

  -- A table whose set-up throws stops the loop: the tables behind it are not reached, and still wait.
  pub sqlpage_table-threw :
      (before : List A) (t u : A) (after : List A)
      → Finishes before
      → setup_table t ≡ threw u
      → ((sqlpage_table setup_table (before ++ t ∷ after)).waiting ≡ after)
        × (length (sqlpage_table setup_table (before ++ t ∷ after)).reached ≡ suc (length before))
  unfolding sqlpage_table
  sqlpage_table-threw [] t u after f e = rw e (refl, refl)
  sqlpage_table-threw (s ∷ before) t u after ((v, g), f) e =
      let (a, b) = sqlpage_table-threw before t u after f e in rw g (a, ap suc b)
