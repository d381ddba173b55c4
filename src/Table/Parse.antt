-- ===== src/Table/Parse.antt =====
-- table_parse_data of sqlpage/sqlpage.js.
use native.Mathlib.Nat.{zero-add}
use sqlpage.Prelude.{
  ℕ, zero, suc, ◌+◌, ◌≡◌, refl, sym, ◌∙◌, Bool, Option, none, some, List, [], ◌∷◌, get_elem?,
  if◌then◌else◌, Text, arith,
}
use sqlpage.Table.{Item, TableRow, sort_key, sort_keys_of, table_parse_data}
use sqlpage.Table.Sort.{HasKey}

module _ {N : Type 0} (parse_float : Text → Option N) where
  pub get_elem?-sort_keys_of :
      (is_num : List Bool) (idx k : ℕ) (cells : List Text) (b : Bool)
      → get_elem? is_num k ≡ some b
      → get_elem? (sort_keys_of parse_float is_num idx cells) k
        ≡ some (sort_key parse_float b (get_elem? cells (idx + k)))
  unfolding sort_keys_of
  get_elem?-sort_keys_of [] idx k cells b h = cc
  get_elem?-sort_keys_of (c ∷ is_num) idx zero cells b h =
      let e : c ≡ b = cc in let f : idx + 0 ≡ idx = omega arith in rw (e, f) refl
  get_elem?-sort_keys_of (c ∷ is_num) idx (suc k) cells b h =
      let f : idx + suc k ≡ suc idx + k = omega arith in
      rw f (get_elem?-sort_keys_of is_num (suc idx) k cells b h)

  -- Every row of the table is an item, whose key for a sort button is the text of the cell at the
  -- button's index, with its number if the button's column is of numbers.
  pub table_parse_data-HasKey :
      (is_num : List Bool) (trs : List TableRow) (j k : ℕ) (tr : TableRow) (b : Bool) (str : Text)
      → get_elem? trs j ≡ some tr
      → get_elem? is_num k ≡ some b
      → get_elem? tr.cells k ≡ some str
      → (item : Item N) × (get_elem? (table_parse_data parse_float is_num trs) j ≡ some item)
        × (item.el ≡ tr.el)
        × HasKey k (if b then parse_float str else none) (some str) item
  unfolding table_parse_data
  table_parse_data-HasKey is_num [] j k tr b str h p q = cc
  table_parse_data-HasKey is_num (r ∷ trs) zero k tr b str h p q =
      let e : tr ≡ r = cc in
      (
        _,
        refl,
        rw e refl,
        get_elem?-sort_keys_of is_num 0 k r.cells b p
            ∙ unfold sort_key in rw (zero-add, sym e, q) refl,
      )
  table_parse_data-HasKey is_num (r ∷ trs) (suc j) k tr b str h p q =
      table_parse_data-HasKey is_num trs j k tr b str h p q
