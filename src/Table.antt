-- ===== src/Table.antt =====
-- setup_table of sqlpage/sqlpage.js: the search field and the sort buttons of a table. What
-- JavaScript's engine does with text and numbers is a parameter: lower case, white space,
-- parseFloat (`none` for NaN), localeCompare and the sign of a difference of numbers.
pub mod Sort
pub mod Format
pub mod Parse
pub mod Setup
mod Tests
pub mod Search
use mathlib.Core.Option
use sqlpage.Prelude.{
  ℕ, zero, suc, Bool, true, false, not, ◌||◌, ◌&&◌, Option, none, some, List, [], ◌∷◌, ◌++◌, map,
  get_elem?, set, length, ◌==◌, if◌then◌else◌, Text, nonempty, push_head, all, Order, flip, sort,
}

-- The classes "asc" and "desc" of a sort button.
pub data SortClass : Type 0 where
  unsorted : SortClass
  asc : SortClass
  desc : SortClass

abbrev pub is_asc : SortClass → Bool
is_asc unsorted = false
is_asc asc = true
is_asc desc = false

-- A missing button has no class.
abbrev pub class_at : List SortClass → ℕ → SortClass
class_at [] k = unsorted
class_at (b ∷ bs) zero = b
class_at (b ∷ bs) (suc k) = class_at bs k

-- `none` stands for NaN in `num` and for undefined in `str`.
pub record SortKey (N : Type 0) : Type 0 where
  pub num : Option N
  pub str : Option Text

-- A row of the table: the element's identity, its text, what its style shows, and its keys.
pub record Item (N : Type 0) : Type 0 where
  pub el : ℕ
  pub text : Text
  pub shown : Bool
  pub sort_keys : List (SortKey N)

pub record Table (N : Type 0) : Type 0 where
  pub buttons : List SortClass
  pub items : List (Item N)
  pub rows : List ℕ

-- A table row before it is parsed.
pub record TableRow : Type 0 where
  pub el : ℕ
  pub text : Text
  pub cells : List Text

unfoldable pub starts_with : Text → Text → Bool
starts_with [] t = true
starts_with (c ∷ s) [] = false
starts_with (c ∷ s) (d ∷ t) = (c == d) && starts_with s t

-- `t.includes(s)`
unfoldable pub contains : Text → Text → Bool
unfolding starts_with
contains s [] = starts_with s []
contains s (c ∷ t) = starts_with s (c ∷ t) || contains s t

-- `s.filter((s) => s)`
unfoldable pub filter_nonempty : List Text → List Text
filter_nonempty [] = []
filter_nonempty (t ∷ ts) = if nonempty t then t ∷ filter_nonempty ts else filter_nonempty ts

module _ (is_space : ℕ → Bool) where
  -- `s.split(/\s+/)`; `gap` says that the text so far ends in white space.
  unfoldable pub split_spaces : Bool → Text → List Text
  split_spaces gap [] = [] ∷ []
  split_spaces gap (c ∷ s) =
      if is_space c
      then (if gap then split_spaces true s else [] ∷ split_spaces true s)
      else push_head c (split_spaces false s)

  unfoldable pub search_words : Text → List Text
  unfolding split_spaces filter_nonempty
  search_words s = filter_nonempty (split_spaces false s)

  module _ (lower : Text → Text) {N : Type 0} where
    unfoldable pub search_item : List Text → Item N → Item N
    unfolding contains
    search_item lower_search item = record item {
      shown = all (λ s. contains s (lower item.text)) lower_search;
    }

    unfoldable pub on_search : Text → Table N → Table N
    unfolding search_item search_words
    on_search value t = record t { items = map (search_item (search_words (lower value))) t.items }

module _ {N : Type 0} (parse_float : Text → Option N) where
  -- `cells[idx]?.textContent` and its number, which is NaN for a missing cell.
  unfoldable pub sort_key : Bool → Option Text → SortKey N
  sort_key is_num none = record { num = none; str = none }
  sort_key is_num (some str) = record {
    num = if is_num then parse_float str else none;
    str = some str;
  }

  unfoldable pub sort_keys_of : List Bool → ℕ → List Text → List (SortKey N)
  unfolding sort_key
  sort_keys_of [] idx cells = []
  sort_keys_of (is_num ∷ more) idx cells =
      sort_key is_num (get_elem? cells idx) ∷ sort_keys_of more (suc idx) cells

  unfoldable pub table_parse_data : List Bool → List TableRow → List (Item N)
  unfolding sort_keys_of
  table_parse_data is_num trs =
      map
        (λ tr. record {
          el = tr.el;
          text = tr.text;
          shown = true;
          sort_keys = sort_keys_of is_num 0 tr.cells;
        })
        trs

-- `a_key.str.localeCompare(b_key.str)` makes the text "undefined" of a missing `b_key.str`, and
-- throws on a missing `a_key.str`.
unfoldable pub compare_strings : (Text → Text → Order) → Option Text → Option Text → Option Order
compare_strings locale_compare none b = none
compare_strings locale_compare (some a) none = some (locale_compare a undefined_text)
  where
    undefined_text : Text
    undefined_text = 117 ∷ 110 ∷ 100 ∷ 101 ∷ 102 ∷ 105 ∷ 110 ∷ 101 ∷ 100 ∷ []
compare_strings locale_compare (some a) (some b) = some (locale_compare a b)

unfoldable pub compare_nums :
    {N : Type 0} → (N → N → Order) → Option N → Option N → Option Order → Option Order
compare_nums compare_numbers (some a) (some b) strings = some (compare_numbers a b)
compare_nums compare_numbers (some a) none strings = strings
compare_nums compare_numbers none b strings = strings

abbrev pub multiply : Bool → Order → Order
multiply sort_desc o = if sort_desc then flip o else o

-- The classes after a click: all are removed, and the button gets one.
unfoldable pub click_classes : ℕ → List SortClass → List SortClass
click_classes button_index buttons =
    set (map (λ b. unsorted) buttons) button_index
      (if is_asc (class_at buttons button_index) then desc else asc)

-- `items` and the rows of `item_parent` after the sort; both stay when a comparison throws.
unfoldable pub place_items : {N : Type 0} → Table N → Option (List (Item N)) → Table N
place_items t none = t
place_items t (some items) = record t { items = items; rows = map (λ i. i.el) items }

module _ {N : Type 0} (compare_numbers : N → N → Order) (locale_compare : Text → Text → Order) where
  unfoldable pub compare_keys : Option (SortKey N) → Option (SortKey N) → Option Order
  unfolding compare_nums compare_strings
  compare_keys (some a) (some b) =
      compare_nums compare_numbers a.num b.num (compare_strings locale_compare a.str b.str)
  compare_keys (some a) none = none
  compare_keys none b = none

  unfoldable pub compare_items : Bool → ℕ → Item N → Item N → Option Order
  unfolding compare_keys
  compare_items sort_desc button_index a b =
      Option.map (multiply sort_desc)
        (compare_keys (get_elem? a.sort_keys button_index) (get_elem? b.sort_keys button_index))

  -- The click handler of a sort button.
  unfoldable pub sort_items : ℕ → Table N → Table N
  unfolding compare_items click_classes place_items
  sort_items button_index t =
      let sort_desc = is_asc (class_at t.buttons button_index) in
      place_items (record t { buttons = click_classes button_index t.buttons })
        (sort (compare_items sort_desc button_index) t.items)
