-- ===== src/Table/Sort.antt =====
-- The click handler of a sort button, in setup_sort_behavior of sqlpage/sqlpage.js.
use sqlpage.Prelude.{
  ℕ, zero, suc, ◌<◌, ◌≡◌, refl, ap, sym, ◌∙◌, Bool, true, false, Option, none, some, List, [], ◌∷◌,
  map, get_elem?, set, length, ◌==◌, if◌then◌else◌, Text, All, Order, less, equal, greater, flip,
  Comparison, sort, IsSortOf, sort-IsSortOf, arith,
}
use sqlpage.Table.{
  SortClass, unsorted, asc, desc, is_asc, class_at, Item, Table, compare_strings, compare_nums,
  compare_keys, compare_items, multiply, click_classes, place_items, sort_items,
}

flip-flip : (o : Order) → flip (flip o) ≡ o
flip-flip less = refl
flip-flip equal = refl
flip-flip greater = refl

-- The comparison, or its opposite.
abbrev pub directed : {A : Type 0} → Bool → Comparison A → Comparison A
directed false c = c
directed true c = record {
  compare = λ a b. flip (c.compare a b);
  compare_flip = λ a b. ap flip (c.compare_flip a b);
  compare_trans = λ a b d p q.
      rw (sym (c.compare_flip a d))
        (c.compare_trans d b a (rw (c.compare_flip b d) q) (rw (c.compare_flip a b) p));
}

directed_compare :
    {A : Type 0} (sort_desc : Bool) (c : Comparison A) (a b : A)
    → (directed sort_desc c).compare a b ≡ multiply sort_desc (c.compare a b)
directed_compare true c a b = refl
directed_compare false c a b = refl

-- The item's key for a button.
abbrev pub HasKey : {N : Type 0} → ℕ → Option N → Option Text → Item N → Type 0
HasKey k num str i = get_elem? i.sort_keys k ≡ some (record { num = num; str = str })

module _ {N : Type 0} (c : Comparison N) (d : Comparison Text) where
  place_items-IsSortOf :
      {B : Type 0} (e : Comparison B) (key : Item N → B) (P : Item N → Type 0) (k : ℕ) (t : Table N)
      → ((x y : Item N)
          → P x
          → P y
          → compare_items c.compare d.compare (is_asc (class_at t.buttons k)) k x y
            ≡ some ((directed (is_asc (class_at t.buttons k)) e).compare (key x) (key y)))
      → All P t.items
      → (items : List (Item N)) × (sort_items c.compare d.compare k t ≡ record {
        buttons = click_classes k t.buttons;
        items = items;
        rows = map (λ i. i.el) items;
      })
        × IsSortOf (directed (is_asc (class_at t.buttons k)) e) key t.items items
  unfolding sort_items place_items
  place_items-IsSortOf e key P k t follows h =
      let (items, q, sorted) =
        sort-IsSortOf (directed (is_asc (class_at t.buttons k)) e) key
          (compare_items c.compare d.compare (is_asc (class_at t.buttons k)) k) P t.items follows
          h in
      (items, rw q refl, sorted)

  compare_items-numbers :
      (k : ℕ) (sort_desc : Bool) (value : Item N → N) (x y : Item N)
      → ((str : Option Text) × HasKey k (some (value x)) str x)
      → ((str : Option Text) × HasKey k (some (value y)) str y)
      → compare_items c.compare d.compare sort_desc k x y
        ≡ some ((directed sort_desc c).compare (value x) (value y))
  unfolding compare_items compare_keys compare_nums
  compare_items-numbers k sort_desc value x y (s, p) (t, q) =
      rw (p, q, directed_compare sort_desc c (value x) (value y)) refl

  compare_items-strings :
      (k : ℕ) (sort_desc : Bool) (label : Item N → Text) (x y : Item N)
      → HasKey k none (some (label x)) x
      → HasKey k none (some (label y)) y
      → compare_items c.compare d.compare sort_desc k x y
        ≡ some ((directed sort_desc d).compare (label x) (label y))
  unfolding compare_items compare_keys compare_nums compare_strings
  compare_items-strings k sort_desc label x y p q =
      rw (p, q, directed_compare sort_desc d (label x) (label y)) refl

  -- In a column of numbers, a click on its sort button puts the items and the rows of the table in
  -- the order of the numbers, or in the opposite order if the button has the class "asc"; rows with
  -- equal numbers keep their order.
  pub sort_items-numbers :
      (value : Item N → N) (k : ℕ) (t : Table N)
      → All (λ i. (str : Option Text) × HasKey k (some (value i)) str i) t.items
      → (items : List (Item N)) × (sort_items c.compare d.compare k t ≡ record {
        buttons = click_classes k t.buttons;
        items = items;
        rows = map (λ i. i.el) items;
      })
        × IsSortOf (directed (is_asc (class_at t.buttons k)) c) value t.items items
  sort_items-numbers value k t h =
      place_items-IsSortOf c value (λ i. (str : Option Text) × HasKey k (some (value i)) str i) k t
        (compare_items-numbers k (is_asc (class_at t.buttons k)) value) h

  -- In a column of texts, a click on its sort button puts the items and the rows of the table in the
  -- order of localeCompare, or in the opposite order if the button has the class "asc"; rows with
  -- equal texts keep their order.
  pub sort_items-texts :
      (label : Item N → Text) (k : ℕ) (t : Table N)
      → All (λ i. HasKey k none (some (label i)) i) t.items
      → (items : List (Item N)) × (sort_items c.compare d.compare k t ≡ record {
        buttons = click_classes k t.buttons;
        items = items;
        rows = map (λ i. i.el) items;
      })
        × IsSortOf (directed (is_asc (class_at t.buttons k)) d) label t.items items
  sort_items-texts label k t h =
      place_items-IsSortOf d label (λ i. HasKey k none (some (label i)) i) k t
        (compare_items-strings k (is_asc (class_at t.buttons k)) label) h

pub class_at-unsorted :
    {A : Type 0} (bs : List A) (j : ℕ) → class_at (map (λ b. unsorted) bs) j ≡ unsorted
class_at-unsorted [] j = refl
class_at-unsorted (b ∷ bs) zero = refl
class_at-unsorted (b ∷ bs) (suc j) = class_at-unsorted bs j

class_at-set :
    (bs : List SortClass) (k j : ℕ) (b : SortClass)
    → k < length bs
    → class_at (set bs k b) j ≡ (if j == k then b else class_at bs j)
class_at-set [] k j b l = absurd (omega arith)
class_at-set (c ∷ bs) zero zero b l = refl
class_at-set (c ∷ bs) zero (suc j) b l = let e : (suc j == 0) ≡ false = ground arith in rw e refl
class_at-set (c ∷ bs) (suc k) zero b l = let e : (0 == suc k) ≡ false = ground arith in rw e refl
class_at-set (c ∷ bs) (suc k) (suc j) b l =
    let e : (suc j == suc k) ≡ (j == k) = ground arith in rw e (class_at-set bs k j b (omega arith))

length-unsorted : (bs : List SortClass) → length (map (λ b. unsorted) bs) ≡ length bs
length-unsorted [] = refl
length-unsorted (b ∷ bs) = ap suc (length-unsorted bs)

buttons-sort_items :
    {N : Type 0} (compare_numbers : N → N → Order) (locale_compare : Text → Text → Order) (k : ℕ)
    (t : Table N)
    → (sort_items compare_numbers locale_compare k t).buttons ≡ click_classes k t.buttons
unfolding sort_items
buttons-sort_items {N = N} compare_numbers locale_compare k t =
    go (
      sort (compare_items compare_numbers locale_compare (is_asc (class_at t.buttons k)) k) t.items)
  where
    go :
        (o : Option (List (Item N)))
        → (place_items (record t { buttons = click_classes k t.buttons }) o).buttons
          ≡ click_classes k t.buttons
    go none = unfold place_items in refl
    go (some items) = unfold place_items in refl

-- A click leaves a class on the clicked button alone, also when a comparison throws: "desc" if the
-- class was "asc", and else "asc".
pub sort_items-class_at :
    {N : Type 0} (compare_numbers : N → N → Order) (locale_compare : Text → Text → Order) (k j : ℕ)
    (t : Table N)
    → k < length t.buttons
    → class_at (sort_items compare_numbers locale_compare k t).buttons j
      ≡ (if j == k then (if is_asc (class_at t.buttons k) then desc else asc) else unsorted)
sort_items-class_at compare_numbers locale_compare k j t l =
    rw (buttons-sort_items compare_numbers locale_compare k t) (
      unfold click_classes in
      class_at-set (map (λ b. unsorted) t.buttons) k j _ (rw (length-unsorted t.buttons) l)
      ∙ rw (class_at-unsorted t.buttons j) refl)
