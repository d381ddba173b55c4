-- ===== src/Table/Search.antt =====
-- The search field, in setup_table_search_behavior of sqlpage/sqlpage.js.
use mathlib.Core.Option
use sqlpage.Prelude.{
  ℕ, ◌≡◌, refl, ap, sym, ◌∙◌, Bool, true, false, ◌&&◌, Option, none, some, List, [], ◌∷◌, ◌++◌, map,
  if◌then◌else◌, Text, nonempty, all, Order, sort, sort-map, Bool-cases, inl, inr,
}
use sqlpage.Table.{
  class_at, is_asc, Item, Table, contains, filter_nonempty, split_spaces, search_words, search_item,
  on_search, compare_items, place_items, sort_items, click_classes,
}

abbrev pub both : List Bool → List Bool → List Bool
both [] bs = []
both (a ∷ more) [] = []
both (a ∷ more) (b ∷ bs) = (a && b) ∷ both more bs

and_assoc : (a b c : Bool) → (a && b) && c ≡ a && (b && c)
and_assoc true b c = refl
and_assoc false b c = refl

all-append : (P : Text → Bool) (xs ys : List Text) → all P (xs ++ ys) ≡ all P xs && all P ys
all-append P [] ys = refl
all-append P (x ∷ xs) ys =
    ap (P x &&◌) (all-append P xs ys) ∙ sym (and_assoc (P x) (all P xs) (all P ys))

module _ (is_space : ℕ → Bool) where
  filter-split_spaces_gap :
      (t : Text)
      → filter_nonempty (split_spaces is_space true t)
        ≡ filter_nonempty (split_spaces is_space false t)
  unfolding split_spaces filter_nonempty
  filter-split_spaces_gap [] = refl
  filter-split_spaces_gap (c ∷ t) = elim (Bool-cases (is_space c)) [
    | inl a ↦ rw a refl
    | inr b ↦ rw b refl
  ]

  -- The words of a text with white space behind it: behind a gap, and behind none, where the first
  -- part may still grow.
  filter-split_spaces :
      (space : ℕ) (t : Text)
      → is_space space ≡ true
      → (s : Text)
      → (filter_nonempty (split_spaces is_space true (s ++ space ∷ t))
          ≡ filter_nonempty (split_spaces is_space true s)
            ++ filter_nonempty (split_spaces is_space true t))
        × ((y : Text) × (ys : List Text) × (zs : List Text) × (split_spaces is_space false s
              ≡ y ∷ ys)
            × (split_spaces is_space false (s ++ space ∷ t) ≡ y ∷ zs)
            × (filter_nonempty zs
                ≡ filter_nonempty ys ++ filter_nonempty (split_spaces is_space true t)))
  unfolding split_spaces filter_nonempty
  filter-split_spaces space t h [] =
      (rw h refl, ([], [], split_spaces is_space true t, refl, rw h refl, refl))
  filter-split_spaces space t h (c ∷ s) =
      let (b, (y, ys, zs, p, q, r)) = filter-split_spaces space t h s in
      elim (Bool-cases (is_space c)) [
        | inl a ↦ (
          rw a b,
          (
            [],
            split_spaces is_space true s,
            split_spaces is_space true (s ++ space ∷ t),
            rw a refl,
            rw a refl,
            b,
          ),
        )
        | inr a ↦
            (rw (a, p, q) (ap ((c ∷ y) ∷◌) r), (c ∷ y, ys, zs, rw (a, p) refl, rw (a, q) refl, r))
      ]

  search_words-append :
      (s : Text) (space : ℕ) (t : Text)
      → is_space space ≡ true
      → search_words is_space (s ++ space ∷ t) ≡ search_words is_space s ++ search_words is_space t
  unfolding search_words filter_nonempty
  search_words-append s space t h =
      let (b, (y, ys, zs, p, q, r)) = filter-split_spaces space t h s in
      let e = filter-split_spaces_gap t in
      rw (p, q, sym e, r) (go y _ (nonempty y) (filter_nonempty ys))
    where
      go :
          (y : Text) (ws : List Text) (b : Bool) (xs : List Text)
          → (if b then y ∷ (xs ++ ws) else xs ++ ws) ≡ (if b then y ∷ xs else xs) ++ ws
      go y ws true xs = refl
      go y ws false xs = refl

module _ (is_space : ℕ → Bool) (lower : Text → Text) {N : Type 0} where
  map-el :
      (ws : List Text) (items : List (Item N))
      → map (λ i. i.el) (map (search_item is_space lower ws) items) ≡ map (λ i. i.el) items
  unfolding search_item
  map-el ws [] = refl
  map-el ws (i ∷ items) = ap (i.el ∷◌) (map-el ws items)

  -- Searching and sorting commute: a click on a sort button changes no search result, and a search
  -- changes no order.
  pub on_search-sort_items :
      (compare_numbers : N → N → Order) (locale_compare : Text → Text → Order) (value : Text)
      (k : ℕ) (t : Table N)
      → on_search is_space lower value (sort_items compare_numbers locale_compare k t)
        ≡ sort_items compare_numbers locale_compare k (on_search is_space lower value t)
  unfolding on_search sort_items
  on_search-sort_items compare_numbers locale_compare value k t =
      let ws = search_words is_space (lower value) in
      let compare =
        compare_items compare_numbers locale_compare (is_asc (class_at t.buttons k)) k in
      let e : sort compare (map (search_item is_space lower ws) t.items)
          ≡ Option.map (map (search_item is_space lower ws)) (sort compare t.items) =
        sort-map compare (search_item is_space lower ws)
          (λ a b. unfold search_item compare_items in refl) t.items in
      rw e (go (sort compare t.items))
    where
      go :
          (o : Option (List (Item N)))
          → on_search is_space lower value
              (place_items (record t { buttons = click_classes k t.buttons }) o)
            ≡ place_items
                (record (on_search is_space lower value t) { buttons = click_classes k t.buttons })
                (Option.map
                  (map (search_item is_space lower (search_words is_space (lower value))))
                  o)
      go none = unfold place_items in refl
      go (some items) =
          unfold place_items in rw (map-el (search_words is_space (lower value)) items) refl

  shown-search_item :
      (vs ws : List Text) (items : List (Item N))
      → map (λ i. i.shown) (map (search_item is_space lower (vs ++ ws)) items)
        ≡ both
            (map (λ i. i.shown) (map (search_item is_space lower vs) items))
            (map (λ i. i.shown) (map (search_item is_space lower ws) items))
  unfolding search_item
  shown-search_item vs ws [] = refl
  shown-search_item vs ws (i ∷ items) =
      rw (all-append (λ s. contains s (lower i.text)) vs ws, shown-search_item vs ws items) refl

  -- If lower case does not depend on what stands behind white space, a search for two texts with
  -- white space between them shows the rows that the searches for
  -- both of them show.
  pub on_search-two_texts :
      (s : Text) (space : ℕ) (u : Text) (t : Table N)
      → is_space space ≡ true
      → lower (s ++ space ∷ u) ≡ lower s ++ space ∷ lower u
      → map (λ i. i.shown) (on_search is_space lower (s ++ space ∷ u) t).items
        ≡ both
            (map (λ i. i.shown) (on_search is_space lower s t).items)
            (map (λ i. i.shown) (on_search is_space lower u t).items)
  unfolding on_search
  on_search-two_texts s space u t h l =
      rw (l, search_words-append is_space (lower s) space (lower u) h)
        (shown-search_item (search_words is_space (lower s)) (search_words is_space (lower u))
          t.items)
