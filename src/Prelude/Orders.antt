-- ===== src/Prelude/Orders.antt =====
-- Comparisons with three results and the stable sort of JavaScript's Array over a comparison that
-- may throw.
use mathlib.Core.Path.{◌≡◌, refl}
use mathlib.Core.Logic.{◌≢◌}
use mathlib.Core.Option
use mathlib.Core.Option.{Option, none, some}
use mathlib.Core.List.{List, [], ◌∷◌, map}

-- The sign of the number that a comparison function returns.
pub data Order : Type 0 where
  less : Order
  equal : Order
  greater : Order

abbrev pub flip : Order → Order
flip less = greater
flip equal = equal
flip greater = less

-- A comparison by which any two elements compare.
pub record Comparison {ℓ} (A : Type ℓ) : Type ℓ where
  pub compare : A → A → Order
  pub compare_flip : (a b : A) → compare b a ≡ flip (compare a b)
  pub compare_trans :
      (a b c : A) → compare a b ≢ greater → compare b c ≢ greater → compare a c ≢ greater

module _ {ℓ} {A : Type ℓ} where
  -- The place of `x` before `y`, unless it is greater.
  abbrev pub place : A → A → List A → Option (List A) → Option Order → Option (List A)
  place x y ys rest none = none
  place x y ys rest (some less) = some (x ∷ y ∷ ys)
  place x y ys rest (some equal) = some (x ∷ y ∷ ys)
  place x y ys rest (some greater) = Option.map (y ∷◌) rest

  module _ (compare : A → A → Option Order) where
    abbrev pub insert : A → List A → Option (List A)
    insert x [] = some (x ∷ [])
    insert x (y ∷ ys) = place x y ys (insert x ys) (compare x y)

    abbrev pub insert_into : A → Option (List A) → Option (List A)
    insert_into x none = none
    insert_into x (some ys) = insert x ys

    -- `items.sort(compare)`: `none` when a comparison throws.
    abbrev pub sort : List A → Option (List A)
    sort [] = some []
    sort (x ∷ xs) = insert_into x (sort xs)

-- Sorting and a change of the elements that the comparison does not see.
module _ {ℓ} {A : Type ℓ} (compare : A → A → Option Order) (f : A → A) where
  place-map :
      (x y : A) (ys : List A) (rest rest' : Option (List A)) (o : Option Order)
      → rest' ≡ Option.map (map f) rest
      → place (f x) (f y) (map f ys) rest' o ≡ Option.map (map f) (place x y ys rest o)
  place-map x y ys rest rest' none e = refl
  place-map x y ys rest rest' (some less) e = refl
  place-map x y ys rest rest' (some equal) e = refl
  place-map x y ys none rest' (some greater) e = rw e refl
  place-map x y ys (some zs) rest' (some greater) e = rw e refl

  insert-map :
      ((a b : A) → compare (f a) (f b) ≡ compare a b)
      → (x : A) (ys : List A)
      → insert compare (f x) (map f ys) ≡ Option.map (map f) (insert compare x ys)
  insert-map same x [] = refl
  insert-map same x (y ∷ ys) = rw (same x y) (
      place-map x y ys (insert compare x ys) (insert compare (f x) (map f ys)) (compare x y)
        (insert-map same x ys))

  pub sort-map :
      ((a b : A) → compare (f a) (f b) ≡ compare a b)
      → (xs : List A) → sort compare (map f xs) ≡ Option.map (map f) (sort compare xs)
  sort-map same [] = refl
  sort-map same (x ∷ xs) = rw (sort-map same xs) (go (sort compare xs))
    where
      go :
          (o : Option (List A))
          → insert_into compare (f x) (Option.map (map f) o)
            ≡ Option.map (map f) (insert_into compare x o)
      go none = refl
      go (some ys) = insert-map same x ys
