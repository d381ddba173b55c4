-- ===== src/Prelude/Sorting.antt =====
-- What the stable sort returns where the comparison follows the keys of the elements.
use mathlib.Core.Path.{◌≡◌, refl, sym, ◌∙◌, ap, subst}
use mathlib.Core.Bool.{Bool, true, false}
use mathlib.Core.Logic.{◌≢◌}
use mathlib.Core.Option.{Option, some}
use mathlib.Core.List.{List, [], ◌∷◌, Permᴰ}
use sqlpage.Prelude.Tests.{if◌then◌else◌}
use sqlpage.Prelude.Lists.{All}
use sqlpage.Prelude.Orders.{Order, less, equal, greater, flip, Comparison, place, insert, sort}

abbrev pub is_equal : Order → Bool
is_equal less = false
is_equal equal = true
is_equal greater = false

Permᴰ-refl {ℓ} : {A : Type ℓ} (xs : List A) → Permᴰ xs xs
Permᴰ-refl [] = Permᴰ.nil
Permᴰ-refl (x ∷ xs) = Permᴰ.cons refl (Permᴰ-refl xs)

All-Permᴰ {ℓ} : {A : Type ℓ} (P : A → Type 0) {xs ys : List A} → Permᴰ xs ys → All P xs → All P ys
All-Permᴰ P Permᴰ.nil h = tt
All-Permᴰ P (Permᴰ.cons e d) (p, h) = (subst P e p, All-Permᴰ P d h)
All-Permᴰ P (Permᴰ.swap e d) (p, (q, h)) = (subst P d q, (subst P e p, h))
All-Permᴰ P (Permᴰ.trans d e) h = All-Permᴰ P e (All-Permᴰ P d h)

All-map_imp {ℓ} :
    {A : Type ℓ} {P Q : A → Type 0} (xs : List A) → ((x : A) → P x → Q x) → All P xs → All Q xs
All-map_imp [] f h = tt
All-map_imp (x ∷ xs) f (p, h) = (f x p, All-map_imp xs f h)

abbrev keep_if {ℓ} : {A : Type ℓ} → Bool → A → List A → List A
keep_if b x xs = if b then x ∷ xs else xs

keep_if_swap {ℓ} :
    {A : Type ℓ} (a b : Bool) (x y : A) (xs : List A)
    → (a ≡ true → b ≡ true → ⊥)
    → keep_if b y (keep_if a x xs) ≡ keep_if a x (keep_if b y xs)
keep_if_swap true true x y xs h = absurd (h refl refl)
keep_if_swap true false x y xs h = refl
keep_if_swap false true x y xs h = refl
keep_if_swap false false x y xs h = refl

module _ {ℓ} {A B : Type ℓ} (c : Comparison B) (key : A → B) where
  -- No element stands before one with a smaller key.
  abbrev pub IsSorted : List A → Type 0
  IsSorted [] = Unit
  IsSorted (x ∷ xs) = All (λ y. c.compare (key x) (key y) ≢ greater) xs × IsSorted xs

  -- The elements whose key compares as equal to `k`.
  abbrev pub equals : B → List A → List A
  equals k [] = []
  equals k (x ∷ xs) = if is_equal (c.compare (key x) k) then x ∷ equals k xs else equals k xs

  -- `ys` are the elements of `xs` in ascending order, equal ones in their old order.
  abbrev pub IsSortOf : List A → List A → Type ℓ
  IsSortOf xs ys = IsSorted ys × Permᴰ xs ys × ((k : B) → equals k ys ≡ equals k xs)

  equal_both :
      (a b k : B)
      → c.compare a b ≡ greater
      → is_equal (c.compare a k) ≡ true
      → is_equal (c.compare b k) ≡ true
      → ⊥
  equal_both a b k g p q =
      c.compare_trans a k b (not_greater _ p)
        (subst (λ o. o ≢ greater) (sym (c.compare_flip b k)) (not_less _ q)) g
    where
      not_greater : (o : Order) → is_equal o ≡ true → o ≢ greater
      not_greater less h = cc
      not_greater equal h = λ e. cc
      not_greater greater h = cc

      not_less : (o : Order) → is_equal o ≡ true → flip o ≢ greater
      not_less less h = cc
      not_less equal h = λ e. cc
      not_less greater h = cc

  in_place :
      (x y : A) (ys : List A)
      → c.compare (key x) (key y) ≢ greater
      → IsSorted (y ∷ ys)
      → IsSortOf (x ∷ y ∷ ys) (x ∷ y ∷ ys)
  in_place x y ys l (a, s) = (
    ((l, All-map_imp ys (λ z m. c.compare_trans (key x) (key y) (key z) l m) a), (a, s)),
    Permᴰ-refl _,
    (λ k. refl),
  )

  module _ (compare : A → A → Option Order) where
    -- The comparison of two elements is that of their keys.
    abbrev pub Follows : A → A → Type 0
    Follows x y = compare x y ≡ some (c.compare (key x) (key y))

    place-IsSortOf :
        (x y : A) (ys : List A) (o : Order)
        → c.compare (key x) (key y) ≡ o
        → IsSorted (y ∷ ys)
        → (zs : List A) × (insert compare x ys ≡ some zs) × IsSortOf (x ∷ ys) zs
        → (zs : List A) × (place x y ys (insert compare x ys) (some o) ≡ some zs)
          × IsSortOf (x ∷ y ∷ ys) zs
    place-IsSortOf x y ys less e (a, s) ih = (x ∷ y ∷ ys, refl, in_place x y ys (λ g. cc) (a, s))
    place-IsSortOf x y ys equal e (a, s) ih = (x ∷ y ∷ ys, refl, in_place x y ys (λ g. cc) (a, s))
    place-IsSortOf x y ys greater e (a, s) (zs, q, (sorted, perm, same)) = (
      y ∷ zs,
      rw q refl,
      (
        (All-Permᴰ (λ z. c.compare (key y) (key z) ≢ greater) perm (below e, a), sorted),
        Permᴰ.trans (Permᴰ.swap refl refl) (Permᴰ.cons refl perm),
        (λ k.
            ap (λ es. keep_if (is_equal (c.compare (key y) k)) y es) (same k)
            ∙ keep_if_swap (is_equal (c.compare (key x) k)) (is_equal (c.compare (key y) k)) x y
                (equals k ys) (equal_both (key x) (key y) k e)),
      ),
    )
      where
        below : c.compare (key x) (key y) ≡ greater → c.compare (key y) (key x) ≢ greater
        below g h = let f = c.compare_flip (key x) (key y) in cc

    insert-IsSortOf :
        (x : A) (ys : List A)
        → All (Follows x) ys
        → IsSorted ys
        → (zs : List A) × (insert compare x ys ≡ some zs) × IsSortOf (x ∷ ys) zs
    insert-IsSortOf x [] f s = (x ∷ [], refl, ((tt, tt), Permᴰ.cons refl Permᴰ.nil, (λ k. refl)))
    insert-IsSortOf x (y ∷ ys) (e, f) (a, s) =
        let ih = insert-IsSortOf x ys f s in
        rw e (place-IsSortOf x y ys (c.compare (key x) (key y)) refl (a, s) ih)

    -- A sort by a comparison that follows the keys never throws, and gives the elements in
    -- ascending order, equal ones in their old order.
    pub sort-IsSortOf :
        (P : A → Type 0) (xs : List A)
        → ((x y : A) → P x → P y → Follows x y)
        → All P xs
        → (ys : List A) × (sort compare xs ≡ some ys) × IsSortOf xs ys
    sort-IsSortOf P [] f h = ([], refl, (tt, Permᴰ.nil, (λ k. refl)))
    sort-IsSortOf P (x ∷ xs) f (p, h) =
        let (ys, e, (s, perm, same)) = sort-IsSortOf P xs f h in
        let follows = All-map_imp ys (λ y q. f x y p q) (All-Permᴰ P perm h) in
        let (zs, d, (t, perm', same')) = insert-IsSortOf x ys follows s in
        (
          zs,
          rw e d,
          (
            t,
            Permᴰ.trans (Permᴰ.cons refl perm) perm',
            (λ k. same' k ∙ ap (λ es. keep_if (is_equal (c.compare (key x) k)) x es) (same k)),
          ),
        )
