-- ===== src/Prelude/Collections.antt =====
-- JavaScript's Set and Map over an equality of keys: lists in the order of insertion.
use mathlib.Core.Path.{◌≡◌, refl, sym, ◌∙◌, ap, subst}
use mathlib.Core.Bool.{Bool, true, false, ◌||◌}
use mathlib.Core.Logic.{◌↔◌, inl, inr}
use mathlib.Core.List.{List, [], ◌∷◌, ◌++◌}
use native.Mathlib.Omega.{arith}
use sqlpage.Prelude.Tests.{if◌then◌else◌, Bool-cases}

or-false : (b : Bool) → b || false ≡ b
or-false true = refl
or-false false = refl

or_assoc : (a b c : Bool) → (a || b) || c ≡ a || (b || c)
or_assoc true b c = refl
or_assoc false b c = refl

or_false_parts : (a b : Bool) → a || b ≡ false → (a ≡ false) × (b ≡ false)
or_false_parts a b h = ground arith

-- The equality that `Set` and `Map` use.
pub record Eq {ℓ} (A : Type ℓ) : Type ℓ where
  pub beq : A → A → Bool
  pub beq_iff : (a b : A) → (beq a b ≡ true) ↔ (a ≡ b)

module _ {ℓ} {A : Type ℓ} ⦃e : Eq A⦄ where
  unfoldable pub has : A → List A → Bool
  has a [] = false
  has a (x ∷ xs) = e.beq x a || has a xs

  -- `set.add(a)`
  unfoldable pub add : List A → A → List A
  unfolding has
  add xs a = if has a xs then xs else xs ++ a ∷ []

  unfoldable pub add_all : List A → List A → List A
  unfolding add
  add_all xs [] = xs
  add_all xs (a ∷ more) = add_all (add xs a) more

  -- No element occurs twice.
  abbrev pub IsDistinct : List A → Type 0
  IsDistinct [] = Unit
  IsDistinct (x ∷ xs) = (has x xs ≡ false) × IsDistinct xs

  pub has-append : (a : A) (xs ys : List A) → has a (xs ++ ys) ≡ has a xs || has a ys
  unfolding has
  has-append a [] ys = refl
  has-append a (x ∷ xs) ys = ground (arith, has-append a xs ys)

  has_same : (a b : A) (xs : List A) → has b xs ≡ true → has a xs || e.beq b a ≡ has a xs
  has_same a b xs old = elim (Bool-cases (e.beq b a)) [
    | inl same ↦ rw (same, subst (λ z. has z xs ≡ true) ((e.beq_iff b a).0 same) old)
    | inr other ↦ rw other (or-false (has a xs))
  ]

  pub has-add : (a b : A) (xs : List A) → has a (add xs b) ≡ has a xs || e.beq b a
  unfolding add
  has-add a b xs = elim (Bool-cases (has b xs)) [
    | inl old ↦ rw old (sym (has_same a b xs old))
    | inr new ↦
        rw new (has-append a xs (b ∷ []) ∙ ap (has a xs ||◌) (unfold has in or-false (e.beq b a)))
  ]

  pub has-add_all : (a : A) (xs ys : List A) → has a (add_all xs ys) ≡ has a xs || has a ys
  unfolding add_all has
  has-add_all a xs [] = sym (or-false (has a xs))
  has-add_all a xs (y ∷ ys) =
      has-add_all a (add xs y) ys
      ∙ ap (◌|| has a ys) (has-add a y xs)
      ∙ or_assoc (has a xs) (e.beq y a) (has a ys)

  beq_comm : (a b : A) → e.beq a b ≡ e.beq b a
  beq_comm a b = ground (arith, e.beq_iff a b, e.beq_iff b a)

  pub IsDistinct-snoc :
      (xs : List A) (a : A) → IsDistinct xs → has a xs ≡ false → IsDistinct (xs ++ a ∷ [])
  unfolding has
  IsDistinct-snoc [] a d n = (refl, tt)
  IsDistinct-snoc (x ∷ xs) a (f, d) n = (
    has-append x xs (a ∷ []) ∙ rw (f, beq_comm a x, (or_false_parts (e.beq x a) (has a xs) n).0),
    IsDistinct-snoc xs a d (or_false_parts (e.beq x a) (has a xs) n).1,
  )

  IsDistinct-add : (xs : List A) (a : A) → IsDistinct xs → IsDistinct (add xs a)
  unfolding add
  IsDistinct-add xs a d = elim (Bool-cases (has a xs)) [
    | inl old ↦ rw old d
    | inr new ↦ rw new (IsDistinct-snoc xs a d new)
  ]

  -- Adding never makes an element occur twice.
  pub IsDistinct-add_all : (xs ys : List A) → IsDistinct xs → IsDistinct (add_all xs ys)
  unfolding add_all
  IsDistinct-add_all xs [] d = d
  IsDistinct-add_all xs (y ∷ ys) d = IsDistinct-add_all (add xs y) ys (IsDistinct-add xs y d)
