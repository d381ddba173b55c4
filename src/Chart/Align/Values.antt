-- ===== src/Chart/Align/Values.antt =====
-- The categories of align_categories, and the x values of its series.
use sqlpage.Prelude.{
  ℕ, zero, suc, ◌+◌, ◌≤◌, ◌<◌, ◌≡◌, refl, sym, ◌∙◌, subst, Bool, true, false, some, List, [], ◌∷◌,
  map, length, get_elem?, arith, Bool-cases, Eq, has, has-add_all, has-append, ◌||◌, inl, inr,
}
use sqlpage.Chart.Align.{Series, Point, total_points}
use sqlpage.Chart.Align.Columns.{x_of, column, columns}
use sqlpage.Chart.Align.Refine.{ordered_categories}

module _ {X : Type 0} {Y : Type 0} ⦃e : Eq X⦄ where
  abbrev pub xs_of : List (Point X Y) → List X
  xs_of points = map (λ p. p.x) points

  -- Whether some series has a point at the category.
  abbrev pub has_category : X → List (Series X Y) → Bool
  has_category c [] = false
  has_category c (s ∷ ss) = has c (xs_of s.points) || has_category c ss

  has-x_of :
      (points : List (Point X Y)) (r : ℕ) (p : Point X Y)
      → get_elem? points r ≡ some p
      → has p.x (x_of (get_elem? points r)) ≡ true
  unfolding has
  has-x_of points r p at =
      let q : e.beq p.x p.x ≡ true = (e.beq_iff p.x p.x).1 refl in rw (at, q) refl

  column-has :
      (r j : ℕ) (ss : List (Series X Y)) (s : Series X Y) (p : Point X Y)
      → get_elem? ss j ≡ some s
      → get_elem? s.points r ≡ some p
      → has p.x (column r ss) ≡ true
  column-has r j [] s p a b = cc
  column-has r zero (t ∷ ss) s p a b =
      let q : t ≡ s = cc in
      let h = has-x_of s.points r p b in
      has-append p.x (x_of (get_elem? t.points r)) (column r ss) ∙ rw (q, h) refl
  column-has r (suc j) (t ∷ ss) s p a b =
      let h = column-has r j ss s p a b in
      let k = has-append p.x (x_of (get_elem? t.points r)) (column r ss) in ground arith

  columns-has :
      (n r d j : ℕ) (ss : List (Series X Y)) (s : Series X Y) (p : Point X Y)
      → get_elem? ss j ≡ some s
      → get_elem? s.points (r + d) ≡ some p
      → d < n
      → has p.x (columns n r ss) ≡ true
  columns-has zero r d j ss s p a b l = absurd (omega arith)
  columns-has (suc n) r zero j ss s p a b l =
      let h =
        column-has r j ss s p a (subst (λ z. get_elem? s.points z ≡ some p) (omega arith) b) in
      let k = has-append p.x (column r ss) (columns n (suc r) ss) in ground arith
  columns-has (suc n) r (suc d) j ss s p a b l =
      let h =
        columns-has n (suc r) d j ss s p a
          (subst (λ z. get_elem? s.points z ≡ some p) (omega arith) b) (omega arith) in
      let k = has-append p.x (column r ss) (columns n (suc r) ss) in ground arith

  -- A category of a column is the x of a point of a series.
  has-x_of_le :
      (c : X) (points : List (Point X Y)) (r : ℕ)
      → has c (x_of (get_elem? points r)) ≡ true
      → has c (xs_of points) ≡ true
  unfolding has
  has-x_of_le c [] r h = h
  has-x_of_le c (p ∷ points) zero h = ground arith
  has-x_of_le c (p ∷ points) (suc r) h = let k = has-x_of_le c points r h in ground arith

  column_le :
      (c : X) (r : ℕ) (ss : List (Series X Y))
      → has c (column r ss) ≡ true
      → has_category c ss ≡ true
  column_le c r [] h = unfold has in h
  column_le c r (s ∷ ss) h = elim (Bool-cases (has c (x_of (get_elem? s.points r)))) [
    | inl a ↦ let k = has-x_of_le c s.points r a in rw k refl
    | inr b ↦
        let k = has-append c (x_of (get_elem? s.points r)) (column r ss) in
        let l : has c (column r ss) ≡ true = ground arith in
        let m = column_le c r ss l in ground arith
  ]

  columns_le :
      (c : X) (n r : ℕ) (ss : List (Series X Y))
      → has c (columns n r ss) ≡ true
      → has_category c ss ≡ true
  columns_le c zero r ss h = absurd (unfold has in cc)
  columns_le c (suc n) r ss h = elim (Bool-cases (has c (column r ss))) [
    | inl a ↦ column_le c r ss a
    | inr b ↦
        let k = has-append c (column r ss) (columns n (suc r) ss) in
        let l : has c (columns n (suc r) ss) ≡ true = ground arith in columns_le c n (suc r) ss l
  ]

  points_lt :
      (ss : List (Series X Y)) (j : ℕ) (s : Series X Y)
      → get_elem? ss j ≡ some s
      → length s.points ≤ total_points ss
  points_lt [] j s h = cc
  points_lt (t ∷ ss) zero s h = let q : t ≡ s = cc in rw q (omega arith)
  points_lt (t ∷ ss) (suc j) s h = let k = points_lt ss j s h in omega arith

  pub has-xs_of :
      (c : X) (points : List (Point X Y))
      → has c (xs_of points) ≡ true
      → (r : ℕ) × (p : Point X Y) × (get_elem? points r ≡ some p) × (c ≡ p.x) × (r < length points)
  unfolding has
  has-xs_of c [] h = cc
  has-xs_of c (p ∷ points) h = elim (Bool-cases (e.beq p.x c)) [
    | inl a ↦ (0, p, refl, sym ((e.beq_iff p.x c).0 a), omega arith)
    | inr b ↦
        let (r, q, at, same, l) = has-xs_of c points (ground arith) in
        (suc r, q, at, same, omega arith)
  ]

  has_category_elem :
      (c : X) (ss : List (Series X Y))
      → has_category c ss ≡ true
      → (j : ℕ) × (s : Series X Y) × (get_elem? ss j ≡ some s) × (has c (xs_of s.points) ≡ true)
  has_category_elem c [] h = cc
  has_category_elem c (s ∷ ss) h = elim (Bool-cases (has c (xs_of s.points))) [
    | inl a ↦ (0, s, refl, a)
    | inr b ↦ let (j, t, at, k) = has_category_elem c ss (ground arith) in (suc j, t, at, k)
  ]

  ordered_complete :
      (c : X) (ss : List (Series X Y))
      → has_category c ss ≡ true
      → has c (columns (total_points ss) 0 ss) ≡ true
  ordered_complete c ss h =
      let (j, s, a, k) = has_category_elem c ss h in
      let (r, p, b, same, l) = has-xs_of c s.points k in
      let m = points_lt ss j s a in
      rw same (
        columns-has (total_points ss) 0 r j ss s p a
          (subst (λ z. get_elem? s.points z ≡ some p) (omega arith) b) (omega arith))

  pub has-ordered_categories :
      (c : X) (ss : List (Series X Y)) → has c (ordered_categories ss) ≡ has_category c ss
  has-ordered_categories c ss =
      has-add_all c [] (columns (total_points ss) 0 ss)
      ∙ (unfold has in both (has_category c ss) refl)
    where
      both :
          (b : Bool)
          → has_category c ss ≡ b
          → has c (columns (total_points ss) 0 ss) ≡ has_category c ss
      both true h = ordered_complete c ss h ∙ sym h
      both false h = elim (Bool-cases (has c (columns (total_points ss) 0 ss))) [
        | inl a ↦ cc (columns_le c (total_points ss) 0 ss a, h)
        | inr b ↦ b ∙ sym h
      ]
