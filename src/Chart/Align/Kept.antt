-- ===== src/Chart/Align/Kept.antt =====
-- The points that align_categories gives to each series.
use sqlpage.Prelude.{
  ℕ, zero, suc, ◌≡◌, refl, ap, ◌∙◌, Bool, true, false, Option, none, some, Text, List, [], ◌∷◌,
  ◌++◌, map, get_elem?, get_elem?-map, arith, Bool-cases, Eq, has, IsDistinct, IsDistinct-add_all,
  All, if◌then◌else◌, inl, inr,
}
use sqlpage.Chart.Align.{Series, Point, total_points, aligned, align_categories, value_of, or_zero}
use sqlpage.Chart.Align.Columns.{columns}
use sqlpage.Chart.Align.Refine.{ordered_categories, align_categories-columns}
use sqlpage.Chart.Align.Values.{xs_of, has_category, has-ordered_categories}

module _ {X : Type 0} ⦃e : Eq X⦄ where
  has_elem : (c : X) (cs : List X) → has c cs ≡ true → (i : ℕ) × (get_elem? cs i ≡ some c)
  unfolding has
  has_elem c [] h = cc
  has_elem c (d ∷ cs) h = elim (Bool-cases (e.beq d c)) [
    | inl a ↦ (0, ap some ((e.beq_iff d c).0 a))
    | inr b ↦ let (i, at) = has_elem c cs (ground arith) in (suc i, at)
  ]

module _ {X : Type 0} {Y : Type 0} ⦃e : Eq X⦄ where
  xs_of-aligned :
      (truthy : Y → Bool) (y0 : Y) (cs : List X) (s : Series X Y)
      → xs_of (aligned truthy y0 cs s).points ≡ cs
  unfolding aligned
  xs_of-aligned truthy y0 [] s = refl
  xs_of-aligned truthy y0 (c ∷ cs) s = ap (c ∷◌) (xs_of-aligned truthy y0 cs s)

  All-aligned :
      (truthy : Y → Bool) (y0 : Y) (cs : List X) (ss : List (Series X Y))
      → All (λ s. xs_of s.points ≡ cs) (map (aligned truthy y0 cs) ss)
        × (map (λ s. s.name) (map (aligned truthy y0 cs) ss) ≡ map (λ s. s.name) ss)
  unfolding aligned
  All-aligned truthy y0 cs [] = (tt, refl)
  All-aligned truthy y0 cs (s ∷ ss) =
      let (a, b) = All-aligned truthy y0 cs ss in
      ((xs_of-aligned truthy y0 cs s, a), ap (s.name ∷◌) b)

  -- The aligned series have the names of the series and all the same x values, which are those of
  -- the points of the series, each once.
  pub align_categories-same_categories :
      (truthy : Y → Bool) (y0 : Y) (ss : List (Series X Y))
      → (cs : List X) × (rs : List (Series X Y)) × (align_categories truthy y0 ss ≡ some rs)
        × All (λ s. xs_of s.points ≡ cs) rs
        × (map (λ s. s.name) rs ≡ map (λ s. s.name) ss)
        × IsDistinct cs
        × ((c : X) → has c cs ≡ has_category c ss)
  align_categories-same_categories truthy y0 ss =
      let cs = ordered_categories ss in
      let (a, b) = All-aligned truthy y0 cs ss in
      (
        cs,
        map (aligned truthy y0 cs) ss,
        align_categories-columns truthy y0 ss,
        a,
        b,
        IsDistinct-add_all [] (columns (total_points ss) 0 ss) tt,
        (λ c. has-ordered_categories c ss),
      )

  value_of-absent :
      (found : Option Y) (points : List (Point X Y)) (c : X)
      → has c (xs_of points) ≡ false
      → value_of found points c ≡ found
  unfolding has value_of
  value_of-absent found [] c h = refl
  value_of-absent found (p ∷ points) c h =
      let a : e.beq p.x c ≡ false = ground arith in
      let b : has c (xs_of points) ≡ false = ground arith in rw a (value_of-absent found points c b)

  value_of-last :
      (before : List (Point X Y)) (found : Option Y) (p : Point X Y) (after : List (Point X Y))
      → has p.x (xs_of after) ≡ false
      → value_of found (before ++ p ∷ after) p.x ≡ some p.y
  unfolding value_of
  value_of-last [] found p after h =
      let a : e.beq p.x p.x ≡ true = (e.beq_iff p.x p.x).1 refl in
      rw (value_of, a) (value_of-absent (some p.y) after p.x h)
  value_of-last (q ∷ before) found p after h =
      value_of-last before (if e.beq q.x p.x then some q.y else found) p after h

  has-middle :
      (before : List (Point X Y)) (p : Point X Y) (after : List (Point X Y))
      → has p.x (xs_of (before ++ p ∷ after)) ≡ true
  unfolding has
  has-middle [] p after = let a : e.beq p.x p.x ≡ true = (e.beq_iff p.x p.x).1 refl in rw a refl
  has-middle (q ∷ before) p after = let a = has-middle before p after in ground arith

  has_category-elem :
      (c : X) (ss : List (Series X Y)) (j : ℕ) (s : Series X Y)
      → get_elem? ss j ≡ some s
      → has c (xs_of s.points) ≡ true
      → has_category c ss ≡ true
  has_category-elem c [] j s at h = cc
  has_category-elem c (t ∷ ss) zero s at h = let q : t ≡ s = cc in rw (q, h) refl
  has_category-elem c (t ∷ ss) (suc j) s at h =
      let k = has_category-elem c ss j s at h in ground arith

  aligned-elem :
      (truthy : Y → Bool) (y0 : Y) (cs : List X) (s : Series X Y) (c : X) (y : Y)
      → has c cs ≡ true
      → value_of none s.points c ≡ some y
      → truthy y ≡ true
      → (i : ℕ) × (get_elem? (aligned truthy y0 cs s).points i ≡ some (record { x = c; y = y }))
  unfolding aligned or_zero
  aligned-elem truthy y0 cs s c y h v t =
      let (i, at) = has_elem c cs h in (i, get_elem?-map _ cs i c at ∙ rw (v, t) refl)

  -- No value is lost: the last point of a series at its category, if its value counts as true in
  -- JavaScript, is a point of the aligned series at the same index.
  pub align_categories-kept :
      (truthy : Y → Bool) (y0 : Y) (ss : List (Series X Y)) (j : ℕ) (name : Text)
      (before : List (Point X Y)) (p : Point X Y) (after : List (Point X Y))
      → get_elem? ss j ≡ some (record { name = name; points = before ++ p ∷ after })
      → has p.x (xs_of after) ≡ false
      → truthy p.y ≡ true
      → (rs : List (Series X Y)) × (s : Series X Y) × (i : ℕ) × (align_categories truthy y0 ss
          ≡ some rs)
        × (get_elem? rs j ≡ some s)
        × (s.name ≡ name)
        × (get_elem? s.points i ≡ some p)
  align_categories-kept truthy y0 ss j name before p after at last t =
      let s : Series X Y = record { name = name; points = before ++ p ∷ after } in
      let cs = ordered_categories ss in
      let h =
        has-ordered_categories p.x ss
        ∙ has_category-elem p.x ss j s at (has-middle before p after) in
      let (i, found) =
        aligned-elem truthy y0 cs s p.x p.y h (value_of-last before none p after last) t in
      (
        map (aligned truthy y0 cs) ss,
        aligned truthy y0 cs s,
        i,
        align_categories-columns truthy y0 ss,
        get_elem?-map (aligned truthy y0 cs) ss j s at,
        (unfold aligned in refl),
        found,
      )
