-- ===== src/Chart/Align/Refine.antt =====
-- The categories that align_categories collects.
use native.Mathlib.Nat.{zero-add}
use mathlib.Core.Option
use sqlpage.Prelude.{
  ℕ, zero, suc, ◌<◌, ◌≡◌, refl, ap, sym, ◌∙◌, subst, Bool, true, Option, some, List, [], ◌∷◌, map,
  length, leb, arith, Eq, add, add_all, All,
}
use sqlpage.Chart.Align.{
  Series, bump, min_ptr, min_series_idx, open_idxs, total_points, visit, round, collect, aligned,
  align_categories,
}
use sqlpage.Chart.Align.Choice.{IsChosen-round, open_idxs-complete}
use sqlpage.Chart.Align.Columns.{
  column, columns, cell, row, rows, remaining, rows-chosen, IsChosen-lt, remaining-chosen,
  rows-closed,
}

length-bump : (ps : List ℕ) (i : ℕ) → length (bump ps i) ≡ length ps
length-bump [] i = refl
length-bump (p ∷ ps) zero = refl
length-bump (p ∷ ps) (suc i) = ap suc (length-bump ps i)

module _ {X : Type 0} {Y : Type 0} where
  row-start : (r : ℕ) (ss : List (Series X Y)) → row r ss (map (λ s. 0) ss) ≡ column r ss
  unfolding cell
  row-start r [] = refl
  row-start r (s ∷ ss) = let c : leb 0 r ≡ true = ground arith in rw (c, row-start r ss) refl

  rows-start : (n r : ℕ) (ss : List (Series X Y)) → rows n r ss (map (λ s. 0) ss) ≡ columns n r ss
  rows-start zero r ss = refl
  rows-start (suc n) r ss = rw (row-start r ss, rows-start n (suc r) ss)

  remaining-start : (ss : List (Series X Y)) → remaining ss (map (λ s. 0) ss) ≡ total_points ss
  remaining-start [] = refl
  remaining-start (s ∷ ss) = let e = remaining-start ss in omega arith

  length-zeros : (ss : List (Series X Y)) → length (map {B = ℕ} (λ s. 0) ss) ≡ length ss
  length-zeros [] = refl
  length-zeros (s ∷ ss) = ap suc (length-zeros ss)

module _ {X : Type 0} {Y : Type 0} ⦃e : Eq X⦄ where
  -- The categories: the x values of the first points, then of the second points, and so on.
  abbrev pub ordered_categories : List (Series X Y) → List X
  ordered_categories ss = add_all [] (columns (total_points ss) 0 ss)

  -- A round, if the further rounds collect what is left to them.
  round-rows :
      (fuel : ℕ) (next : List ℕ → List X → Option (List X)) (ss : List (Series X Y)) (ps : List ℕ)
      (cs : List X) (is : List ℕ)
      → ((ps' : List ℕ) (cs' : List X)
          → length ps' ≡ length ss
          → remaining ss ps' < fuel
          → next ps' cs' ≡ some (add_all cs' (rows (total_points ss) 0 ss ps')))
      → length ps ≡ length ss
      → remaining ss ps < suc fuel
      → open_idxs ps 0 ss ≡ is
      → round next ss ps cs is ≡ some (add_all cs (rows (total_points ss) 0 ss ps))
  unfolding round add_all visit
  round-rows fuel next ss ps cs [] further same enough closed =
      rw
        (rows-closed (total_points ss) 0 ss ps (λ j s at l.
          open_idxs-complete ps (λ k. ⊥) 0 ss (subst (All (λ k. ⊥)) (sym closed) tt) j s at
            (rw zero-add l)))
        refl
  round-rows fuel next ss ps cs (i ∷ is) further same enough open_is =
      let (pt, found, chosen) = IsChosen-round ss ps i is same open_is in
      let idx = min_series_idx ps i is in
      let left = remaining-chosen (min_ptr ps i is) pt ss ps idx chosen in
      let first =
        rows-chosen (min_ptr ps i is) pt (total_points ss) 0 ss ps idx (omega arith)
          (let l = IsChosen-lt (min_ptr ps i is) pt ss ps idx chosen in omega arith) chosen in
      let ih = further (bump ps idx) (add cs pt.x) (length-bump ps idx ∙ same) (omega arith) in
      rw (found, first) ih

  -- From any pointers, with fuel for the points that are left.
  collect-rows :
      (fuel : ℕ) (ss : List (Series X Y)) (ps : List ℕ) (cs : List X)
      → length ps ≡ length ss
      → remaining ss ps < fuel
      → collect fuel ss ps cs ≡ some (add_all cs (rows (total_points ss) 0 ss ps))
  unfolding collect
  collect-rows zero ss ps cs same enough = absurd (omega arith)
  collect-rows (suc fuel) ss ps cs same enough =
      round-rows fuel (λ ps' cs'. collect fuel ss ps' cs') ss ps cs (open_idxs ps 0 ss)
        (λ ps' cs'. collect-rows fuel ss ps' cs') same enough refl

  -- align_categories always ends, and gives each series the value at every category: the
  -- categories are the x values of the first points of the series, in the order of the series, then
  -- of the second points, and so on, each at its first occurrence.
  pub align_categories-columns :
      (truthy : Y → Bool) (y0 : Y) (ss : List (Series X Y))
      → align_categories truthy y0 ss ≡ some (map (aligned truthy y0 (ordered_categories ss)) ss)
  unfolding align_categories
  align_categories-columns truthy y0 ss = ap (Option.map (λ cs. map (aligned truthy y0 cs) ss)) (
      collect-rows (suc (total_points ss)) ss (map (λ s. 0) ss) [] (length-zeros ss)
        (let e = remaining-start ss in omega arith)
      ∙ ap (λ xs. some (add_all [] xs)) (rows-start (total_points ss) 0 ss))
