-- ===== src/Chart/Align/Choice.antt =====
-- The point that a round of align_categories visits.
use native.Mathlib.Nat.{add-zero, zero-add}
use sqlpage.Prelude.{
  ℕ, zero, suc, ◌+◌, ◌≤◌, ◌<◌, ◌≡◌, refl, ◌≢◌, sym, subst, Bool, true, false, some, List, [], ◌∷◌,
  map, length, get_elem?, ltb, ltb→lt, lt→ltb, if◌then◌else◌, All, arith,
}
use sqlpage.Chart.Align.{Series, Point, pointer, min_ptr, min_series_idx, open_idxs, point_at}
use sqlpage.Chart.Align.Pointers.{
  Exists, Ascending, All-imp, min_of-le, min_of-Exists, find_pointer-eq, find_pointer-All,
  find_pointer-first, if-All_tail, if-All_head, get_elem?-some, present_of, All-unmap,
}

module _ {X : Type 0} {Y : Type 0} where
  -- `k` is the index, counted from `i`, of a series with a point at its pointer.
  OpenAt : List ℕ → ℕ → List (Series X Y) → ℕ → Type 0
  OpenAt ps i ss k =
      (j : ℕ) × (s : Series X Y) × (k ≡ i + j)
      × (get_elem? ss j ≡ some s)
      × (pointer ps k < length s.points)

  OpenAt-suc :
      (ps : List ℕ) (i : ℕ) (s : Series X Y) (ss : List (Series X Y)) (k : ℕ)
      → OpenAt ps (suc i) ss k
      → OpenAt ps i (s ∷ ss) k
  unfolding OpenAt
  OpenAt-suc ps i s ss k (j, t, e, at, l) = (suc j, t, omega arith, at, l)

  open_idxs-OpenAt :
      (ps : List ℕ) (i : ℕ) (ss : List (Series X Y)) → All (OpenAt ps i ss) (open_idxs ps i ss)
  unfolding open_idxs
  open_idxs-OpenAt ps i [] = tt
  open_idxs-OpenAt ps i (s ∷ ss) =
      let rest =
        All-imp (open_idxs ps (suc i) ss) (OpenAt-suc ps i s ss) (open_idxs-OpenAt ps (suc i) ss) in
      go (ltb (pointer ps i) (length s.points)) refl rest
    where
      go :
          (b : Bool)
          → ltb (pointer ps i) (length s.points) ≡ b
          → All (OpenAt ps i (s ∷ ss)) (open_idxs ps (suc i) ss)
          → All
              (OpenAt ps i (s ∷ ss))
              (if b then i ∷ open_idxs ps (suc i) ss else open_idxs ps (suc i) ss)
      go true e h = ((unfold OpenAt in (0, s, omega arith, refl, ltb→lt _ _ e)), h)
      go false e h = h

  -- What holds of every listed index holds of every open series.
  pub open_idxs-complete :
      (ps : List ℕ) (Q : ℕ → Type 0) (i : ℕ) (ss : List (Series X Y))
      → All Q (open_idxs ps i ss)
      → (j : ℕ) (s : Series X Y) → get_elem? ss j ≡ some s
      → pointer ps (i + j) < length s.points
      → Q (i + j)
  unfolding open_idxs
  open_idxs-complete ps Q i [] h j s at l = cc
  open_idxs-complete ps Q i (t ∷ ss) h zero s at l =
      let e : t ≡ s = cc in
      let l' : pointer ps i < length t.points = rw e (rw add-zero at l) in
      rw add-zero (
        if-All_head Q (ltb (pointer ps i) (length t.points)) i (open_idxs ps (suc i) ss)
          (lt→ltb _ _ l') h)
  open_idxs-complete ps Q i (t ∷ ss) h (suc j) s at l =
      let shift : suc i + j ≡ i + suc j = omega arith in
      subst Q shift (
        open_idxs-complete ps Q (suc i) ss
          (if-All_tail Q (ltb (pointer ps i) (length t.points)) i (open_idxs ps (suc i) ss) h) j s
          at (subst (λ k. pointer ps k < length s.points) (sym shift) l))

  open_idxs-Ascending :
      (ps : List ℕ) (i : ℕ) (ss : List (Series X Y))
      → All (λ k. i ≤ k) (open_idxs ps i ss) × Ascending (open_idxs ps i ss)
  unfolding open_idxs
  open_idxs-Ascending ps i [] = (tt, tt)
  open_idxs-Ascending ps i (s ∷ ss) =
      go (ltb (pointer ps i) (length s.points)) (open_idxs-Ascending ps (suc i) ss)
    where
      go :
          (b : Bool)
          → All (λ k. suc i ≤ k) (open_idxs ps (suc i) ss) × Ascending (open_idxs ps (suc i) ss)
          → All (λ k. i ≤ k) (if b then i ∷ open_idxs ps (suc i) ss else open_idxs ps (suc i) ss)
            × Ascending (if b then i ∷ open_idxs ps (suc i) ss else open_idxs ps (suc i) ss)
      go true (h, a) =
          ((omega arith, All-imp (open_idxs ps (suc i) ss) (λ k l. omega arith) h), (h, a))
      go false (h, a) = (All-imp (open_idxs ps (suc i) ss) (λ k l. omega arith) h, a)

  -- A series has no point at its pointer `p`, or `p` is at least `m`.
  abbrev pub NotBefore : ℕ → List (Series X Y) → List ℕ → Type 0
  NotBefore m [] ps = Unit
  NotBefore m (s ∷ ss) [] = ⊥
  NotBefore m (s ∷ ss) (p ∷ ps) = (p < length s.points → m ≤ p) × NotBefore m ss ps

  -- `i` is the first of the series with the smallest pointer `m`, where `pt` stands.
  abbrev pub IsChosen : ℕ → Point X Y → List (Series X Y) → List ℕ → ℕ → Type 0
  IsChosen m pt [] ps i = ⊥
  IsChosen m pt (s ∷ ss) [] i = ⊥
  IsChosen m pt (s ∷ ss) (p ∷ ps) zero =
      (p ≡ m) × (get_elem? s.points m ≡ some pt) × NotBefore m ss ps
  IsChosen m pt (s ∷ ss) (p ∷ ps) (suc i) = (p < length s.points → m < p) × IsChosen m pt ss ps i

  NotBefore-intro :
      (m : ℕ) (ss : List (Series X Y)) (ps : List ℕ)
      → length ps ≡ length ss
      → ((j : ℕ) (s : Series X Y)
          → get_elem? ss j ≡ some s
          → pointer ps j < length s.points
          → m ≤ pointer ps j)
      → NotBefore m ss ps
  NotBefore-intro m [] ps e h = tt
  NotBefore-intro m (s ∷ ss) [] e h = absurd (omega arith)
  NotBefore-intro m (s ∷ ss) (p ∷ ps) e h =
      ((λ l. h 0 s refl l), NotBefore-intro m ss ps (omega arith) (λ j. h (suc j)))

  IsChosen-intro :
      (m : ℕ) (pt : Point X Y) (ss : List (Series X Y)) (ps : List ℕ) (i : ℕ)
      → length ps ≡ length ss
      → pointer ps i ≡ m
      → point_at ss i m ≡ some pt
      → ((j : ℕ) (s : Series X Y)
          → get_elem? ss j ≡ some s
          → pointer ps j < length s.points
          → m ≤ pointer ps j)
      → ((j : ℕ) (s : Series X Y)
          → get_elem? ss j ≡ some s
          → pointer ps j < length s.points
          → j < i
          → pointer ps j ≢ m)
      → IsChosen m pt ss ps i
  unfolding point_at
  IsChosen-intro m pt [] ps i e q at h f = cc
  IsChosen-intro m pt (s ∷ ss) [] i e q at h f = absurd (omega arith)
  IsChosen-intro m pt (s ∷ ss) (p ∷ ps) zero e q at h f =
      (q, at, NotBefore-intro m ss ps (omega arith) (λ j. h (suc j)))
  IsChosen-intro m pt (s ∷ ss) (p ∷ ps) (suc i) e q at h f = (
    (λ l. let a = h 0 s refl l in let b = f 0 s refl l (omega arith) in omega arith),
    IsChosen-intro m pt ss ps i (omega arith) q at (λ j. h (suc j))
        (λ j t a l b. f (suc j) t a l (omega arith)),
  )

  point_at-some :
      (ss : List (Series X Y)) (j m : ℕ) (s : Series X Y)
      → get_elem? ss j ≡ some s
      → m < length s.points
      → (pt : Point X Y) × (point_at ss j m ≡ some pt)
  unfolding point_at
  point_at-some [] j m s e l = cc
  point_at-some (t ∷ ss) zero m s e l = let q : s ≡ t = cc in get_elem?-some t.points m (rw q at l)
  point_at-some (t ∷ ss) (suc j) m s e l = point_at-some ss j m s e l

  IsChosen-found :
      (ss : List (Series X Y)) (ps : List ℕ) (m idx : ℕ)
      → length ps ≡ length ss
      → pointer ps idx ≡ m
      → OpenAt ps 0 ss idx
      → All (λ k. m ≤ pointer ps k) (open_idxs ps 0 ss)
      → All (λ j. j < idx → pointer ps j ≢ m) (open_idxs ps 0 ss)
      → (pt : Point X Y) × (point_at ss idx m ≡ some pt) × IsChosen m pt ss ps idx
  unfolding OpenAt
  IsChosen-found ss ps m idx same q (j, s, e, at, l) low first =
      let same_idx : idx ≡ j = omega arith in
      let (pt, found) = point_at-some ss j m s at (omega arith) in
      let found_idx : point_at ss idx m ≡ some pt = rw same_idx found in
      (
        pt,
        found_idx,
        IsChosen-intro m pt ss ps idx same q found_idx
            (λ k t a b.
              zero_add (λ z. m ≤ pointer ps z) k
                (open_idxs-complete ps (λ z. m ≤ pointer ps z) 0 ss low k t a (rw zero-add b)))
            (λ k t a b.
              zero_add (λ z. z < idx → pointer ps z ≢ m) k
                (open_idxs-complete ps (λ z. z < idx → pointer ps z ≢ m) 0 ss first k t a
                  (rw zero-add b))),
      )
    where
      zero_add : (P : ℕ → Type 0) (k : ℕ) → P (0 + k) → P k
      zero_add P k h = rw zero-add at h

  -- What a round visits, if the open series are `i ∷ is`.
  pub IsChosen-round :
      (ss : List (Series X Y)) (ps : List ℕ) (i : ℕ) (is : List ℕ)
      → length ps ≡ length ss
      → open_idxs ps 0 ss ≡ i ∷ is
      → (pt : Point X Y) × (point_at ss (min_series_idx ps i is) (min_ptr ps i is) ≡ some pt)
        × IsChosen (min_ptr ps i is) pt ss ps (min_series_idx ps i is)
  IsChosen-round ss ps i is same e =
      IsChosen-found ss ps (min_ptr ps i is) (min_series_idx ps i is) same
        (unfold min_series_idx in find_pointer-eq ps _ (i ∷ is) present)
        (unfold min_series_idx in
          find_pointer-All ps (OpenAt ps 0 ss) _ (i ∷ is) present
            (rw e at (open_idxs-OpenAt ps 0 ss)))
        (rw e low)
        (rw e (
          unfold min_series_idx in
          find_pointer-first ps _ (i ∷ is) (rw e at (open_idxs-Ascending ps 0 ss)).1))
    where
      present : Exists (λ k. pointer ps k ≡ min_ptr ps i is) (i ∷ is)
      present = unfold min_ptr in present_of ps _ i is (min_of-Exists ps (pointer ps i) is)

      low : All (λ k. min_ptr ps i is ≤ pointer ps k) (i ∷ is)
      low =
          unfold min_ptr in
          (let (a, b) = min_of-le (pointer ps i) (map (pointer ps) is) in
            (a, All-unmap (pointer ps) _ is b))
