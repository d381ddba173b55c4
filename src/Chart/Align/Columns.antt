-- ===== src/Chart/Align/Columns.antt =====
-- The x values that align_categories has not visited yet, read column by column.
use sqlpage.Prelude.{
  ℕ, zero, suc, ◌+◌, ◌-◌, ◌≤◌, ◌<◌, ◌≡◌, refl, ap, true, Option, none, some, List, [], ◌∷◌, ◌++◌,
  length, get_elem?, leb, if◌then◌else◌, arith, Bool-cases, inl, inr, lt-length_of_get_elem?,
}
use sqlpage.Chart.Align.{Series, Point, pointer, bump, total_points}
use sqlpage.Chart.Align.Choice.{NotBefore, IsChosen}

module _ {X : Type 0} {Y : Type 0} where
  -- The x value of a point, if there is one.
  abbrev pub x_of : Option (Point X Y) → List X
  x_of none = []
  x_of (some p) = p.x ∷ []

  -- The x values of the `r`-th points of the series, in the order of the series.
  abbrev pub column : ℕ → List (Series X Y) → List X
  column r [] = []
  column r (s ∷ ss) = x_of (get_elem? s.points r) ++ column r ss

  -- The `n` columns from `r` on.
  abbrev pub columns : ℕ → ℕ → List (Series X Y) → List X
  columns zero r ss = []
  columns (suc n) r ss = column r ss ++ columns n (suc r) ss

  -- What is left of a column when the pointers stand at `ps`.
  unfoldable pub cell : ℕ → ℕ → List (Point X Y) → List X
  cell p r points = if leb p r then x_of (get_elem? points r) else []

  abbrev pub row : ℕ → List (Series X Y) → List ℕ → List X
  row r [] ps = []
  row r (s ∷ ss) [] = []
  row r (s ∷ ss) (p ∷ ps) = cell p r s.points ++ row r ss ps

  abbrev pub rows : ℕ → ℕ → List (Series X Y) → List ℕ → List X
  rows zero r ss ps = []
  rows (suc n) r ss ps = row r ss ps ++ rows n (suc r) ss ps

  abbrev pub remaining : List (Series X Y) → List ℕ → ℕ
  remaining [] ps = 0
  remaining (s ∷ ss) [] = 0
  remaining (s ∷ ss) (p ∷ ps) = (length s.points - p) + remaining ss ps

  get_elem?-none :
      (points : List (Point X Y)) (r : ℕ) → length points ≤ r → get_elem? points r ≡ none
  get_elem?-none [] r l = refl
  get_elem?-none (q ∷ points) zero l = absurd (omega arith)
  get_elem?-none (q ∷ points) (suc r) l = get_elem?-none points r (omega arith)

  cell-empty :
      (p r : ℕ) (points : List (Point X Y)) → (p < length points → r < p) → cell p r points ≡ []
  unfolding cell
  cell-empty p r points h = elim (Bool-cases (leb p r)) [
    | inl a ↦ rw (a, get_elem?-none points r (long a))
    | inr b ↦ rw b refl
  ]
    where
      long : leb p r ≡ true → length points ≤ r
      long a = ground arith

  cell-same :
      (p q r : ℕ) (points : List (Point X Y)) → p ≤ r → q ≤ r → cell p r points ≡ cell q r points
  unfolding cell
  cell-same p q r points a b =
      let c : leb p r ≡ true = ground arith in
      let d : leb q r ≡ true = ground arith in rw (c, d) refl

  cell-here :
      (r : ℕ) (points : List (Point X Y)) (pt : Point X Y)
      → get_elem? points r ≡ some pt
      → cell r r points ≡ pt.x ∷ []
  unfolding cell
  cell-here r points pt at = let c : leb r r ≡ true = ground arith in rw (c, at) refl

  row-NotBefore :
      (r m : ℕ) (ss : List (Series X Y)) (ps : List ℕ)
      → r < m
      → NotBefore m ss ps
      → row r ss ps ≡ []
  row-NotBefore r m [] ps l h = refl
  row-NotBefore r m (s ∷ ss) [] l h = absurd h
  row-NotBefore r m (s ∷ ss) (p ∷ ps) l (a, h) =
      rw (cell-empty p r s.points (λ b. let c = a b in omega arith), row-NotBefore r m ss ps l h)

  module _ (m : ℕ) (pt : Point X Y) where
    row-before :
        (r : ℕ) (ss : List (Series X Y)) (ps : List ℕ) (i : ℕ)
        → r < m
        → IsChosen m pt ss ps i
        → (row r ss ps ≡ []) × (row r ss (bump ps i) ≡ [])
    row-before r [] ps i l h = absurd h
    row-before r (s ∷ ss) [] i l h = absurd h
    row-before r (s ∷ ss) (p ∷ ps) zero l (e, at, h) =
        let rest = row-NotBefore r m ss ps l h in
        (
          rw (cell-empty p r s.points (λ b. omega arith), rest),
          rw (cell-empty (suc p) r s.points (λ b. omega arith), rest),
        )
    row-before r (s ∷ ss) (p ∷ ps) (suc i) l (a, h) =
        let (b, c) = row-before r ss ps i l h in
        let none_left = cell-empty p r s.points (λ d. let f = a d in omega arith) in
        (rw (none_left, b), rw (none_left, c))

    row-chosen :
        (ss : List (Series X Y)) (ps : List ℕ) (i : ℕ)
        → IsChosen m pt ss ps i
        → row m ss ps ≡ pt.x ∷ row m ss (bump ps i)
    row-chosen [] ps i h = absurd h
    row-chosen (s ∷ ss) [] i h = absurd h
    row-chosen (s ∷ ss) (p ∷ ps) zero (e, at, h) =
        rw (e, cell-here m s.points pt at, cell-empty (suc m) m s.points (λ b. omega arith))
    row-chosen (s ∷ ss) (p ∷ ps) (suc i) (a, h) =
        rw (cell-empty p m s.points a, row-chosen ss ps i h)

    row-after :
        (r : ℕ) (ss : List (Series X Y)) (ps : List ℕ) (i : ℕ)
        → m < r
        → IsChosen m pt ss ps i
        → row r ss ps ≡ row r ss (bump ps i)
    row-after r [] ps i l h = absurd h
    row-after r (s ∷ ss) [] i l h = absurd h
    row-after r (s ∷ ss) (p ∷ ps) zero l (e, at, h) =
        ap (◌++ row r ss ps) (cell-same p (suc p) r s.points (omega arith) (omega arith))
    row-after r (s ∷ ss) (p ∷ ps) (suc i) l (a, h) =
        ap (cell p r s.points ++◌) (row-after r ss ps i l h)

    rows-after :
        (n r : ℕ) (ss : List (Series X Y)) (ps : List ℕ) (i : ℕ)
        → m < r
        → IsChosen m pt ss ps i
        → rows n r ss ps ≡ rows n r ss (bump ps i)
    rows-after zero r ss ps i l h = refl
    rows-after (suc n) r ss ps i l h =
        rw (row-after r ss ps i l h, rows-after n (suc r) ss ps i (omega arith) h)

    -- A round takes the first x value that is left.
    pub rows-chosen :
        (n r : ℕ) (ss : List (Series X Y)) (ps : List ℕ) (i : ℕ)
        → r ≤ m
        → m < r + n
        → IsChosen m pt ss ps i
        → rows n r ss ps ≡ pt.x ∷ rows n r ss (bump ps i)
    rows-chosen zero r ss ps i l b h = absurd (omega arith)
    rows-chosen (suc n) r ss ps i l b h = elim (Bool-cases (leb m r)) [
      | inl here ↦
          let e : r ≡ m = ground arith in
          rw (e, row-chosen ss ps i h, rows-after n (suc m) ss ps i (omega arith) h)
      | inr further ↦
          let less : r < m = ground arith in
          let (c, d) = row-before r ss ps i less h in
          rw (c, d, rows-chosen n (suc r) ss ps i (omega arith) (omega arith) h)
    ]

    pub IsChosen-lt :
        (ss : List (Series X Y)) (ps : List ℕ) (i : ℕ) → IsChosen m pt ss ps i → m < total_points ss
    IsChosen-lt [] ps i h = absurd h
    IsChosen-lt (s ∷ ss) [] i h = absurd h
    IsChosen-lt (s ∷ ss) (p ∷ ps) zero (e, at, h) =
        let l = lt-length_of_get_elem? s.points m at in omega arith
    IsChosen-lt (s ∷ ss) (p ∷ ps) (suc i) (a, h) = let l = IsChosen-lt ss ps i h in omega arith

    pub remaining-chosen :
        (ss : List (Series X Y)) (ps : List ℕ) (i : ℕ)
        → IsChosen m pt ss ps i
        → remaining ss ps ≡ suc (remaining ss (bump ps i))
    remaining-chosen [] ps i h = absurd h
    remaining-chosen (s ∷ ss) [] i h = absurd h
    remaining-chosen (s ∷ ss) (p ∷ ps) zero (e, at, h) =
        let l = lt-length_of_get_elem? s.points m at in omega arith
    remaining-chosen (s ∷ ss) (p ∷ ps) (suc i) (a, h) =
        let l = remaining-chosen ss ps i h in omega arith

  row-closed :
      (r : ℕ) (ss : List (Series X Y)) (ps : List ℕ)
      → ((j : ℕ) (s : Series X Y) → get_elem? ss j ≡ some s → pointer ps j < length s.points → ⊥)
      → row r ss ps ≡ []
  row-closed r [] ps h = refl
  row-closed r (s ∷ ss) [] h = refl
  row-closed r (s ∷ ss) (p ∷ ps) h =
      rw (cell-empty p r s.points (λ b. absurd (h 0 s refl b)), row-closed r ss ps (λ j. h (suc j)))

  pub rows-closed :
      (n r : ℕ) (ss : List (Series X Y)) (ps : List ℕ)
      → ((j : ℕ) (s : Series X Y) → get_elem? ss j ≡ some s → pointer ps j < length s.points → ⊥)
      → rows n r ss ps ≡ []
  rows-closed zero r ss ps h = refl
  rows-closed (suc n) r ss ps h = rw (row-closed r ss ps h, rows-closed n (suc r) ss ps h)
