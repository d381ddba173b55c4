-- ===== src/Chart/Grouping/Kept.antt =====
-- The points that each series of a chart gets.
use mathlib.Core.Option
use sqlpage.Prelude.{
  All, text_eq_refl, text_eq_iff, ◌≡◌, refl, ap, sym, ◌∙◌, Bool, true, false, ◌||◌, none, some,
  List, [], ◌∷◌, ◌++◌, append_assoc, append-nil, if◌then◌else◌, Text, get_or_else, text_eq,
  text_eq_iff, Bool-cases, inl, inr, arith,
}
use sqlpage.Chart.Grouping.{
  inherited, lookup_series, or_new, push_data, assign_series, push_next, is_inherited, NamedSeries,
  group, object_values, chart_series,
}
use sqlpage.Chart.Grouping.Find.{differs, points_of, points_of-find, find-object_values}

module _ {P : Type 0} where
  -- The points that were given with a name, in their order.
  abbrev pub given : Text → List (Text × P) → List P
  given n [] = []
  given n ((m, p) ∷ points) = if text_eq m n then p ∷ given n points else given n points

  abbrev pub any_inherited : List (Text × P) → Bool
  any_inherited [] = false
  any_inherited ((m, p) ∷ points) = is_inherited m || any_inherited points

  -- The series with a point more at the first of a name, or with a new series.
  abbrev push_point : Text → P → List (NamedSeries P) → List (NamedSeries P)
  push_point name p [] = record { name = name; points = p ∷ [] } ∷ []
  push_point name p (s ∷ ss) =
      if text_eq s.name name
      then record s { points = s.points ++ p ∷ [] } ∷ ss
      else s ∷ push_point name p ss

  points_of-push_point :
      (n m : Text) (p : P) (ss : List (NamedSeries P))
      → points_of n (push_point m p ss) ≡ points_of n ss ++ (if text_eq m n then p ∷ [] else [])
  points_of-push_point n m p [] = refl
  points_of-push_point n m p (s ∷ ss) = elim (Bool-cases (text_eq s.name m)) [
    | inl same ↦ let q = (text_eq_iff s.name m).0 same in rw (same, sym q) (go (text_eq s.name n))
    | inr other ↦ rw other (elim (Bool-cases (text_eq s.name n)) [
      | inl here ↦ let b = differs s.name m n other here in rw (here, b) (sym (append-nil s.points))
      | inr there ↦ rw there (points_of-push_point n m p ss)
    ])
  ]
    where
      go :
          (b : Bool)
          → (if b then s.points ++ p ∷ [] else points_of n ss)
            ≡ (if b then s.points else points_of n ss) ++ (if b then p ∷ [] else [])
      go true = refl
      go false = sym (append-nil (points_of n ss))

  if_append :
      (b : Bool) (xs : List P) (p : P) (ys : List P)
      → (xs ++ (if b then p ∷ [] else [])) ++ ys ≡ xs ++ (if b then p ∷ ys else ys)
  if_append true xs p ys = append_assoc xs (p ∷ []) ys
  if_append false xs p ys = ap (◌++ ys) (append-nil xs)

  -- A step of the loop: the point goes to the series of its name.
  step-push_point :
      (m : Text) (p : P) (ss : List (NamedSeries P))
      → is_inherited m ≡ false
      → (t : NamedSeries P) × (push_data p (or_new m (lookup_series m ss)) ≡ some t)
        × (t.name ≡ m)
        × (assign_series t ss ≡ push_point m p ss)
  unfolding push_data or_new lookup_series assign_series
  step-push_point m p [] h = (record { name = m; points = p ∷ [] }, rw h refl, refl, refl)
  step-push_point m p (s ∷ ss) h = elim (Bool-cases (text_eq s.name m)) [
    | inl a ↦ (
      record s { points = s.points ++ p ∷ [] },
      rw a refl,
      (text_eq_iff s.name m).0 a,
      rw (a, text_eq_refl s.name) refl,
    )
    | inr b ↦ let (t, e, n, f) = step-push_point m p ss h in (t, rw b e, n, rw (n, b, f) refl)
  ]

  group-given :
      (points : List (Text × P)) (ss : List (NamedSeries P))
      → any_inherited points ≡ false
      → (rs : List (NamedSeries P)) × (group points ss ≡ some rs)
        × ((n : Text) → points_of n rs ≡ points_of n ss ++ given n points)
  unfolding group push_next
  group-given [] ss h = (ss, refl, (λ n. sym (append-nil (points_of n ss))))
  group-given ((m, p) ∷ points) ss h =
      let a : is_inherited m ≡ false = ground arith in
      let b : any_inherited points ≡ false = ground arith in
      let (t, pushed, name, assigned) = step-push_point m p ss a in
      let (rs, e, f) = group-given points (push_point m p ss) b in
      (
        rs,
        ap (push_next (λ ts. group points ts) ss) pushed ∙ ap (group points) assigned ∙ e,
        (λ n.
            f n
            ∙ ap (◌++ given n points) (points_of-push_point n m p ss)
            ∙ if_append (text_eq m n) (points_of n ss) p (given n points)),
      )

  -- If no name is that of a property of Object.prototype, the chart gets its series, and the series
  -- of each name has the points that were given with that name, in their order.
  pub chart_series-given :
      (points : List (Text × P))
      → any_inherited points ≡ false
      → (ss : List (NamedSeries P)) × (chart_series points ≡ some ss)
        × ((n : Text) → points_of n ss ≡ given n points)
  unfolding chart_series
  chart_series-given points h =
      let (ss, e, f) = group-given points [] h in
      (
        object_values ss,
        ap (Option.map object_values) e,
        (λ n.
            points_of-find n (object_values ss)
            ∙ ap (λ o. get_or_else o []) (find-object_values n ss)
            ∙ sym (points_of-find n ss)
            ∙ f n),
      )

  -- No series has an inherited name.
  abbrev AllOwn : List (NamedSeries P) → Type 0
  AllOwn ss = All (λ s. is_inherited s.name ≡ false) ss

  lookup_series-inherited :
      (m : Text) (ss : List (NamedSeries P))
      → AllOwn ss
      → is_inherited m ≡ true
      → lookup_series m ss ≡ some inherited
  unfolding lookup_series
  lookup_series-inherited m [] a h = rw h refl
  lookup_series-inherited m (s ∷ ss) (own, a) h = elim (Bool-cases (text_eq s.name m)) [
    | inl same ↦
        let e = ap is_inherited ((text_eq_iff s.name m).0 same) in
        let f : true ≡ false = sym h ∙ sym e ∙ own in cc
    | inr other ↦ rw other (lookup_series-inherited m ss a h)
  ]

  push_point-AllOwn :
      (m : Text) (p : P) (ss : List (NamedSeries P))
      → is_inherited m ≡ false
      → AllOwn ss
      → AllOwn (push_point m p ss)
  push_point-AllOwn m p [] h a = (h, tt)
  push_point-AllOwn m p (s ∷ ss) h (own, a) = elim (Bool-cases (text_eq s.name m)) [
    | inl same ↦ rw same (own, a)
    | inr other ↦ rw other (own, push_point-AllOwn m p ss h a)
  ]

  group-inherited :
      (points : List (Text × P)) (ss : List (NamedSeries P))
      → AllOwn ss
      → any_inherited points ≡ true
      → group points ss ≡ none
  unfolding group push_next or_new push_data
  group-inherited [] ss a h = cc
  group-inherited ((m, p) ∷ points) ss a h = elim (Bool-cases (is_inherited m)) [
    | inl i ↦
        ap (λ o. push_next (λ ts. group points ts) ss (push_data p (or_new m o)))
          (lookup_series-inherited m ss a i)
    | inr own ↦
        let (t, pushed, name, assigned) = step-push_point m p ss own in
        ap (push_next (λ ts. group points ts) ss) pushed
        ∙ ap (group points) assigned
        ∙ group-inherited points (push_point m p ss) (push_point-AllOwn m p ss own a) (ground arith)
  ]

  -- A point of a series with the name of a property of Object.prototype makes the grouping throw.
  pub chart_series-inherited :
      (points : List (Text × P)) → any_inherited points ≡ true → chart_series points ≡ none
  unfolding chart_series
  chart_series-inherited points h = ap (Option.map object_values) (group-inherited points [] tt h)
