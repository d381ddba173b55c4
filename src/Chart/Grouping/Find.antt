-- ===== src/Chart/Grouping/Find.antt =====
-- The series of a name among those of a chart, and Object.values of sqlpage/apexcharts.js.
use sqlpage.Prelude.{
  ℕ, ◌≡◌, refl, ap, sym, ◌∙◌, true, false, Option, none, some, List, [], ◌∷◌, ◌++◌, ltb,
  if◌then◌else◌, Text, get_or_else, text_eq, text_eq_iff, text_eq_refl, Bool-cases, inl, inr, arith,
}
use sqlpage.Chart.Grouping.{
  is_index, index_before, NamedSeries, select, insert_by_index, sort_by_index, object_values,
}

ltb_self : (k : ℕ) → ltb k k ≡ false
ltb_self k = ground arith

index_before_self : (n : Text) → index_before n n ≡ false
unfolding index_before
index_before_self n = ltb_self _

pub differs : (s m n : Text) → text_eq s m ≡ false → text_eq s n ≡ true → text_eq m n ≡ false
differs s m n a b = elim (Bool-cases (text_eq m n)) [
  | inl c ↦
      let e = (text_eq_iff s n).0 b in
      let f = (text_eq_iff m n).0 c in let g = (text_eq_iff s m).1 (e ∙ sym f) in cc
  | inr d ↦ d
]

module _ {P : Type 0} where
  -- The points of the first series with a name.
  abbrev pub points_of : Text → List (NamedSeries P) → List P
  points_of n [] = []
  points_of n (s ∷ ss) = if text_eq s.name n then s.points else points_of n ss

  -- The points of the first series with a name, if there is one.
  abbrev pub find : Text → List (NamedSeries P) → Option (List P)
  find n [] = none
  find n (s ∷ ss) = if text_eq s.name n then some s.points else find n ss

  pub points_of-find :
      (n : Text) (ss : List (NamedSeries P)) → points_of n ss ≡ get_or_else (find n ss) []
  points_of-find n [] = refl
  points_of-find n (s ∷ ss) = elim (Bool-cases (text_eq s.name n)) [
    | inl a ↦ rw a refl
    | inr b ↦ rw b (points_of-find n ss)
  ]

  find-select :
      (n : Text) (ss : List (NamedSeries P))
      → (find n (select true ss) ≡ (if is_index n then find n ss else none))
        × (find n (select false ss) ≡ (if is_index n then none else find n ss))
  unfolding select
  find-select n [] = elim (Bool-cases (is_index n)) [
    | inl a ↦ rw a (refl, refl)
    | inr b ↦ rw b (refl, refl)
  ]
  find-select n (s ∷ ss) =
      let (p, q) = find-select n ss in
      elim (Bool-cases (text_eq s.name n)) [
        | inl here ↦
            let e = (text_eq_iff s.name n).0 here in
            elim (Bool-cases (is_index n)) [
              | inl a ↦ rw (e, a, text_eq_refl n, q) (refl, rw a refl)
              | inr b ↦ rw (e, b, text_eq_refl n, p) (rw b refl, refl)
            ]
        | inr there ↦ elim (Bool-cases (is_index s.name)) [
          | inl a ↦ rw (a, there) (p, q)
          | inr b ↦ rw (b, there) (p, q)
        ]
      ]

  find-insert_by_index :
      (n : Text) (s : NamedSeries P) (ss : List (NamedSeries P))
      → find n (insert_by_index s ss) ≡ find n (s ∷ ss)
  unfolding insert_by_index
  find-insert_by_index n s [] = refl
  find-insert_by_index n s (t ∷ ts) = elim (Bool-cases (index_before t.name s.name)) [
    | inl before ↦
        rw (before, find-insert_by_index n s ts)
          (elim (Bool-cases (text_eq t.name n)) [
            | inl here ↦ rw (here, other before here) refl
            | inr there ↦ rw there refl
          ])
    | inr after ↦ rw after refl
  ]
    where
      other : index_before t.name s.name ≡ true → text_eq t.name n ≡ true → text_eq s.name n ≡ false
      other before here = elim (Bool-cases (text_eq s.name n)) [
        | inl same ↦
            let e = (text_eq_iff t.name n).0 here ∙ sym ((text_eq_iff s.name n).0 same) in
            let f = index_before_self s.name in
            let g : index_before s.name s.name ≡ true = rw e at before in cc
        | inr differs ↦ differs
      ]

  find-sort_by_index :
      (n : Text) (ss : List (NamedSeries P)) → find n (sort_by_index ss) ≡ find n ss
  unfolding sort_by_index
  find-sort_by_index n [] = refl
  find-sort_by_index n (s ∷ ss) =
      find-insert_by_index n s (sort_by_index ss)
      ∙ ap (λ o. if text_eq s.name n then some s.points else o) (find-sort_by_index n ss)

  abbrev or_else : Option (List P) → Option (List P) → Option (List P)
  or_else none o = o
  or_else (some ps) o = some ps

  find-append :
      (n : Text) (ss ts : List (NamedSeries P))
      → find n (ss ++ ts) ≡ or_else (find n ss) (find n ts)
  find-append n [] ts = refl
  find-append n (s ∷ ss) ts = elim (Bool-cases (text_eq s.name n)) [
    | inl a ↦ rw a refl
    | inr b ↦ rw b (find-append n ss ts)
  ]

  or_else-none : (o : Option (List P)) → or_else o none ≡ o
  or_else-none none = refl
  or_else-none (some ps) = refl

  pub find-object_values :
      (n : Text) (ss : List (NamedSeries P)) → find n (object_values ss) ≡ find n ss
  unfolding object_values
  find-object_values n ss =
      let (p, q) = find-select n ss in
      find-append n (sort_by_index (select true ss)) (select false ss)
      ∙ elim (Bool-cases (is_index n)) [
        | inl a ↦ rw (find-sort_by_index n (select true ss), p, q, a) (or_else-none (find n ss))
        | inr b ↦ rw (find-sort_by_index n (select true ss), p, q, b) refl
      ]
