-- ===== src/Chart/Align/Pointers.antt =====
-- The pointers of align_categories: the smallest one and the first index that has it.
use sqlpage.Prelude.{
  ℕ, zero, suc, ◌≤◌, ◌<◌, ◌≡◌, refl, ◌≢◌, sym, subst, Bool, true, false, some, List, [], ◌∷◌, map,
  length, get_elem?, ltb, ◌==◌, ==_iff, ltb→lt, if◌then◌else◌, All, arith, Bool-cases, inl, inr,
  ◌⊎◌,
}
use sqlpage.Chart.Align.{pointer, min_of, find_pointer}

module _ {A : Type 0} (P : A → Type 0) where
  abbrev pub Exists : List A → Type 0
  Exists [] = ⊥
  Exists (x ∷ xs) = P x ⊎ Exists xs

abbrev pub Ascending : List ℕ → Type 0
Ascending [] = Unit
Ascending (i ∷ is) = All (λ j. i < j) is × Ascending is

pub All-imp {ℓ} :
    {A : Type ℓ} {P Q : A → Type 0} (xs : List A) → ((x : A) → P x → Q x) → All P xs → All Q xs
All-imp [] f h = tt
All-imp (x ∷ xs) f (p, h) = (f x p, All-imp xs f h)

pub min_of-le : (m : ℕ) (ns : List ℕ) → (min_of m ns ≤ m) × All (λ n. min_of m ns ≤ n) ns
min_of-le m [] = (omega arith, tt)
min_of-le m (n ∷ ns) = elim (Bool-cases (ltb n m)) [
  | inl less ↦
      let (a, b) = min_of-le n ns in
      let l = ltb→lt n m less in
      let e : min_of m (n ∷ ns) ≡ min_of n ns = rw less in
      subst (λ z. (z ≤ m) × ((z ≤ n) × All (λ k. z ≤ k) ns)) (sym e) (omega arith, (a, b))
  | inr more ↦
      let (a, b) = min_of-le m ns in
      let e : min_of m (n ∷ ns) ≡ min_of m ns = rw more in
      let l : m ≤ n = ground arith in
      subst (λ z. (z ≤ m) × ((z ≤ n) × All (λ k. z ≤ k) ns)) (sym e) (a, (omega arith, b))
]

module _ (ps : List ℕ) where
  -- The minimum is the first pointer or one of the others.
  pub min_of-Exists :
      (m : ℕ) (is : List ℕ)
      → (min_of m (map (pointer ps) is) ≡ m)
        ⊎ Exists (λ k. pointer ps k ≡ min_of m (map (pointer ps) is)) is
  min_of-Exists m [] = inl refl
  min_of-Exists m (i ∷ is) = elim (Bool-cases (ltb (pointer ps i) m)) [
    | inl less ↦
        let e : min_of m (map (pointer ps) (i ∷ is)) ≡ min_of (pointer ps i) (map (pointer ps) is) =
          rw less in
        subst (λ z. (z ≡ m) ⊎ Exists (λ k. pointer ps k ≡ z) (i ∷ is)) (sym e)
          (inr (first (min_of-Exists (pointer ps i) is)))
    | inr more ↦
        let e : min_of m (map (pointer ps) (i ∷ is)) ≡ min_of m (map (pointer ps) is) = rw more in
        subst (λ z. (z ≡ m) ⊎ Exists (λ k. pointer ps k ≡ z) (i ∷ is)) (sym e)
          (later (min_of-Exists m is))
  ]
    where
      first :
          {n : ℕ}
          → (n ≡ pointer ps i) ⊎ Exists (λ k. pointer ps k ≡ n) is
          → (pointer ps i ≡ n) ⊎ Exists (λ k. pointer ps k ≡ n) is
      first (inl e) = inl (sym e)
      first (inr h) = inr h

      later :
          {n : ℕ}
          → (n ≡ m) ⊎ Exists (λ k. pointer ps k ≡ n) is
          → (n ≡ m) ⊎ Exists (λ k. pointer ps k ≡ n) (i ∷ is)
      later (inl e) = inl e
      later (inr h) = inr (inr h)

  pub find_pointer-eq :
      (m : ℕ) (is : List ℕ)
      → Exists (λ k. pointer ps k ≡ m) is
      → pointer ps (find_pointer ps m is) ≡ m
  find_pointer-eq m [] h = absurd h
  find_pointer-eq m (i ∷ is) h = elim (Bool-cases (pointer ps i == m)) [
    | inl here ↦ rw here ((==_iff (pointer ps i) m).0 here)
    | inr other ↦ rw other (find_pointer-eq m is (rest h other))
  ]
    where
      rest :
          Exists (λ k. pointer ps k ≡ m) (i ∷ is)
          → (pointer ps i == m) ≡ false
          → Exists (λ k. pointer ps k ≡ m) is
      rest (inl e) other = cc ((==_iff (pointer ps i) m).1 e, other)
      rest (inr h) other = h

  -- What holds of every listed index holds of the one that is found.
  pub find_pointer-All :
      (P : ℕ → Type 0) (m : ℕ) (is : List ℕ)
      → Exists (λ k. pointer ps k ≡ m) is
      → All P is
      → P (find_pointer ps m is)
  find_pointer-All P m [] h a = absurd h
  find_pointer-All P m (i ∷ is) h (p, a) = elim (Bool-cases (pointer ps i == m)) [
    | inl here ↦ rw here p
    | inr other ↦ rw other (find_pointer-All P m is (rest h other) a)
  ]
    where
      rest :
          Exists (λ k. pointer ps k ≡ m) (i ∷ is)
          → (pointer ps i == m) ≡ false
          → Exists (λ k. pointer ps k ≡ m) is
      rest (inl e) other = cc ((==_iff (pointer ps i) m).1 e, other)
      rest (inr h) other = h

  -- No listed index below it has the pointer.
  pub find_pointer-first :
      (m : ℕ) (is : List ℕ)
      → Ascending is
      → All (λ j. j < find_pointer ps m is → pointer ps j ≢ m) is
  find_pointer-first m [] s = tt
  find_pointer-first m (i ∷ is) (below, s) = elim (Bool-cases (pointer ps i == m)) [
    | inl here ↦
        let e : find_pointer ps m (i ∷ is) ≡ i = rw here in
        subst (λ z. All (λ j. j < z → pointer ps j ≢ m) (i ∷ is)) (sym e)
          ((λ l. absurd (omega arith)), All-imp is (λ j b l. absurd (omega arith)) below)
    | inr other ↦
        let e : find_pointer ps m (i ∷ is) ≡ find_pointer ps m is = rw other in
        subst (λ z. All (λ j. j < z → pointer ps j ≢ m) (i ∷ is)) (sym e)
          ((λ l q. cc ((==_iff (pointer ps i) m).1 q, other)), find_pointer-first m is s)
  ]

pub if-All_tail :
    (P : ℕ → Type 0) (b : Bool) (i : ℕ) (is : List ℕ) → All P (if b then i ∷ is else is) → All P is
if-All_tail P true i is (p, h) = h
if-All_tail P false i is h = h

pub if-All_head :
    (P : ℕ → Type 0) (b : Bool) (i : ℕ) (is : List ℕ)
    → b ≡ true
    → All P (if b then i ∷ is else is)
    → P i
if-All_head P true i is e (p, h) = p
if-All_head P false i is e h = cc

pub get_elem?-some {ℓ} :
    {A : Type ℓ} (xs : List A) (i : ℕ) → i < length xs → (x : A) × (get_elem? xs i ≡ some x)
get_elem?-some [] i l = absurd (omega arith)
get_elem?-some (x ∷ xs) zero l = (x, refl)
get_elem?-some (x ∷ xs) (suc i) l = get_elem?-some xs i (omega arith)

pub present_of :
    (ps : List ℕ) (m i : ℕ) (is : List ℕ)
    → (m ≡ pointer ps i) ⊎ Exists (λ k. pointer ps k ≡ m) is
    → Exists (λ k. pointer ps k ≡ m) (i ∷ is)
present_of ps m i is (inl e) = inl (sym e)
present_of ps m i is (inr h) = inr h

pub All-unmap :
    (f : ℕ → ℕ) (m : ℕ) (is : List ℕ) → All (λ n. m ≤ n) (map f is) → All (λ k. m ≤ f k) is
All-unmap f m [] h = tt
All-unmap f m (i ∷ is) (p, h) = (p, All-unmap f m is h)
