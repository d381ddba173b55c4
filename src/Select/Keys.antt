-- ===== src/Select/Keys.antt =====
-- The keys that the first result must have, and its error, for the function of
-- sqlpage_load_options_source of sqlpage/tomselect.js.
use sqlpage.Prelude.{
  ℕ, suc, ◌≡◌, refl, ap, sym, ◌∙◌, ◌⊎◌, inl, inr, Bool, true, false, ◌&&◌, none, some, List, [],
  ◌∷◌, length, any, ◌==◌, Text, codes, text_eq, text_eq_iff, Bool-cases, arith,
}
use sqlpage.Select.{
  Json, null, boolean, number, string, array, object, Items, empty, item, no_field, field, keys_of,
  field_at, has_option_keys, if_truthy, error_of,
}

pub label_or_value :
    (k l : Text)
    → any (λ t. text_eq t (codes "label")) (k ∷ l ∷ []) ≡ true
    → any (λ t. text_eq t (codes "value")) (k ∷ l ∷ []) ≡ true
    → ((k ≡ codes "label") × (l ≡ codes "value")) ⊎ ((k ≡ codes "value") × (l ≡ codes "label"))
label_or_value k l h i = elim (Bool-cases (text_eq k (codes "label"))) [
  | inl a ↦
      let e = (text_eq_iff k (codes "label")).0 a in
      let b : text_eq k (codes "value") ≡ false = rw e (unfold text_eq in refl) in
      let c : text_eq l (codes "value") ≡ true = ground arith in
      inl (e, (text_eq_iff l (codes "value")).0 c)
  | inr a ↦
      let b : text_eq l (codes "label") ≡ true = ground arith in
      let e = (text_eq_iff l (codes "label")).0 b in
      let c : text_eq l (codes "value") ≡ false = rw e (unfold text_eq in refl) in
      let d : text_eq k (codes "value") ≡ true = ground arith in
      inr ((text_eq_iff k (codes "value")).0 d, e)
]

pub true_of_Option : (b : Bool) → some b ≡ some true → b ≡ true
true_of_Option b h = cc

pub three_keys : (n : ℕ) (b : Bool) → (suc (suc (suc n)) == 2) && b ≡ false
three_keys n b = let e : (suc (suc (suc n)) == 2) ≡ false = ground arith in rw e refl

pub both_true : (a b : Bool) → a && b ≡ true → (a ≡ true) × (b ≡ true)
both_true true b h = (refl, h)
both_true false b h = cc

module _ {N : Type 0} where
  -- The keys of the first object are as they must be; nothing is said of the others.
  abbrev pub Fits : Items N → Type 0
  Fits empty = Unit
  Fits (item first rest) = has_option_keys first ≡ some true

  pub no_error_field :
      (k l : Text) (v w : Json N)
      → ((k ≡ codes "label") × (l ≡ codes "value")) ⊎ ((k ≡ codes "value") × (l ≡ codes "label"))
      → field_at (codes "error") (field k v (field l w no_field)) ≡ none
  unfolding field_at text_eq
  no_error_field k l v w (inl (e, f)) = rw (e, f) refl
  no_error_field k l v w (inr (e, f)) = rw (e, f) refl

  pub error_of-Fits :
      (truthy : N → Bool) (first : Json N)
      → has_option_keys first ≡ some true
      → error_of truthy first ≡ none
  unfolding has_option_keys keys_of error_of if_truthy
  error_of-Fits truthy null h = refl
  error_of-Fits truthy (boolean b) h = refl
  error_of-Fits truthy (number n) h = refl
  error_of-Fits truthy (string s) h = refl
  error_of-Fits truthy (array js) h = refl
  error_of-Fits truthy (object no_field) h = refl
  error_of-Fits truthy (object (field k v no_field)) h = cc
  error_of-Fits truthy (object (field k v (field l w no_field))) h =
      let (p, q) = both_true _ _ (true_of_Option _ h) in
      let e = no_error_field k l v w (label_or_value k l p q) in ap (if_truthy truthy) e
  error_of-Fits truthy (object (field k v (field l w (field m x fs)))) h =
      absurd (three k l m (keys_of fs) h)
    where
      three :
          (a b c : Text) (ks : List Text)
          → some (
              (length (a ∷ b ∷ c ∷ ks) == 2)
              && (any (λ t. text_eq t (codes "label")) (a ∷ b ∷ c ∷ ks)
                  && any (λ t. text_eq t (codes "value")) (a ∷ b ∷ c ∷ ks)))
            ≡ some true
          → ⊥
      three a b c ks i =
          let t = true_of_Option _ i in
          let f : true ≡ false = sym t ∙ three_keys (length ks) _ in cc
