-- ===== src/Select/Outcomes.antt =====
-- Which options the function of sqlpage_load_options_source gives to Tom Select.
use sqlpage.Prelude.{
  ◌≡◌, refl, ap, sym, subst, ◌⊎◌, inl, inr, Bool, true, false, Option, none, some, Text, Bool-cases,
}
use sqlpage.Select.{
  Json, null, boolean, number, string, array, object, Items, empty, item, Response, Outcome,
  called_back, rejected, err, has_option_keys, error_of, check_first, check_only, check_results,
  check_body, is_json, load_options,
}
use sqlpage.Select.Keys.{Fits, error_of-Fits}

module _ {N : Type 0} where
  -- The response has results whose first object, if there is one, has the keys.
  abbrev pub IsGood : Response N → Items N → Type 0
  IsGood resp results =
      (resp.ok ≡ true)
      × (is_json resp.content_type ≡ true)
      × (resp.body ≡ some (array results))
      × Fits results

  module _ (truthy : N → Bool) (stringify : Json N → Text) (source : Text) where
    check_results-Fits :
        (results : Items N)
        → Fits results
        → check_results truthy stringify source results ≡ called_back results
    unfolding check_results check_only check_first
    check_results-Fits empty h = refl
    check_results-Fits (item null empty) h = unfold has_option_keys in cc
    check_results-Fits (item (boolean b) empty) h = unfold has_option_keys in cc
    check_results-Fits (item (number n) empty) h = unfold has_option_keys in cc
    check_results-Fits (item (string s) empty) h = unfold has_option_keys in cc
    check_results-Fits (item (array js) empty) h = unfold has_option_keys in cc
    check_results-Fits (item (object fs) empty) h =
        let e = error_of-Fits truthy (object fs) h in rw (e, h) refl
    check_results-Fits (item first (item next rest)) h = rw h refl

    -- Results whose first object has the keys "label" and "value" and no other are the options,
    -- whatever objects come after the first.
    pub load_options-IsGood :
        (resp : Response N) (results : Items N)
        → resp.ok ≡ true
        → is_json resp.content_type ≡ true
        → resp.body ≡ some (array results)
        → Fits results
        → load_options truthy stringify source (some resp) ≡ called_back results
    unfolding load_options check_body
    load_options-IsGood resp results o j b f = rw (o, j, b) (check_results-Fits results f)

    -- The options are the results of a good response, or one option with a message.
    Honest : (Items N → Type 0) → Outcome N → Type 0
    Honest good rejected = Unit
    Honest good (called_back js) = ((label : Json N) × (called_back js ≡ err label)) ⊎ good js

    Honest-err : (good : Items N → Type 0) (label : Json N) → Honest good (err label)
    Honest-err good label = unfold Honest err in inl (label, refl)

    Honest-called_back :
        (good : Items N → Type 0) (js : Items N) → good js → Honest good (called_back js)
    unfolding Honest
    Honest-called_back good js h = inr h

    Honest-imp :
        (good better : Items N → Type 0) (o : Outcome N)
        → ((js : Items N) → good js → better js)
        → Honest good o
        → Honest better o
    unfolding Honest
    Honest-imp good better rejected f h = tt
    Honest-imp good better (called_back js) f (inl e) = inl e
    Honest-imp good better (called_back js) f (inr g) = inr (f js g)

    check_first-Honest :
        (first : Json N) (results : Items N) (o : Option Bool)
        → Honest
            (λ js. (js ≡ results) × (o ≡ some true))
            (check_first truthy stringify source first results o)
    unfolding check_first
    check_first-Honest first results none = unfold Honest in tt
    check_first-Honest first results (some true) = Honest-called_back _ results (refl, refl)
    check_first-Honest first results (some false) = Honest-err _ _

    Chosen : Items N → Items N → Type 0
    Chosen results js = (js ≡ results) × Fits results

    check_only-Honest :
        (first : Json N) (o : Option (Json N))
        → Honest (Chosen (item first empty)) (check_only truthy stringify source first o)
    unfolding check_only Chosen
    check_only-Honest first none =
        check_first-Honest first (item first empty) (has_option_keys first)
    check_only-Honest first (some error) = Honest-err _ error

    check_results-Honest :
        (results : Items N)
        → Honest (Chosen results) (check_results truthy stringify source results)
    unfolding check_results Chosen
    check_results-Honest empty = Honest-called_back _ empty (refl, tt)
    check_results-Honest (item null empty) = unfold Honest in tt
    check_results-Honest (item (boolean b) empty) =
        unfold Chosen in check_only-Honest (boolean b) none
    check_results-Honest (item (number n) empty) =
        unfold Chosen in check_only-Honest (number n) none
    check_results-Honest (item (string s) empty) =
        unfold Chosen in check_only-Honest (string s) none
    check_results-Honest (item (array js) empty) =
        unfold Chosen in check_only-Honest (array js) none
    check_results-Honest (item (object fs) empty) =
        unfold Chosen in check_only-Honest (object fs) (error_of truthy (object fs))
    check_results-Honest (item first (item next rest)) =
        check_first-Honest first (item first (item next rest)) (has_option_keys first)

    check_body-Honest :
        (body : Option (Json N))
        → Honest
            (λ js. (body ≡ some (array js)) × Fits js)
            (check_body truthy stringify source body)
    unfolding check_body
    check_body-Honest none = unfold Honest in tt
    check_body-Honest (some null) = Honest-err _ _
    check_body-Honest (some (boolean b)) = Honest-err _ _
    check_body-Honest (some (number n)) = Honest-err _ _
    check_body-Honest (some (string s)) = Honest-err _ _
    check_body-Honest (some (object fs)) = Honest-err _ _
    check_body-Honest (some (array results)) =
        Honest-imp (Chosen results) _ (check_results truthy stringify source results)
          (λ js.
            unfold Chosen in (λ h. (ap (λ x. some (array x)) (sym h.0), subst Fits (sym h.0) h.1)))
          (check_results-Honest results)

    response-Honest :
        (resp : Response N)
        → Honest (λ js. IsGood resp js) (load_options truthy stringify source (some resp))
    unfolding load_options
    response-Honest resp = elim (Bool-cases resp.ok) [
      | inl ok ↦ elim (Bool-cases (is_json resp.content_type)) [
        | inl json ↦
            rw (ok, json)
              (Honest-imp (λ js. (resp.body ≡ some (array js)) × Fits js) _
                (check_body truthy stringify source resp.body) (λ js h. (refl, refl, h.0, h.1))
                (check_body-Honest resp.body))
        | inr other ↦ rw (ok, other) (Honest-err _ _)
      ]
      | inr failed ↦ rw failed (Honest-err _ _)
    ]

    -- The outcome is a rejected promise, one option with a message, or the results of a response that
    -- is ok, of the type of JSON, and an array whose first object has the keys "label" and "value"
    -- and no other.
    pub load_options-Honest :
        (o : Option (Response N))
        → (load_options truthy stringify source o ≡ rejected)
          ⊎ ((js : Items N) × (load_options truthy stringify source o ≡ called_back js)
              × (((label : Json N) × (called_back js ≡ err label))
                  ⊎ ((resp : Response N) × (o ≡ some resp) × IsGood resp js)))
    load_options-Honest o = split (load_options truthy stringify source o) refl (honest o)
      where
        Fine : Option (Response N) → Items N → Type 0
        Fine q js = (resp : Response N) × (q ≡ some resp) × IsGood resp js

        honest :
            (q : Option (Response N)) → Honest (Fine q) (load_options truthy stringify source q)
        honest none = unfold load_options Honest in tt
        honest (some resp) =
            Honest-imp (IsGood resp) (Fine (some resp)) _ (λ js h. (resp, refl, h))
              (response-Honest resp)

        split :
            (r : Outcome N)
            → load_options truthy stringify source o ≡ r
            → Honest (Fine o) r
            → (load_options truthy stringify source o ≡ rejected)
              ⊎ ((js : Items N) × (load_options truthy stringify source o ≡ called_back js)
                  × (((label : Json N) × (called_back js ≡ err label))
                      ⊎ ((resp : Response N) × (o ≡ some resp) × IsGood resp js)))
        split rejected e h = inl e
        split (called_back js) e h = inr (js, e, unfold Honest in h)
