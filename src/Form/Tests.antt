-- ===== src/Form/Tests.antt =====
-- Runs of the listeners of sqlpage_form of sqlpage/sqlpage.js, and the theorems at concrete inputs.
use sqlpage.Prelude.{ℕ, ◌⊎◌, get_elem?, All, ◌+◌, ◌≡◌, refl, true, false, none, some, [], ◌∷◌}
use sqlpage.Form.{on_change, on_change_cases, Within, Beyond}
use sqlpage.Form.Listeners.{FormPage, change_input, change_form}
use sqlpage.Form.Listeners.Again.{after_calls, after_calls-changed}

on_change-large :
    on_change (some 10) (3 ∷ 11 ∷ []) (record { is_invalid = false; validity = none })
    ≡ record { is_invalid = true; validity = some (some 10) }
unfolding on_change
on_change-large = refl

on_change_cases_example :
    (((i : ℕ) × (size : ℕ) × (get_elem? (3 ∷ 10 ∷ []) i ≡ some size) × Beyond (some 10) size)
      × (on_change (some 10) (3 ∷ 10 ∷ []) (record { is_invalid = true; validity = none })
          ≡ record { is_invalid = true; validity = some (some 10) }))
    ⊎ (All (Within (some 10)) (3 ∷ 10 ∷ [])
        × (on_change (some 10) (3 ∷ 10 ∷ []) (record { is_invalid = true; validity = none })
            ≡ record { is_invalid = false; validity = none }))
on_change_cases_example =
    on_change_cases (some 10) (3 ∷ 10 ∷ []) (record { is_invalid = true; validity = none })

abbrev form_page : FormPage
form_page = record {
  file_inputs =
      record {
        max_size = some 10;
        input = record { is_invalid = false; validity = none };
        listeners = 0;
      }
      ∷ [];
  auto_submit_forms = record { listeners = 0; submissions = 0 } ∷ [];
}

after_calls-changed_example :
    All
      (λ i. (change_input (11 ∷ []) i).input ≡ on_change i.max_size (11 ∷ []) i.input)
      (after_calls 2 form_page).file_inputs
    × All
        (λ f. (change_form f).submissions ≡ f.submissions + 2)
        (after_calls 2 form_page).auto_submit_forms
after_calls-changed_example = after_calls-changed 1 form_page (11 ∷ []) ((refl, tt), (refl, tt))
