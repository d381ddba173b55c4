-- ===== src/Select/Tests.antt =====
-- Runs of the function of sqlpage_load_options_source of sqlpage/tomselect.js, and the theorems at
-- concrete inputs.
use sqlpage.Prelude.{ℕ, ◌≡◌, refl, ◌⊎◌, Bool, true, not, some, ◌==◌, Text, codes, text_eq}
use sqlpage.Select.{
  Json, number, string, array, object, Items, empty, item, no_field, field, Response, called_back,
  rejected, err, has_option_keys, keys_of, load_options,
}
use sqlpage.Select.Outcomes.{IsGood, load_options-IsGood, load_options-Honest}

abbrev truthy : ℕ → Bool
truthy n = not (n == 0)

abbrev stringify : Json ℕ → Text
stringify j = codes "?"

-- The keys of the second object are wrong.
abbrev results : Items ℕ
results =
    item
      (object
        (field (codes "value") (number 1) (field (codes "label") (string (codes "one")) no_field)))
      (item (object (field (codes "name") (string (codes "two")) no_field)) empty)

abbrev response : Response ℕ
response = record {
  ok = true;
  status = codes "200";
  status_text = codes "OK";
  content_type = some (codes "application/json");
  body = some (array results);
}

abbrev error_results : Items ℕ
error_results = item (object (field (codes "error") (string (codes "no")) no_field)) empty

load_options-error :
    load_options truthy stringify
      (codes "o.sql")
      (some (record response { body = some (array error_results) }))
    ≡ err (string (codes "no"))
unfolding load_options text_eq
load_options-error = refl

load_options-IsGood_example :
    load_options truthy stringify (codes "o.sql") (some response) ≡ called_back results
load_options-IsGood_example =
    load_options-IsGood truthy stringify (codes "o.sql") response results refl
      (unfold text_eq in refl) refl (unfold has_option_keys keys_of text_eq in refl)

load_options-Honest_example :
    (load_options truthy stringify (codes "o.sql") (some response) ≡ rejected)
    ⊎ ((js : Items ℕ) × (load_options truthy stringify (codes "o.sql") (some response)
          ≡ called_back js)
        × (((label : Json ℕ) × (called_back js ≡ err label))
            ⊎ ((resp : Response ℕ) × (some response ≡ some resp) × IsGood resp js)))
load_options-Honest_example = load_options-Honest truthy stringify (codes "o.sql") (some response)
