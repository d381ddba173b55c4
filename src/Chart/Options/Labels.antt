-- ===== src/Chart/Options/Labels.antt =====
-- The formatters of labels and values in the options of sqlpage/apexcharts.js. `to_text` is the
-- text of a number in a template literal, and `to_fixed` takes the number of digits.
use sqlpage.Prelude.{
  ℕ, Bool, true, false, ◌&&◌, Option, none, some, List, [], ◌++◌, length, get_elem?, ltb,
  if◌then◌else◌, Text, codes,
}
use sqlpage.Chart.Grouping.{XValue, number, text, flag, null}
use sqlpage.Chart.Options.{LabelFormat, series_name, slice_percentage, locale_string, Tooltip}

module _ {N : Type 0} (to_text to_locale_string : N → Text) (to_fixed : ℕ → N → Text) where
  abbrev pub label_text : XValue N → Text
  label_text (number n) = to_text n
  label_text (text s) = s
  label_text (flag true) = codes "true"
  label_text (flag false) = codes "false"
  label_text null = codes "null"

  -- `dataLabels.formatter` on a value of the series at an index, with the names of the series and the
  -- labels of the chart; `none` stands for the exception at a missing series.
  unfoldable pub format_label :
      LabelFormat → (names : List Text) → (labels : List (XValue N)) → N → ℕ → Option Text
  format_label series_name names labels value i = get_elem? names i
  format_label slice_percentage names labels value i = some (
      elim (get_elem? labels i) [ none ↦ codes "undefined" | some x ↦ label_text x ]
      ++ codes ": "
      ++ to_fixed 0 value
      ++ codes "%")
  format_label locale_string names labels value i = some (to_locale_string value)

  module _ {D : Type 0} (is_nan : N → Bool) (date_of : N → D) (at_midnight : D → Bool)
      (to_locale_date to_locale : D → Text) where
    -- `tooltip.y.formatter`: `none` stands for null and undefined, and `at_midnight` tells whether the
    -- hours and the minutes are 0.
    unfoldable pub format_value : Tooltip → Option N → Text
    format_value t none = []
    format_value t (some value) =
        if t.dates
        then (let d = date_of value in if at_midnight d then to_locale_date d else to_locale d)
        else (let str_val = to_locale_string value in
            if ltb 10 (length str_val) && is_nan value then to_fixed 2 value else str_val)
