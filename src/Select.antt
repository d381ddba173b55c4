-- ===== src/Select.antt =====
-- The function that sqlpage_load_options_source of sqlpage/tomselect.js gives to Tom Select. The
-- fetch is a parameter: its response, or `none` when it is rejected. Numbers are of any type with a
-- test for those that count as true; JSON.stringify is a parameter. The fields
-- of an object are those after parsing, so no key occurs twice.
pub mod Dropdown
pub mod Keys
pub mod Outcomes
mod Tests
use sqlpage.Prelude.{
  ℕ, Bool, true, false, not, ◌&&◌, ◌||◌, Option, none, some, List, [], ◌∷◌, ◌++◌, length, any,
  if◌then◌else◌, ltb, ◌==◌, Text, codes, text_eq, nonempty,
}

mutual
  pub data Json (N : Type 0) : Type 0 where
    null : Json N
    boolean : Bool → Json N
    number : N → Json N
    string : Text → Json N
    array : Items N → Json N
    object : Fields N → Json N

  pub data Items (N : Type 0) : Type 0 where
    empty : Items N
    item : Json N → Items N → Items N

  pub data Fields (N : Type 0) : Type 0 where
    no_field : Fields N
    field : Text → Json N → Fields N → Fields N

-- `body` is `none` when it is not JSON.
pub record Response (N : Type 0) : Type 0 where
  pub ok : Bool
  pub status : Text
  pub status_text : Text
  pub content_type : Option Text
  pub body : Option (Json N)

-- What becomes of a call: a call of the callback, or a rejected promise.
pub data Outcome (N : Type 0) : Type 0 where
  called_back : Items N → Outcome N
  rejected : Outcome N

module _ {N : Type 0} where
  -- `Object.keys`
  unfoldable pub keys_of : Fields N → List Text
  keys_of no_field = []
  keys_of (field k v fs) = k ∷ keys_of fs

  -- The value at a key, where there is one.
  unfoldable pub field_at : Text → Fields N → Option (Json N)
  field_at k no_field = none
  field_at k (field l v fs) = if text_eq l k then some v else field_at k fs

  -- `callback([{ label, value: "" }])`
  unfoldable pub err : Json N → Outcome N
  err label = called_back (
      item (object (field (codes "label") label (field (codes "value") (string []) no_field)))
        empty)

  -- Whether the keys are two, `label` and `value`. The keys of a string or an array are indices, and
  -- numbers and booleans have none. `none` stands for the exception at null.
  unfoldable pub has_option_keys : Json N → Option Bool
  unfolding keys_of
  has_option_keys null = none
  has_option_keys (object fs) = some (
      (length (keys_of fs) == 2)
      && (any (λ k. text_eq k (codes "label")) (keys_of fs)
          && any (λ k. text_eq k (codes "value")) (keys_of fs)))
  has_option_keys (boolean b) = some false
  has_option_keys (number n) = some false
  has_option_keys (string s) = some false
  has_option_keys (array js) = some false

module _ {N : Type 0} (truthy : N → Bool) where
  unfoldable pub is_truthy : Json N → Bool
  is_truthy null = false
  is_truthy (boolean b) = b
  is_truthy (number n) = truthy n
  is_truthy (string s) = nonempty s
  is_truthy (array js) = true
  is_truthy (object fs) = true

  -- `results[0].error`, if it counts as true: only an object has one.
  unfoldable pub if_truthy : Option (Json N) → Option (Json N)
  unfolding is_truthy
  if_truthy none = none
  if_truthy (some j) = if is_truthy j then some j else none

  unfoldable pub error_of : Json N → Option (Json N)
  unfolding if_truthy field_at
  error_of (object fs) = if_truthy (field_at (codes "error") fs)
  error_of null = none
  error_of (boolean b) = none
  error_of (number n) = none
  error_of (string s) = none
  error_of (array js) = none

-- `resp_type` in the message.
abbrev pub type_text : Option Text → Text
type_text none = codes "null"
type_text (some t) = t

abbrev pub is_json : Option Text → Bool
is_json none = false
is_json (some t) = text_eq t (codes "application/json")

module _ {N : Type 0} (truthy : N → Bool) (stringify : Json N → Text) (source : Text) where
  -- The test of the first object.
  unfoldable pub check_first : Json N → Items N → Option Bool → Outcome N
  unfolding err
  check_first first results none = rejected
  check_first first results (some true) = called_back results
  check_first first results (some false) = err (
      string (
        codes "Invalid response from \""
        ++ source
        ++ codes "\". The response must be an array of objects with a 'label' and a 'value' "
        ++ codes "property. Got: "
        ++ stringify first
        ++ codes " in the first object instead."))

  unfoldable pub check_only : Json N → Option (Json N) → Outcome N
  unfolding check_first has_option_keys err
  check_only first none = check_first first (item first empty) (has_option_keys first)
  check_only first (some error) = err error

  -- `results`: a single one may be an error.
  unfoldable pub check_results : Items N → Outcome N
  unfolding check_only error_of check_first has_option_keys
  check_results empty = called_back empty
  check_results (item null empty) = rejected
  check_results (item first empty) = check_only first (error_of truthy first)
  check_results (item first (item next rest)) =
      check_first first (item first (item next rest)) (has_option_keys first)

  unfoldable pub check_body : Option (Json N) → Outcome N
  unfolding check_results err
  check_body none = rejected
  check_body (some (array results)) = check_results results
  check_body (some _) = err (
      string (
        codes "Invalid response from \""
        ++ source
        ++ codes "\". The response must be an array of objects with a 'label' and a 'value' "
        ++ codes "property."))

  unfoldable pub load_options : Option (Response N) → Outcome N
  unfolding check_body err
  load_options none = rejected
  load_options (some resp) =
      if not resp.ok
      then err (
          string (
            codes "Error loading options from \""
            ++ source
            ++ codes "\": "
            ++ resp.status
            ++ codes " "
            ++ resp.status_text))
      else if not (is_json resp.content_type)
      then err (
          string (
            codes "Invalid response type: "
            ++ type_text resp.content_type
            ++ codes " from \""
            ++ source
            ++ codes "\". Make sure to use the 'json' component in the SQL file that generates the "
            ++ codes "options."))
      else check_body resp.body
