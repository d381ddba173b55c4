-- ===== src/Form.antt =====
-- The size check of file inputs in sqlpage_form of sqlpage/sqlpage.js.
pub mod Listeners
mod Tests
use sqlpage.Prelude.{
  ℕ, suc, ◌≤◌, ◌<◌, ◌≡◌, ◌∙◌, ◌⊎◌, All, get_elem?, arith, refl, Bool, true, false, Option, none,
  some, List, [], ◌∷◌, any, ltb, if◌then◌else◌, Bool-cases, inl, inr,
}

-- The class "is-invalid" and the message of setCustomValidity, by the limit that it names: `none`
-- stands for the empty message.
pub record FileInput : Type 0 where
  pub is_invalid : Bool
  pub validity : Option (Option ℕ)

-- `size > max_size`, false if the limit is NaN, for which `none` stands.
unfoldable pub exceeds : Option ℕ → ℕ → Bool
exceeds none size = false
exceeds (some max_size) size = ltb max_size size

unfoldable pub check_files : Option ℕ → List ℕ → FileInput → FileInput
unfolding exceeds
check_files max_size [] input = input
check_files max_size (size ∷ sizes) input =
    if exceeds max_size size
    then record { is_invalid = true; validity = some max_size }
    else check_files max_size sizes input

-- The handler of the input's change event.
unfoldable pub on_change : Option ℕ → List ℕ → FileInput → FileInput
unfolding check_files
on_change max_size sizes input =
    check_files max_size sizes (record { is_invalid = false; validity = none })

check_files-any :
    (max_size : Option ℕ) (sizes : List ℕ) (input : FileInput)
    → check_files max_size sizes input ≡ (
        if any (exceeds max_size) sizes
        then record { is_invalid = true; validity = some max_size }
        else input)
unfolding check_files
check_files-any max_size [] input = refl
check_files-any max_size (size ∷ sizes) input = elim (Bool-cases (exceeds max_size size)) [
  | inl a ↦ rw a refl
  | inr b ↦ rw b (check_files-any max_size sizes input)
]

on_change-any :
    (max_size : Option ℕ) (sizes : List ℕ) (input : FileInput)
    → on_change max_size sizes input ≡ (
        if any (exceeds max_size) sizes
        then record { is_invalid = true; validity = some max_size }
        else record { is_invalid = false; validity = none })
unfolding on_change
on_change-any max_size sizes input = check_files-any max_size sizes _

-- A size is within a limit, or beyond it; no size is beyond a limit that is NaN.
abbrev pub Within : Option ℕ → ℕ → Type 0
Within none size = Unit
Within (some max_size) size = size ≤ max_size

abbrev pub Beyond : Option ℕ → ℕ → Type 0
Beyond none size = ⊥
Beyond (some max_size) size = max_size < size

exceeds_cases :
    (max_size : Option ℕ) (size : ℕ)
    → ((exceeds max_size size ≡ true) × Beyond max_size size)
      ⊎ ((exceeds max_size size ≡ false) × Within max_size size)
unfolding exceeds
exceeds_cases none size = inr (refl, tt)
exceeds_cases (some m) size = elim (Bool-cases (ltb m size)) [
  | inl a ↦ inl (a, ground arith)
  | inr b ↦ inr (b, ground arith)
]

any-exceeds_cases :
    (max_size : Option ℕ) (sizes : List ℕ)
    → ((any (exceeds max_size) sizes ≡ true)
        × ((i : ℕ) × (size : ℕ) × (get_elem? sizes i ≡ some size) × Beyond max_size size))
      ⊎ ((any (exceeds max_size) sizes ≡ false) × All (Within max_size) sizes)
any-exceeds_cases max_size [] = inr (refl, tt)
any-exceeds_cases max_size (size ∷ sizes) = elim (exceeds_cases max_size size) [
  | inl (a, beyond) ↦ inl (rw a refl, (0, size, refl, beyond))
  | inr (a, within) ↦ elim (any-exceeds_cases max_size sizes) [
    | inl (b, (i, large, at, beyond)) ↦ inl (rw (a, b) refl, (suc i, large, at, beyond))
    | inr (b, all) ↦ inr (rw (a, b) refl, (within, all))
  ]
]

-- After a change, either one of the files is larger than the limit, and the input is invalid with the
-- message for the limit, or all files are at most as large as the limit, and it is valid with no
-- message, whatever it was before. No file is larger than a limit that is NaN.
pub on_change_cases :
    (max_size : Option ℕ) (sizes : List ℕ) (input : FileInput)
    → (((i : ℕ) × (size : ℕ) × (get_elem? sizes i ≡ some size) × Beyond max_size size)
        × (on_change max_size sizes input ≡ record { is_invalid = true; validity = some max_size }))
      ⊎ (All (Within max_size) sizes
          × (on_change max_size sizes input ≡ record { is_invalid = false; validity = none }))
on_change_cases max_size sizes input = elim (any-exceeds_cases max_size sizes) [
  | inl (a, large) ↦ inl (large, on_change-any max_size sizes input ∙ rw a refl)
  | inr (a, all) ↦ inr (all, on_change-any max_size sizes input ∙ rw a refl)
]
