-- ===== src/Form/Listeners/Again.antt =====
-- What further calls of sqlpage_form change.
use sqlpage.Prelude.{ℕ, zero, suc, ◌+◌, ◌≡◌, refl, ap, ◌∙◌, Option, List, [], ◌∷◌, map, All, arith}
use sqlpage.Form.{FileInput, on_change}
use sqlpage.Form.Listeners.{
  LimitedInput, AutoForm, FormPage, listen_to_input, listen_to_form, sqlpage_form, run_listeners,
  change_input, submit, change_form,
}

-- A page after calls of sqlpage_form.
abbrev pub after_calls : ℕ → FormPage → FormPage
after_calls zero p = p
after_calls (suc n) p = sqlpage_form (after_calls n p)

run_listeners-on_change :
    (max_size : Option ℕ) (sizes : List ℕ) (n : ℕ) (i : FileInput)
    → run_listeners (on_change max_size sizes) (suc n) i ≡ on_change max_size sizes i
unfolding run_listeners
run_listeners-on_change max_size sizes zero i = refl
run_listeners-on_change max_size sizes (suc n) i =
    run_listeners-on_change max_size sizes n (on_change max_size sizes i) ∙ unfold on_change in refl

run_listeners-submit :
    (n : ℕ) (f : AutoForm) → (run_listeners submit n f).submissions ≡ f.submissions + n
unfolding run_listeners submit
run_listeners-submit zero f = omega arith
run_listeners-submit (suc n) f = run_listeners-submit n (submit f) ∙ omega arith

abbrev InputsHave : ℕ → List LimitedInput → Type 0
InputsHave n is = All (λ i. i.listeners ≡ n) is

abbrev FormsHave : ℕ → List AutoForm → Type 0
FormsHave n fs = All (λ f. f.listeners ≡ n) fs

-- Each input and each form of a page has a number of listeners.
abbrev pub HaveListeners : ℕ → FormPage → Type 0
HaveListeners n p = InputsHave n p.file_inputs × FormsHave n p.auto_submit_forms

InputsHave-suc :
    (n : ℕ) (is : List LimitedInput) → InputsHave n is → InputsHave (suc n) (map listen_to_input is)
InputsHave-suc n [] a = tt
InputsHave-suc n (i ∷ is) (h, a) = (ap suc h, InputsHave-suc n is a)

FormsHave-suc :
    (n : ℕ) (fs : List AutoForm) → FormsHave n fs → FormsHave (suc n) (map listen_to_form fs)
FormsHave-suc n [] a = tt
FormsHave-suc n (f ∷ fs) (h, a) = (ap suc h, FormsHave-suc n fs a)

after_calls-HaveListeners :
    (n : ℕ) (p : FormPage) → HaveListeners 0 p → HaveListeners n (after_calls n p)
unfolding sqlpage_form
after_calls-HaveListeners zero p h = h
after_calls-HaveListeners (suc n) p h =
    let (a, b) = after_calls-HaveListeners n p h in (InputsHave-suc n _ a, FormsHave-suc n _ b)

All-change_input :
    (n : ℕ) (sizes : List ℕ) (is : List LimitedInput)
    → InputsHave (suc n) is
    → All (λ i. (change_input sizes i).input ≡ on_change i.max_size sizes i.input) is
unfolding change_input
All-change_input n sizes [] a = tt
All-change_input n sizes (i ∷ is) (h, a) = (
  ap (λ k. run_listeners (on_change i.max_size sizes) k i.input) h
      ∙ run_listeners-on_change i.max_size sizes n i.input,
  All-change_input n sizes is a,
)

All-change_form :
    (n : ℕ) (fs : List AutoForm)
    → FormsHave n fs
    → All (λ f. (change_form f).submissions ≡ f.submissions + n) fs
unfolding change_form
All-change_form n [] a = tt
All-change_form n (f ∷ fs) (h, a) =
    (run_listeners-submit f.listeners f ∙ ap (f.submissions +◌) h, All-change_form n fs a)

-- After one call of sqlpage_form or more on a page with no listeners, a change of a file input does
-- what one listener does, while a change in a form that submits itself calls `submit` as often as
-- sqlpage_form was called.
pub after_calls-changed :
    (n : ℕ) (p : FormPage) (sizes : List ℕ)
    → HaveListeners 0 p
    → All
        (λ i. (change_input sizes i).input ≡ on_change i.max_size sizes i.input)
        (after_calls (suc n) p).file_inputs
      × All
          (λ f. (change_form f).submissions ≡ f.submissions + suc n)
          (after_calls (suc n) p).auto_submit_forms
after_calls-changed n p sizes fresh =
    let (a, b) = after_calls-HaveListeners (suc n) p fresh in
    (All-change_input n sizes _ a, All-change_form (suc n) _ b)
