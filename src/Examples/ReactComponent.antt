-- ===== src/Examples/ReactComponent.antt =====
-- examples/using react and other custom scripts and styles/my_react_component.js: a button that shows
-- how often all users clicked. React is a parameter of the code; here the component's state is explicit.
mod Tests
use sqlpage.Prelude.{
  ℕ, suc, ◌+◌, ◌≡◌, Bool, true, false, Option, none, some, List, [], ◌∷◌, ◌++◌, Text, codes,
  if◌then◌else◌, ◌==◌,
}

-- The state `count` of a component, its property, and the requests that wait for a response.
pub record MyComponent : Type 0 where
  pub greeting_name : Text
  pub count : ℕ
  pub waiting : ℕ

abbrev pub first_render : Text → MyComponent
first_render name = record { greeting_name = name; count = 0; waiting = 0 }

-- The text of the button, with `to_text` for a number in a template literal.
unfoldable pub button_text : (ℕ → Text) → MyComponent → Text
button_text to_text c =
    if c.count == 0
    then codes "Hello, " ++ c.greeting_name ++ codes ". Click me !"
    else codes "You clicked me " ++ to_text c.count ++ codes " times!"

-- A click starts a request.
unfoldable pub on_click : MyComponent → MyComponent
on_click c = record c { waiting = suc c.waiting }

-- A response, and the requests that are left; `none` stands for a rejected fetch, or a body that is no
-- JSON, which leaves the count.
unfoldable pub on_response : Option ℕ → ℕ → MyComponent → MyComponent
on_response none others c = record c { waiting = others }
on_response (some total_clicks) others c = record c { count = total_clicks; waiting = others }

-- The loop over the containers: a root for each, with the properties that its dataset has.
unfoldable pub render_all : List Text → List MyComponent
render_all [] = []
render_all (name ∷ names) = first_render name ∷ render_all names
