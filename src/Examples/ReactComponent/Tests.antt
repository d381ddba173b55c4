-- ===== src/Examples/ReactComponent/Tests.antt =====
-- A run of the React component.
use sqlpage.Prelude.{ℕ, ◌≡◌, refl, some, Text, codes}
use sqlpage.Examples.ReactComponent.{first_render, button_text, on_click, on_response}

abbrev to_text : ℕ → Text
to_text n = codes "7"

button_text-run :
    button_text to_text (on_response (some 7) 0 (on_click (first_render (codes "Ann"))))
    ≡ codes "You clicked me 7 times!"
unfolding button_text on_response on_click
button_text-run = refl
