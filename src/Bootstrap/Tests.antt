-- ===== src/Bootstrap/Tests.antt =====
-- A run of init_bootstrap_components of sqlpage/sqlpage.js.
use sqlpage.Prelude.{ℕ, ◌≡◌, refl, true, Option, none, some, List, [], ◌∷◌, Text, codes, text_eq}
use sqlpage.Bootstrap.{BootstrapElement, tooltip, dropdown, carousel, init_bootstrap_components}

abbrev toggle : ℕ → Option Text → BootstrapElement ℕ
toggle el value = record { el = el; toggle = value; ride = none }

abbrev elements : List (BootstrapElement ℕ)
elements =
    toggle 1 (some (codes "dropdown"))
    ∷ record { el = 2; toggle = none; ride = some (codes "carousel") }
    ∷ toggle 3 (some (codes "tooltip"))
    ∷ toggle 4 none
    ∷ []

components-run : init_bootstrap_components true elements ≡ tooltip 3 ∷ dropdown 1 ∷ carousel 2 ∷ []
unfolding init_bootstrap_components text_eq
components-run = refl
