-- ===== src/Cards/Tests.antt =====
-- Runs of sqlpage_card of sqlpage/sqlpage.js, and the theorems at concrete inputs.
use sqlpage.Prelude.{◌≤◌, ◌≡◌, refl, Option, none, some, [], ◌∷◌, length, Text, codes}
use sqlpage.Cards.{
  Card, card, no_cards, with_card, Page, sqlpage_card, respond, page_of, called, responded,
  Reachable, at_start, later,
}
use sqlpage.Cards.Balance.{sizes, Reachable-requests, Reachable-loaded}

-- A URL that resolves, unless it is empty.
abbrev embed_url : Text → Option Text
embed_url [] = none
embed_url (c ∷ cs) = some (c ∷ cs)

abbrev inner : Card
inner = card (codes "inner") no_cards

abbrev outer : Card
outer = card (codes "outer") (with_card inner no_cards)

-- The outer card alone on the page, and the page after both responses.
abbrev all_shown : Page Text
all_shown =
    respond embed_url [] inner []
      (respond embed_url [] outer [] (sqlpage_card {U = Text} embed_url (page_of (outer ∷ []))))

all_shown-Reachable : Reachable embed_url (outer ∷ []) all_shown
unfolding respond
all_shown-Reachable =
    later (later (later at_start called) (responded [] outer [] refl)) (responded [] inner [] refl)

requests-all_shown : all_shown.requests ≡ codes "outer" ∷ codes "inner" ∷ []
unfolding respond
requests-all_shown = refl

-- A URL that does not resolve ends the loop: the card behind it waits for the next event.
waiting-broken :
    (sqlpage_card {U = Text} embed_url (page_of (card [] no_cards ∷ inner ∷ []))).waiting
    ≡ inner ∷ []
unfolding sqlpage_card
waiting-broken = refl

Reachable-requests_example : length all_shown.requests ≤ sizes (outer ∷ [])
Reachable-requests_example = Reachable-requests embed_url (outer ∷ []) all_shown-Reachable

Reachable-loaded_example : length all_shown.loaded ≡ sizes (outer ∷ [])
unfolding respond
Reachable-loaded_example =
    Reachable-loaded embed_url (outer ∷ []) all_shown-Reachable refl refl refl refl
