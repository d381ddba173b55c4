-- ===== src/Cards.antt =====
-- sqlpage_card of sqlpage/sqlpage.js: cards whose contents are fetched, and hold cards in turn. A card
-- is given with the cards of the response to its request, so that the responses are a finite tree.
-- `embed_url` is the URL of the request, which is `none` where `new URL` throws.
pub mod Balance
mod Tests
use sqlpage.Prelude.{ℕ, suc, ◌+◌, Option, none, some, List, [], ◌∷◌, ◌++◌, Text, ◌≡◌}

mutual
  pub data Card : Type 0 where
    card : (embed : Text) → Response → Card

  -- The cards of a response, in the order of the fragment.
  pub data Response : Type 0 where
    no_cards : Response
    with_card : Card → Response → Response

abbrev pub embed_of : Card → Text
embed_of (card embed response) = embed

abbrev pub response_of : Card → Response
response_of (card embed response) = response

abbrev pub cards_of : Response → List Card
cards_of no_cards = []
cards_of (with_card c r) = c ∷ cards_of r

-- The cards with `data-pre-init=card`, those whose request is on its way, those that show their
-- contents, those whose request failed, those whose URL does not resolve, and all requests.
pub record Page (U : Type 0) : Type 0 where
  pub waiting : List Card
  pub fetching : List Card
  pub loaded : List Card
  pub failed : List Card
  pub broken : List Card
  pub requests : List U

-- The page with the cards `cs`, before any event.
abbrev pub page_of : {U : Type 0} → List Card → Page U
page_of cs = record {
  waiting = cs;
  fetching = [];
  loaded = [];
  failed = [];
  broken = [];
  requests = [];
}

-- The request of the card between two parts of those on their way fails.
abbrev pub fail : {U : Type 0} → List Card → Card → List Card → Page U → Page U
fail before c after p = record p { fetching = before ++ after; failed = p.failed ++ c ∷ [] }

module _ {U : Type 0} (embed_url : Text → Option U) where
  -- One card of the loop, and the rest of the loop, which an exception ends.
  unfoldable pub fetch_card : (Page U → Page U) → List Card → Page U → Card → Option U → Page U
  fetch_card next rest p c none = record p { waiting = rest; broken = p.broken ++ c ∷ [] }
  fetch_card next rest p c (some url) =
      next (record p { fetching = p.fetching ++ c ∷ []; requests = p.requests ++ url ∷ [] })

  unfoldable pub fetch_cards : List Card → Page U → Page U
  unfolding fetch_card
  fetch_cards [] p = p
  fetch_cards (c ∷ cs) p = fetch_card (λ q. fetch_cards cs q) cs p c (embed_url (embed_of c))

  unfoldable pub sqlpage_card : Page U → Page U
  unfolding fetch_cards
  sqlpage_card p = fetch_cards p.waiting (record p { waiting = [] })

  -- The response of the card between two parts of the requests on their way: its contents are put
  -- in place, and the event "fragment-loaded" calls sqlpage_card.
  unfoldable pub respond : List Card → Card → List Card → Page U → Page U
  unfolding sqlpage_card
  respond before c after p = sqlpage_card (record p {
    fetching = before ++ after;
    loaded = p.loaded ++ c ∷ [];
    waiting = p.waiting ++ cards_of (response_of c);
  })

  -- What can happen: an event that calls sqlpage_card, and the end of a request.
  pub data Step (p : Page U) : Page U → Type 0 where
    called : Step p (sqlpage_card p)
    responded :
        (before : List Card) (c : Card) (after : List Card)
        → p.fetching ≡ before ++ c ∷ after
        → Step p (respond before c after p)
    refused :
        (before : List Card) (c : Card) (after : List Card)
        → p.fetching ≡ before ++ c ∷ after
        → Step p (fail before c after p)

  -- The pages that a page with the cards `cs` becomes.
  pub data Reachable (cs : List Card) : Page U → Type 0 where
    at_start : Reachable cs (page_of cs)
    later : {p q : Page U} → Reachable cs p → Step p q → Reachable cs q
