-- ===== src/Cards/Balance.antt =====
-- How many cards there are, and how many requests sqlpage_card makes.
use sqlpage.Prelude.{
  ℕ, suc, ◌+◌, ◌≤◌, ◌≡◌, refl, ap, sym, Option, none, some, List, [], ◌∷◌, ◌++◌, length,
  length-append, Text, arith,
}
use sqlpage.Cards.{
  Card, card, Response, no_cards, with_card, embed_of, response_of, cards_of, Page, fetch_card,
  fetch_cards, sqlpage_card, respond, fail, Step, called, responded, refused, Reachable, at_start,
  later,
}

-- A card and all the cards that its response holds.
mutual
  pub size : Card → ℕ
  size (card embed r) = suc (size_response r)

  pub size_response : Response → ℕ
  size_response no_cards = 0
  size_response (with_card c r) = size c + size_response r

abbrev pub sizes : List Card → ℕ
sizes [] = 0
sizes (c ∷ cs) = size c + sizes cs

sizes-append : (cs ds : List Card) → sizes (cs ++ ds) ≡ sizes cs + sizes ds
sizes-append [] ds = omega arith
sizes-append (c ∷ cs) ds = omega (arith, sizes-append cs ds)

sizes-cards_of : (r : Response) → sizes (cards_of r) ≡ size_response r
unfolding size_response
sizes-cards_of no_cards = refl
sizes-cards_of (with_card c r) = ap (size c +◌) (sizes-cards_of r)

size_lem : (c : Card) → size c ≡ suc (sizes (cards_of (response_of c)))
unfolding size
size_lem (card embed r) = ap suc (sym (sizes-cards_of r))

length-le-sizes : (cs : List Card) → length cs ≤ sizes cs
length-le-sizes [] = omega arith
length-le-sizes (c ∷ cs) = omega (arith, size_lem c, length-le-sizes cs)

module _ {U : Type 0} where
  -- The cards of a page, each with those that its response holds unless that is shown already.
  abbrev pub total : Page U → ℕ
  total p = sizes p.waiting + sizes p.fetching + length p.loaded + sizes p.failed + sizes p.broken

  -- The requests that were answered or are on their way.
  abbrev pub requested : Page U → ℕ
  requested p = length p.fetching + length p.loaded + length p.failed

  abbrev IsBalanced : ℕ → Page U → Type 0
  IsBalanced n p = (total p ≡ n) × (length p.requests ≡ requested p)

  module _ (embed_url : Text → Option U) where
    fetch_card-IsBalanced :
        (next : Page U → Page U) (n : ℕ) (rest : List Card) (p : Page U) (c : Card) (o : Option U)
        → ((q : Page U)
            → q.waiting ≡ []
            → (sizes rest + total q ≡ n) × (length q.requests ≡ requested q)
            → IsBalanced n (next q))
        → p.waiting ≡ []
        → (size c + sizes rest + total p ≡ n) × (length p.requests ≡ requested p)
        → IsBalanced n (fetch_card embed_url next rest p c o)
    unfolding fetch_card
    fetch_card-IsBalanced next n rest p c none further w (t, r) =
        (omega (arith, sizes-append p.broken (c ∷ []), ap sizes w), r)
    fetch_card-IsBalanced next n rest p c (some url) further w (t, r) =
        further (record p { fetching = p.fetching ++ c ∷ []; requests = p.requests ++ url ∷ [] }) w
          (
            omega (arith, sizes-append p.fetching (c ∷ [])),
            omega (arith, length-append p.fetching (c ∷ []), length-append p.requests (url ∷ [])),
          )

    fetch_cards-IsBalanced :
        (n : ℕ) (cs : List Card) (p : Page U)
        → p.waiting ≡ []
        → (sizes cs + total p ≡ n) × (length p.requests ≡ requested p)
        → IsBalanced n (fetch_cards embed_url cs p)
    unfolding fetch_cards
    fetch_cards-IsBalanced n [] p w (t, r) = (omega arith, r)
    fetch_cards-IsBalanced n (c ∷ cs) p w (t, r) =
        fetch_card-IsBalanced (λ q. fetch_cards embed_url cs q) n cs p c (embed_url (embed_of c))
          (λ q. fetch_cards-IsBalanced n cs q) w (t, r)

    sqlpage_card-IsBalanced :
        (n : ℕ) (p : Page U) → IsBalanced n p → IsBalanced n (sqlpage_card embed_url p)
    unfolding sqlpage_card
    sqlpage_card-IsBalanced n p (t, r) =
        fetch_cards-IsBalanced n p.waiting (record p { waiting = [] }) refl (omega arith, r)

    module _ (n : ℕ) (p : Page U) (before : List Card) (c : Card) (after : List Card)
        (at : p.fetching ≡ before ++ c ∷ after) (balanced : IsBalanced n p) where
      sizes-fetching : sizes p.fetching ≡ sizes (before ++ after) + size c
      sizes-fetching =
          omega (arith, ap sizes at, sizes-append before (c ∷ after), sizes-append before after)

      length-fetching : length p.fetching ≡ suc (length (before ++ after))
      length-fetching =
          omega (arith, ap length at, length-append before (c ∷ after), length-append before after)

      respond-IsBalanced : IsBalanced n (respond embed_url before c after p)
      unfolding respond
      respond-IsBalanced =
          sqlpage_card-IsBalanced n
            (record p {
              fetching = before ++ after;
              loaded = p.loaded ++ c ∷ [];
              waiting = p.waiting ++ cards_of (response_of c);
            })
            (
              omega (
                arith,
                balanced.0,
                sizes-fetching,
                size_lem c,
                length-append p.loaded (c ∷ []),
                sizes-append p.waiting (cards_of (response_of c)),
              ),
              omega (arith, balanced.1, length-fetching, length-append p.loaded (c ∷ [])),
            )

      fail-IsBalanced : IsBalanced n (fail before c after p)
      fail-IsBalanced = (
        omega (arith, balanced.0, sizes-fetching, sizes-append p.failed (c ∷ [])),
        omega (arith, balanced.1, length-fetching, length-append p.failed (c ∷ [])),
      )

    Step-IsBalanced : {p q : Page U} (n : ℕ) → IsBalanced n p → Step embed_url p q → IsBalanced n q
    Step-IsBalanced {p} n b called = sqlpage_card-IsBalanced n p b
    Step-IsBalanced {p} n b (responded before c after at) =
        respond-IsBalanced n p before c after at b
    Step-IsBalanced {p} n b (refused before c after at) = fail-IsBalanced n p before c after at b

    Reachable-IsBalanced :
        (cs : List Card) {p : Page U} → Reachable embed_url cs p → IsBalanced (sizes cs) p
    Reachable-IsBalanced cs at_start = (omega arith, refl)
    Reachable-IsBalanced cs (later r s) = Step-IsBalanced (sizes cs) (Reachable-IsBalanced cs r) s

    -- On every page that is reached, at most as many requests were made as there are cards, counting
    -- those that the responses hold.
    pub Reachable-requests :
        (cs : List Card) {p : Page U} → Reachable embed_url cs p → length p.requests ≤ sizes cs
    Reachable-requests cs {p} r =
        omega
          (arith, Reachable-IsBalanced cs r, length-le-sizes p.fetching, length-le-sizes p.failed)

    -- On a page that is reached, with no card waiting or on its way and no failure, every card is
    -- shown: the cards that show their contents are as many as there are, counting those that the
    -- responses hold.
    pub Reachable-loaded :
        (cs : List Card) {p : Page U}
        → Reachable embed_url cs p
        → p.waiting ≡ []
        → p.fetching ≡ []
        → p.failed ≡ []
        → p.broken ≡ []
        → length p.loaded ≡ sizes cs
    Reachable-loaded cs r w f d b =
        omega (arith, Reachable-IsBalanced cs r, ap sizes w, ap sizes f, ap sizes d, ap sizes b)
