-- ===== src/RichText/LineBreak/Trees.antt =====
-- The shape of the tree that processLineBreak of examples/rich-text-editor/rich_text_editor.js changes,
-- and of a tree with an item or a line of code more.
use sqlpage.Prelude.{
  ℕ, zero, suc, ◌≡◌, refl, ap, Bool, true, false, Option, none, some, List, [], ◌∷◌, ◌++◌, map,
  Text, last?, get_elem?, arith, All, All-append, ◌<◌, get_elem?-append_left, get_elem?-append-cons,
}
use sqlpage.RichText.Delta.{active_number}
use sqlpage.RichText.Mdast.{Node, Nodes, list, code, ◌+++◌, single}
use sqlpage.RichText.Grammar.{
  IsItem, IsItems-+++, +++-single-ne-nil, IsBlock, kind, Alternates-snoc_none, Alternates-snoc_some,
  IsDocument,
}
use sqlpage.RichText.LineBreak.{is_list_of, push_item, append_code}
use sqlpage.RichText.LineBreak.Items.{get_elem?-push_item, ItemBreak, skipped, extended, fresh}

-- `currentList` is `null`, or names a list of the tree.
abbrev pub IsCurrent : List Node → Option ℕ → Type 0
IsCurrent cs none = Unit
IsCurrent cs (some i) = (o : Bool) × (ns : Nodes) × (get_elem? cs i ≡ some (list o ns))

pub record IsTree (cs : List Node) (current : Option ℕ) : Type 0 where
  pub document : IsDocument cs
  pub alias : IsCurrent cs current

pub map-snoc : (cs : List Node) (n : Node) → map kind (cs ++ n ∷ []) ≡ map kind cs ++ kind n ∷ []
map-snoc [] n = refl
map-snoc (c ∷ cs) n = ap (kind c ∷◌) (map-snoc cs n)

pub last?-map :
    (cs : List Node) {o : Bool}
    → last? (map kind cs) ≡ some (some o)
    → is_list_of o (last? cs) ≡ true
unfolding is_list_of
last?-map [] h = cc
last?-map (list p ns ∷ []) {o} h = ground arith
last?-map (c ∷ []) h = cc
last?-map (c ∷ d ∷ cs) h = last?-map (d ∷ cs) h

pub IsCurrent-append :
    (cs : List Node) (n : Node) (current : Option ℕ)
    → IsCurrent cs current
    → IsCurrent (cs ++ n ∷ []) current
IsCurrent-append cs n none h = tt
IsCurrent-append cs n (some i) (o, ns, e) = (o, ns, get_elem?-append_left cs (n ∷ []) i e)

-- A block that is no list is added at the end.
pub IsDocument-snoc :
    {cs : List Node} (n : Node)
    → kind n ≡ none
    → IsBlock n
    → IsDocument cs
    → IsDocument (cs ++ n ∷ [])
IsDocument-snoc {cs} n k b d = record {
  blocks = All-append IsBlock cs (n ∷ []) d.blocks (b, tt);
  lists = rw (map-snoc cs n, k) (Alternates-snoc_none (map kind cs) d.lists);
}

pub IsDocument-snoc_list :
    {cs : List Node} (o : Bool) (item : Node)
    → IsItem item
    → is_list_of o (last? cs) ≡ false
    → IsDocument cs
    → IsDocument (cs ++ list o (single item) ∷ [])
IsDocument-snoc_list {cs} o item b absent d = record {
  blocks = All-append IsBlock cs (list o (single item) ∷ []) d.blocks (((b, tt), λ e. cc), tt);
  lists = rw map-snoc (Alternates-snoc_some (map kind cs) o (λ e. cc (last?-map cs e)) d.lists);
}

pub kinds-push_item :
    (cs : List Node) (i : ℕ) (item : Node) → map kind (push_item cs i item) ≡ map kind cs
unfolding push_item
kinds-push_item [] i item = refl
kinds-push_item (list o ns ∷ cs) zero item = refl
kinds-push_item (c ∷ cs) zero item = refl
kinds-push_item (c ∷ cs) (suc i) item = ap (kind c ∷◌) (kinds-push_item cs i item)

pub blocks-push_item :
    (cs : List Node) (i : ℕ) (item : Node)
    → IsItem item
    → All IsBlock cs
    → All IsBlock (push_item cs i item)
unfolding push_item
blocks-push_item [] i item p h = tt
blocks-push_item (list o ns ∷ cs) zero item p ((q, ne), h) =
    ((IsItems-+++ ns (single item) q (p, tt), +++-single-ne-nil ns item), h)
blocks-push_item (c ∷ cs) zero item p h = h
blocks-push_item (c ∷ cs) (suc i) item p (q, h) = (q, blocks-push_item cs i item p h)

pub ItemBreak-IsTree :
    {o : Bool} {cs : List Node} {known : Nodes → Bool} {item : Node} {r : List Node × Option ℕ}
    → ItemBreak o cs known item r
    → IsItem item
    → IsDocument cs
    → IsTree r.0 r.1
ItemBreak-IsTree {o} (skipped ns i at _ e) b d = rw e (record { document = d; alias = (o, ns, at) })
ItemBreak-IsTree {o} {cs} {item} (extended ns i at _ e) b d = rw e (record {
  document = record {
    blocks = blocks-push_item cs i item b d.blocks;
    lists = rw kinds-push_item d.lists;
  };
  alias = (o, (ns +++ single item), get_elem?-push_item cs i item at);
})
ItemBreak-IsTree {o} {cs} {item} (fresh absent e) b d = rw e (record {
  document = IsDocument-snoc_list o item b absent d;
  alias = (o, single item, get_elem?-append-cons cs [] (list o (single item)));
})

pub kinds-append_code :
    (cs : List Node) (i : ℕ) (line : Text) → map kind (append_code cs i line) ≡ map kind cs
unfolding append_code
kinds-append_code [] i line = refl
kinds-append_code (code s l ∷ cs) zero line = refl
kinds-append_code (c ∷ cs) zero line = refl
kinds-append_code (c ∷ cs) (suc i) line = ap (kind c ∷◌) (kinds-append_code cs i line)

pub blocks-append_code :
    (cs : List Node) (i : ℕ) (line : Text) → All IsBlock cs → All IsBlock (append_code cs i line)
unfolding append_code
blocks-append_code [] i line h = tt
blocks-append_code (code s l ∷ cs) zero line (p, h) = (tt, h)
blocks-append_code (c ∷ cs) zero line h = h
blocks-append_code (c ∷ cs) (suc i) line (p, h) = (p, blocks-append_code cs i line h)

pub get_elem?-append_code :
    (cs : List Node) (i j : ℕ) (line : Text) {o : Bool} {ns : Nodes}
    → get_elem? cs j ≡ some (list o ns)
    → get_elem? (append_code cs i line) j ≡ some (list o ns)
unfolding append_code
get_elem?-append_code [] i j line e = cc
get_elem?-append_code (code s l ∷ cs) zero zero line e = cc
get_elem?-append_code (code s l ∷ cs) zero (suc j) line e = e
get_elem?-append_code (c ∷ cs) zero j line e = e
get_elem?-append_code (c ∷ cs) (suc i) zero line e = e
get_elem?-append_code (c ∷ cs) (suc i) (suc j) line e = get_elem?-append_code cs i j line e

pub active_number-pos : (d : Option ℕ) (n : ℕ) → active_number d ≡ some n → 0 < n
active_number-pos none n e = cc
active_number-pos (some zero) n e = cc
active_number-pos (some (suc m)) n e = ground arith
