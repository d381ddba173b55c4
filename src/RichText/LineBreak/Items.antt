-- ===== src/RichText/LineBreak/Items.antt =====
-- How ensureList and the pushes onto `list.children` change the tree, case by case.
use native.Mathlib.Numerals.{sub-one}
use sqlpage.Prelude.{
  ℕ, suc, zero, ◌-◌, Bool, true, false, Option, none, some, List, [], ◌∷◌, ◌++◌, ◌≡◌, refl, ap, inl,
  inr, length, get_elem?, last?, if◌then◌else◌, arith, Text, Bool-cases,
}
use sqlpage.RichText.Mdast.{◌+++◌, Node, Nodes, list, list_item, paragraph, nil, single}
use sqlpage.RichText.LineBreak.{
  is_list_of, find_or_push_list, list_index, is_ordered, ensure_list, push_item, items_at, any_node,
  holds_only, process_list_line_break, push_empty_item, empty_item,
}

-- The list that a line with this `ordered` goes to, and the tree that holds it: a list that is in
-- the tree already, or a new one at the end, behind no list of the same kind.
data Ensured (o : Bool) (cs : List Node) (r : List Node × ℕ) : Type 0 where
  known : (ns : Nodes) (i : ℕ) → get_elem? cs i ≡ some (list o ns) → r ≡ (cs, i) → Ensured o cs r
  pushed : is_list_of o (last? cs) ≡ false → r ≡ (cs ++ list o nil ∷ [], length cs) → Ensured o cs r

is_list_of-true :
    (o : Bool) (n : Option Node) → is_list_of o n ≡ true → (ns : Nodes) × (n ≡ some (list o ns))
unfolding is_list_of
is_list_of-true o (some (list p ns)) h = (ns, ground arith)
is_list_of-true o _ h = cc

get_elem?-last :
    (cs : List Node) {n : Node} → last? cs ≡ some n → get_elem? cs (length cs - 1) ≡ some n
get_elem?-last [] h = cc
get_elem?-last (c ∷ []) h = h
get_elem?-last (c ∷ d ∷ cs) h = rw sub-one (go d cs (get_elem?-last (d ∷ cs) h))
  where
    go :
        (d : Node) (cs : List Node) {n : Node}
        → get_elem? (d ∷ cs) (length (d ∷ cs) - 1) ≡ some n
        → get_elem? (d ∷ cs) (length cs) ≡ some n
    go d cs k = rw sub-one at k

find_or_push_list-Ensured : (cs : List Node) (o : Bool) → Ensured o cs (find_or_push_list cs o)
unfolding find_or_push_list
find_or_push_list-Ensured cs o = elim (Bool-cases (is_list_of o (last? cs))) [
  | inl old ↦
      let (ns, e) = is_list_of-true o (last? cs) old in
      known ns (length cs - 1) (get_elem?-last cs e) (rw old)
  | inr new ↦ pushed new (rw new)
]

list_index-Ensured :
    (cs : List Node) (o : Bool) (current : Option ℕ) → Ensured o cs (list_index cs o current)
unfolding list_index
list_index-Ensured cs o none = find_or_push_list-Ensured cs o
list_index-Ensured cs o (some i) = elim (Bool-cases (is_list_of o (get_elem? cs i))) [
  | inl old ↦ let (ns, e) = is_list_of-true o (get_elem? cs i) old in known ns i e (rw old)
  | inr new ↦ rw new (find_or_push_list-Ensured cs o)
]

push_item-new :
    (cs : List Node) (o : Bool) (item : Node)
    → push_item (cs ++ list o nil ∷ []) (length cs) item ≡ cs ++ list o (single item) ∷ []
unfolding push_item
push_item-new [] o item = refl
push_item-new (list p ns ∷ cs) o item = ap (list p ns ∷◌) (push_item-new cs o item)
push_item-new (c ∷ cs) o item = ap (c ∷◌) (push_item-new cs o item)

items_at-new : (cs : List Node) (o : Bool) → items_at (cs ++ list o nil ∷ []) (length cs) ≡ nil
unfolding items_at
items_at-new [] o = refl
items_at-new (list p ns ∷ cs) o = items_at-new cs o
items_at-new (c ∷ cs) o = items_at-new cs o

pub items_at-known :
    (cs : List Node) (i : ℕ) {o : Bool} {ns : Nodes}
    → get_elem? cs i ≡ some (list o ns)
    → items_at cs i ≡ ns
unfolding items_at
items_at-known [] i h = cc
items_at-known (list p ms ∷ cs) zero h = cc
items_at-known (c ∷ cs) zero h = cc
items_at-known (list p ms ∷ cs) (suc i) h = items_at-known cs i h
items_at-known (c ∷ cs) (suc i) h = items_at-known cs i h

pub get_elem?-push_item :
    (cs : List Node) (i : ℕ) (item : Node) {o : Bool} {ns : Nodes}
    → get_elem? cs i ≡ some (list o ns)
    → get_elem? (push_item cs i item) i ≡ some (list o (ns +++ single item))
unfolding push_item
get_elem?-push_item [] i item e = cc
get_elem?-push_item (list p ms ∷ cs) zero item e = cc
get_elem?-push_item (c ∷ cs) zero item e = cc
get_elem?-push_item (c ∷ cs) (suc i) item e = get_elem?-push_item cs i item e

-- What a list line does: the item stands in the list already, or is pushed onto a list of the tree,
-- or onto a new list at the end.
pub data ItemBreak (o : Bool) (cs : List Node) (known : Nodes → Bool) (item : Node)
    (r : List Node × Option ℕ) : Type 0 where
  skipped :
      (ns : Nodes) (i : ℕ)
      → get_elem? cs i ≡ some (list o ns)
      → known ns ≡ true
      → r ≡ (cs, some i)
      → ItemBreak o cs known item r
  extended :
      (ns : Nodes) (i : ℕ)
      → get_elem? cs i ≡ some (list o ns)
      → known ns ≡ false
      → r ≡ (push_item cs i item, some i)
      → ItemBreak o cs known item r
  fresh :
      is_list_of o (last? cs) ≡ false
      → r ≡ (cs ++ list o (single item) ∷ [], some (length cs))
      → ItemBreak o cs known item r

pub process_list_line_break-ItemBreak :
    (cs : List Node) (content : Nodes) (t : Text) (current : Option ℕ)
    → ItemBreak
        (is_ordered t)
        cs
        (any_node (holds_only content))
        (list_item (single (paragraph content)))
        (process_list_line_break cs content t current)
unfolding process_list_line_break ensure_list
process_list_line_break-ItemBreak cs content t current =
    go (list_index cs (is_ordered t) current) (list_index-Ensured cs (is_ordered t) current)
  where
    go :
        (found : List Node × ℕ)
        → Ensured (is_ordered t) cs found
        → ItemBreak
            (is_ordered t)
            cs
            (any_node (holds_only content))
            (list_item (single (paragraph content)))
            (if any_node (holds_only content) (items_at found.0 found.1)
              then (found.0, some found.1)
              else (
                push_item found.0 found.1 (list_item (single (paragraph content))),
                some found.1,
              ))
    go found (known ns i at e) = elim (Bool-cases (any_node (holds_only content) ns)) [
      | inl dup ↦ skipped ns i at dup (rw (e, items_at-known cs i at, dup))
      | inr new ↦ extended ns i at new (rw (e, items_at-known cs i at, new))
    ]
    go found (pushed absent e) =
        fresh absent (unfold any_node in rw (e, items_at-new cs (is_ordered t), push_item-new))

pub push_empty_item-ItemBreak :
    (cs : List Node) (t : Text) (current : Option ℕ)
    → ItemBreak
        (is_ordered t)
        cs
        (λ _. false)
        empty_item
        (push_empty_item (ensure_list cs t current))
unfolding push_empty_item ensure_list
push_empty_item-ItemBreak cs t current =
    go (list_index cs (is_ordered t) current) (list_index-Ensured cs (is_ordered t) current)
  where
    go :
        (found : List Node × ℕ)
        → Ensured (is_ordered t) cs found
        → ItemBreak (is_ordered t) cs (λ _. false) empty_item (push_empty_item found)
    go found (known ns i at e) = extended ns i at refl (rw e)
    go found (pushed absent e) = fresh absent (rw (e, push_item-new))
