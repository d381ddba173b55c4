-- ===== src/RichText/ToDelta/Items.antt =====
-- What traverseMdastNode makes of list items that are empty or hold a list.
use sqlpage.Prelude.{
  ◌≡◌, refl, ap, ◌∙◌, Bool, Option, none, some, [], ◌∷◌, ◌++◌, Text, newline, append_assoc, inl,
  inr, Bool-cases, arith, if◌then◌else◌, text_eq,
}
use sqlpage.RichText.Delta.{Attributes, Op, Delta, ordered, bullet}
use sqlpage.RichText.Mdast.{Node, Nodes, paragraph, text, list, list_item, nil, cons, single}
use sqlpage.RichText.ToDelta.{
  push_text, end_item, merge, merge_onto, op_of, is_newline, or_else, traverse, traverse_all,
  quote_of,
}

or_else-twice {ℓ} : {A : Type ℓ} (x y : Option A) → or_else x (or_else x y) ≡ or_else x y
unfolding or_else
or_else-twice none y = refl
or_else-twice (some x) y = refl

-- Merging the same attributes again changes nothing.
merge-twice : (x a : Attributes) → merge (merge x a) a ≡ merge x a
unfolding merge
merge-twice x a = ground (
  arith,
  or_else-twice a.link x.link,
  or_else-twice a.header x.header,
  or_else-twice a.list x.list,
  or_else-twice a.code_block x.code_block,
  or_else-twice a.alt x.alt,
)

or_else_self {ℓ} : {A : Type ℓ} (x : Option A) → or_else x x ≡ x
unfolding or_else
or_else_self none = refl
or_else_self (some x) = refl

merge_self : (a : Attributes) → merge a a ≡ a
unfolding merge
merge_self a = ground (
  arith,
  or_else_self a.link,
  or_else_self a.header,
  or_else_self a.list,
  or_else_self a.code_block,
  or_else_self a.alt,
)

merge_onto-twice :
    (o : Option Attributes) (a : Attributes) → merge_onto (some (merge_onto o a)) a ≡ merge_onto o a
unfolding merge_onto
merge_onto-twice none a = merge_self a
merge_onto-twice (some x) a = merge-twice x a

end_item-cons :
    (op next : Op) (d : Delta) (a : Attributes)
    → end_item (op ∷ next ∷ d) a ≡ op ∷ end_item (next ∷ d) a
unfolding end_item
end_item-cons op next d a = refl

-- Below a first operation, an item's end is that of the rest, which is not empty.
end_item-below :
    (op next : Op) (d : Delta) (a : Attributes)
    → end_item (op ∷ end_item (next ∷ d) a) a ≡ op ∷ end_item (end_item (next ∷ d) a) a
unfolding end_item
end_item-below op next [] a = elim (Bool-cases (is_newline next.insert)) [
  | inl line ↦ rw line
  | inr other ↦ rw other
]
end_item-below op next (last ∷ d) a = refl

-- Ending an item twice is ending it once.
end_item-twice : (d : Delta) (a : Attributes) → end_item (end_item d a) a ≡ end_item d a
unfolding end_item is_newline text_eq
end_item-twice [] a = ap (λ x. op_of (newline ∷ []) x ∷ []) (merge_onto-twice none a)
end_item-twice (op ∷ []) a = elim (Bool-cases (is_newline op.insert)) [
  | inl line ↦ rw line (
      rw line (ap (λ x. record op { attributes = some x } ∷ []) (merge_onto-twice op.attributes a)))
  | inr other ↦ rw other (ap (λ x. op ∷ op_of (newline ∷ []) x ∷ []) (merge_onto-twice none a))
]
end_item-twice (op ∷ next ∷ d) a =
    end_item-below op next d a ∙ ap (op ∷◌) (end_item-twice (next ∷ d) a)

-- An item with no children leaves no trace behind another item of its list: the delta is that of
-- the list without it.
pub traverse_all-empty_item :
    (ns rest : Nodes) (d : Delta) (a : Attributes)
    → traverse_all (cons (list_item ns) (cons (list_item nil) rest)) d a
      ≡ traverse_all (cons (list_item ns) rest) d a
unfolding traverse
traverse_all-empty_item ns rest d a =
    ap (λ e. traverse_all rest e a)
      (end_item-twice (traverse_all ns d (record a { list = none })) a)

end_item-snoc :
    (d : Delta) (a b : Attributes)
    → end_item (d ++ op_of (newline ∷ []) b ∷ []) a ≡ d ++ op_of (newline ∷ []) (merge b a) ∷ []
unfolding end_item is_newline merge_onto text_eq
end_item-snoc [] a b = refl
end_item-snoc (op ∷ []) a b = refl
end_item-snoc (op ∷ next ∷ d) a b = ap (op ∷◌) (end_item-snoc (next ∷ d) a b)

end_item-end_item :
    (d : Delta) (b c a : Attributes)
    → end_item (end_item (push_text d (newline ∷ []) b) c) a
      ≡ d ++ op_of (newline ∷ []) (merge (merge b c) a) ∷ []
unfolding push_text
end_item-end_item d b c a =
    ap (λ e. end_item e a) (end_item-snoc d c b) ∙ end_item-snoc d a (merge b c)

push_three :
    (d : Delta) (x y z : Text) (a b c : Attributes) (op : Op)
    → push_text (push_text (push_text d x a) y b) z c ++ op ∷ []
      ≡ d ++ op_of x a ∷ op_of y b ∷ op_of z c ∷ op ∷ []
unfolding push_text
push_three d x y z a b c op = simp append_assoc

-- An item that holds a paragraph and, below it, a list of one item.
abbrev pub nested : Text → Bool → Text → Node
nested s o u = list_item (
    cons (paragraph (single (text s)))
      (single (list o (single (list_item (single (paragraph (single (text u)))))))))

-- An item with a list in it: its own line gets no list attribute, so that it is no item any more,
-- and the line of the inner item gets the kind of the outer list, whatever its own kind.
pub traverse-nested :
    (s u : Text) (o : Bool) (k : Text) (d : Delta) (a : Attributes)
    → a.list ≡ some k
    → (outer inner : Attributes) × (outer.list ≡ none)
      × (inner.list ≡ some k)
      × (traverse (nested s o u) d a
          ≡ d
            ++ op_of s (record a { list = none })
              ∷ op_of (newline ∷ []) outer
              ∷ op_of u (record a { list = none })
              ∷ op_of (newline ∷ []) inner
              ∷ [])
unfolding traverse
traverse-nested s u o k d a listed =
    let b : Attributes = record a { list = none } in
    let c : Attributes = record b { list = some (if o then ordered else bullet) } in
    (
      quote_of b,
      merge (merge (quote_of b) c) a,
      refl,
      unfold merge or_else in rw listed,
      end_item-end_item (push_text (push_text (push_text d s b) (newline ∷ []) (quote_of b)) u b)
            (quote_of b) c a
          ∙ push_three d s (newline ∷ []) u b (quote_of b) b
              (op_of (newline ∷ []) (merge (merge (quote_of b) c) a)),
    )
