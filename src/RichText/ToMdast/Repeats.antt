-- ===== src/RichText/ToMdast/Repeats.antt =====
-- deltaToMdast on a list item whose line is repeated.
use sqlpage.Prelude.{
  ℕ, ◌≡◌, refl, ap, sym, ◌∙◌, true, Option, none, some, List, [], ◌∷◌, ◌++◌, newline, includes,
  Text, Excludes, Bool-cases, inl, inr, text_eq, text_eq_iff,
}
use sqlpage.RichText.Delta.{Attributes, Insert, Delta, active_number, active_language, active_text}
use sqlpage.RichText.Mdast.{Node}
use sqlpage.RichText.LineBreak.{
  process_line_break, create_text_nodes, break_filled_line, filled_line_with,
  process_list_line_break,
}
use sqlpage.RichText.LineBreak.Repeats.{process_list_line_break-idempotent}
use sqlpage.RichText.ToMdast.{
  State, start, break_line, add_text, insert_text, step, run, finish, delta_children,
}

pub run-append : (s : State) (d e : Delta) → run s (d ++ e) ≡ run (run s d) e
unfolding run
run-append s [] e = refl
run-append s (op ∷ d) e = run-append (step s op) d e

-- A line of text and its line break.
abbrev pub line : Text → Attributes → Attributes → Delta
line t a b =
    record { insert = Insert.text t; attributes = some a }
    ∷ record { insert = Insert.text (newline ∷ []); attributes = some b }
    ∷ []

-- The attributes of a list item's line break, of the kind `t`.
pub record IsItemLine (b : Attributes) (t : Text) : Type 0 where
  pub no_header : active_number b.header ≡ none
  pub no_code : active_language b.code_block ≡ none
  pub listed : active_text b.list ≡ some t

pub insert_text-line :
    (s : State) (t : Text) (a : Attributes)
    → Excludes newline t
    → insert_text s t a ≡ add_text s t a
unfolding insert_text
insert_text-line s t a x = elim (Bool-cases (text_eq t (newline ∷ []))) [
  | inl whole ↦
      cc (x, ap (includes newline) ((text_eq_iff t (newline ∷ [])).0 whole), newline_included)
  | inr other ↦ rw (x, other)
]
  where
    newline_included : includes newline (newline ∷ []) ≡ true
    newline_included = unfold includes in refl

pub insert_text-newline :
    (s : State) (b : Attributes) → insert_text s (newline ∷ []) b ≡ break_line s b
unfolding insert_text includes text_eq
insert_text-newline s b = refl

-- A line, on a state with no open paragraph.
run-item :
    (s : State) (t : Text) (a b : Attributes) (kind : Text)
    → Excludes newline t
    → IsItemLine b kind
    → s.current_paragraph ≡ none
    → run s (line t a b) ≡ record {
      children = (process_list_line_break s.children (create_text_nodes t a) kind s.current_list).0;
      current_paragraph = none;
      current_list =
          (process_list_line_break s.children (create_text_nodes t a) kind s.current_list).1;
      text_buffer = [];
    }
unfolding run step
run-item s t a b kind x i closed =
    rw (insert_text-line s t a x, insert_text-newline (add_text s t a) b)
      (unfold break_line add_text process_line_break break_filled_line filled_line_with in
        rw (closed, i.no_header, i.no_code, i.listed))

-- A list item that repeats the item before it is lost: the tree is that of the delta without it.
pub delta_children-repeated_item :
    (d : Delta) (t : Text) (a b : Attributes) (kind : Text)
    → Excludes newline t
    → IsItemLine b kind
    → (run start d).current_paragraph ≡ none
    → delta_children (d ++ (line t a b ++ line t a b)) ≡ delta_children (d ++ line t a b)
unfolding delta_children
delta_children-repeated_item d t a b kind x i closed = ap finish (
    run-append start d (line t a b ++ line t a b)
    ∙ run-append (run start d) (line t a b) (line t a b)
    ∙ ap (λ s. run s (line t a b)) first
    ∙ run-item _ t a b kind x i refl
    ∙ ap (λ (r : List Node × Option ℕ). state r.0 r.1)
        (process_list_line_break-idempotent (run start d).children (create_text_nodes t a) kind
          (run start d).current_list)
    ∙ sym first
    ∙ sym (run-append start d (line t a b)))
  where
    state : List Node → Option ℕ → State
    state cs l = record {
      children = cs;
      current_paragraph = none;
      current_list = l;
      text_buffer = [];
    }

    first :
        run (run start d) (line t a b)
        ≡ state
            (process_list_line_break
              (run start d).children
              (create_text_nodes t a)
              kind
              (run start d).current_list).0
            (process_list_line_break
              (run start d).children
              (create_text_nodes t a)
              kind
              (run start d).current_list).1
    first = run-item (run start d) t a b kind x i closed
