-- ===== src/RichText/ToMdast/Plain.antt =====
-- deltaToMdast on plain text: text operations with any inline marks, and lines without a block
-- format.
use sqlpage.Prelude.{
  ◌≡◌, refl, ◌≢◌, ap, ◌∙◌, Option, none, some, List, [], ◌∷◌, ◌++◌, map, newline, includes, split,
  Text, Excludes, split-Excludes, split-cons, join, join-split, All, Bool-cases, inl, inr, text_eq,
  text_eq_iff, append_assoc, append-nil,
}
use sqlpage.RichText.Delta.{Attributes, Insert, Delta, inserted, delta_text}
use sqlpage.RichText.Mdast.{Nodes, paragraph, text_of}
use sqlpage.RichText.ToMdast.{
  State, start, break_line, add_line, add_lines, add_text, insert_text, step, run, finish,
  delta_children,
}
use sqlpage.RichText.ToMdast.Lines.{
  IsPlainText, IsPlainOp, emit, filled_lines_from, filled_lines, filled_lines_from-append,
  open_text, IsFilled, paragraphs, map-text_of-snoc, emit-filled, break_line-paragraphs,
  add_nodes-text, add_nodes-IsFilled, add_line-paragraphs, IsPlain,
}

newline-filled :
    (acc s : Text) → filled_lines_from acc (newline ∷ s) ≡ emit acc (filled_lines_from [] s)
unfolding filled_lines_from
newline-filled acc s = refl

break_line-rest :
    (s : State) (a : Attributes) (rest : Text)
    → IsPlain a
    → IsFilled s.current_paragraph
    → (paragraphs (break_line s a) rest ≡ paragraphs s (newline ∷ rest))
      × IsFilled (break_line s a).current_paragraph
break_line-rest s a rest p f =
    (break_line-paragraphs s a rest p f ∙ rw newline-filled, unfold break_line in tt)

add_lines-paragraphs :
    (s : State) (line : Text) (lines : List Text) (rest : Text) (a : Attributes)
    → IsPlain a
    → All (Excludes newline) (line ∷ lines)
    → IsFilled s.current_paragraph
    → (paragraphs (add_lines s (line ∷ lines) a) rest
        ≡ paragraphs s (join newline (line ∷ lines) ++ rest))
      × IsFilled (add_lines s (line ∷ lines) a).current_paragraph
unfolding add_lines join
add_lines-paragraphs s line [] rest a p (x, _) f = add_line-paragraphs s line rest a x f
add_lines-paragraphs s line (next ∷ lines) rest a p (x, h) f =
    let (e, f') =
      add_line-paragraphs s line (newline ∷ join newline (next ∷ lines) ++ rest) a x f in
    let (e', f'') =
      break_line-rest (add_line s line a) a (join newline (next ∷ lines) ++ rest) p f' in
    let (e'', f''') =
      add_lines-paragraphs (break_line (add_line s line a) a) next lines rest a p h f'' in
    (e'' ∙ e' ∙ e ∙ rw append_assoc, f''')

split_lines-paragraphs :
    (s : State) (t rest : Text) (a : Attributes) (line : Text) (lines : List Text)
    → split newline t ≡ line ∷ lines
    → IsPlain a
    → IsFilled s.current_paragraph
    → (paragraphs (add_lines s (split newline t) a) rest ≡ paragraphs s (t ++ rest))
      × IsFilled (add_lines s (split newline t) a).current_paragraph
split_lines-paragraphs s t rest a line lines e p f =
    let (q, f') =
      add_lines-paragraphs s line lines rest a p (rw e at (split-Excludes newline t)) f in
    let same : join newline (line ∷ lines) ≡ t = rw e at (join-split newline t) in
    rw e (q ∙ ap (λ u. paragraphs s (u ++ rest)) same, f')

insert_text-paragraphs :
    (s : State) (t rest : Text) (a : Attributes)
    → t ≢ []
    → IsPlain a
    → IsFilled s.current_paragraph
    → (paragraphs (insert_text s t a) rest ≡ paragraphs s (t ++ rest))
      × IsFilled (insert_text s t a).current_paragraph
unfolding insert_text
insert_text-paragraphs s t rest a ne p f = elim (Bool-cases (text_eq t (newline ∷ []))) [
  | inl whole ↦
      let e = (text_eq_iff t (newline ∷ [])).0 whole in
      rw e (unfold includes text_eq in break_line-rest s a rest p f)
  | inr not_whole ↦ elim (Bool-cases (includes newline t)) [
    | inl some_line ↦
        let (line, lines, e) = split-cons newline t in
        rw (some_line, not_whole) (split_lines-paragraphs s t rest a line lines e p f)
    | inr no_line ↦
        rw (no_line, not_whole)
          (unfold add_text in
            (
              rw (
                add_nodes-text s.current_paragraph t a no_line,
                filled_lines_from-append _ t rest no_line,
              ),
              add_nodes-IsFilled s.current_paragraph t a no_line ne,
            ))
  ]
]

step-paragraphs :
    (s : State) (i : Insert) (a : Option Attributes) (rest : Text)
    → IsPlainText i a
    → IsFilled s.current_paragraph
    → (paragraphs (step s (record { insert = i; attributes = a })) rest
        ≡ paragraphs s (inserted i ++ rest))
      × IsFilled (step s (record { insert = i; attributes = a })).current_paragraph
unfolding step
step-paragraphs s (Insert.text t) a rest (ne, p) f = insert_text-paragraphs s t rest _ ne p f
step-paragraphs s (Insert.image u) a rest p f = absurd p
step-paragraphs s Insert.embed a rest p f = absurd p
step-paragraphs s Insert.missing a rest p f = absurd p

run-paragraphs :
    (s : State) (d : Delta)
    → All IsPlainOp d
    → IsFilled s.current_paragraph
    → (paragraphs (run s d) [] ≡ paragraphs s (delta_text d)) × IsFilled (run s d).current_paragraph
unfolding run
run-paragraphs s [] h f = (refl, f)
run-paragraphs s (op ∷ d) (p, h) f =
    let (e, f') = step-paragraphs s op.insert op.attributes (delta_text d) p f in
    let (e', f'') = run-paragraphs (step s op) d h f' in (e' ∙ e, f'')

finish-paragraphs :
    (s : State) → IsFilled s.current_paragraph → map text_of (finish s) ≡ paragraphs s []
unfolding finish filled_lines_from text_of
finish-paragraphs s f = go s.current_paragraph f
  where
    go :
        (q : Option Nodes)
        → IsFilled q
        → map text_of (elim q [ none ↦ s.children | some ns ↦ s.children ++ paragraph ns ∷ [] ])
          ≡ map text_of s.children ++ emit (open_text q) []
    go none f = rw append-nil
    go (some ns) f = rw (map-text_of-snoc, emit-filled _ _ f)

-- On a delta of plain text, whatever its inline marks and however it is cut into operations, the
-- texts of the tree's children are the lines of the inserted text that are not empty, in order.
pub delta_children-filled_lines :
    (d : Delta) → All IsPlainOp d → map text_of (delta_children d) ≡ filled_lines (delta_text d)
unfolding delta_children filled_lines
delta_children-filled_lines d h =
    let (e, f) = run-paragraphs start d h tt in finish-paragraphs (run start d) f ∙ e
