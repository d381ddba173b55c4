-- ===== src/RichText/ToMdast/Lines.antt =====
-- The paragraphs that lines without a block format make in deltaToMdast of
-- examples/rich-text-editor/rich_text_editor.js.
use sqlpage.Prelude.{
  ◌≡◌, refl, ◌≢◌, ap, ◌∙◌, Bool, true, false, Option, none, some, List, [], ◌∷◌, ◌++◌, map, newline,
  includes, Text, Excludes, Bool-cases, inl, inr, get_or_else, if◌then◌else◌, append_assoc,
  append-nil, ◌==◌,
}
use sqlpage.RichText.Delta.{
  Attributes, no_attributes, Insert, Op, active_number, active_language, active_text,
}
use sqlpage.RichText.Mdast.{
  Node, Nodes, text, strong, emphasis, nil, cons, ◌+++◌, single, texts_of, text_of,
}
use sqlpage.RichText.LineBreak.{
  process_line_break, create_text_nodes, handle_empty_line, empty_line_with, break_filled_line,
  filled_line_with,
}
use sqlpage.RichText.LineBreak.TextNodes.{create_text_nodes-formatted, formatted, in_link}
use sqlpage.RichText.ToMdast.{State, add_nodes, break_line, add_line}

-- No block format is on.
pub record IsPlain (a : Attributes) : Type 0 where
  pub no_header : active_number a.header ≡ none
  pub no_code : active_language a.code_block ≡ none
  pub no_list : active_text a.list ≡ none
  pub no_quote : a.blockquote ≡ false

-- A text that is not empty, on a plain line.
abbrev pub IsPlainText : Insert → Option Attributes → Type 0
IsPlainText (Insert.text t) a = (t ≢ []) × IsPlain (get_or_else a no_attributes)
IsPlainText _ a = ⊥

abbrev pub IsPlainOp : Op → Type 0
IsPlainOp op = IsPlainText op.insert op.attributes

abbrev pub emit : Text → List Text → List Text
emit [] ls = ls
emit (c ∷ s) ls = (c ∷ s) ∷ ls

-- The lines of a text that are not empty, the first of them behind `acc`.
unfoldable pub filled_lines_from : Text → Text → List Text
filled_lines_from acc [] = emit acc []
filled_lines_from acc (c ∷ s) =
    let closed = emit acc (filled_lines_from [] s) in
    let longer = filled_lines_from (acc ++ c ∷ []) s in if c == newline then closed else longer

unfoldable pub filled_lines : Text → List Text
filled_lines = filled_lines_from []

pub filled_lines_from-append :
    (acc t s : Text)
    → Excludes newline t
    → filled_lines_from acc (t ++ s) ≡ filled_lines_from (acc ++ t) s
unfolding filled_lines_from includes
filled_lines_from-append acc [] s x = rw append-nil
filled_lines_from-append acc (c ∷ t) s x = elim (Bool-cases (c == newline)) [
  | inl same ↦ cc (rw same at x)
  | inr other ↦
      rw (other) (filled_lines_from-append (acc ++ c ∷ []) t s (rw other at x) ∙ rw append_assoc)
]

texts_of-+++ : (ns ms : Nodes) → texts_of (ns +++ ms) ≡ texts_of ns ++ texts_of ms
unfolding text_of
texts_of-+++ nil ms = refl
texts_of-+++ (cons n ns) ms = rw (texts_of-+++ ns ms, append_assoc)

text_of-formatted : (a : Attributes) (s : Text) → text_of (formatted a s) ≡ s
unfolding text_of
text_of-formatted a s = go a.bold a.italic (active_text a.link)
  where
    go :
        (b i : Bool) (u : Option Text)
        → text_of (
            in_link u (
              if i
              then emphasis (single (if b then strong (single (text s)) else text s))
              else (if b then strong (single (text s)) else text s)))
          ≡ s
    go true true none = simp append-nil
    go true true (some u) = simp append-nil
    go true false none = simp append-nil
    go true false (some u) = simp append-nil
    go false true none = simp append-nil
    go false true (some u) = simp append-nil
    go false false none = refl
    go false false (some u) = simp append-nil

texts_of-create_text_nodes :
    (s : Text) (a : Attributes) → Excludes newline s → texts_of (create_text_nodes s a) ≡ s
unfolding text_of
texts_of-create_text_nodes s a x =
    rw (create_text_nodes-formatted s a x, append-nil) (text_of-formatted a s)

-- The text of the open paragraph. A paragraph that is open has some text.
abbrev pub open_text : Option Nodes → Text
open_text none = []
open_text (some ns) = texts_of ns

abbrev pub IsFilled : Option Nodes → Type 0
IsFilled none = Unit
IsFilled (some ns) = texts_of ns ≢ []

-- What the state has turned into paragraphs, with the text `rest` to come.
abbrev pub paragraphs : State → Text → List Text
paragraphs s rest = map text_of s.children ++ filled_lines_from (open_text s.current_paragraph) rest

pub map-text_of-snoc :
    (cs : List Node) (n : Node) → map text_of (cs ++ n ∷ []) ≡ map text_of cs ++ text_of n ∷ []
map-text_of-snoc [] n = refl
map-text_of-snoc (c ∷ cs) n = ap (text_of c ∷◌) (map-text_of-snoc cs n)

pub emit-filled : (t : Text) (ls : List Text) → t ≢ [] → emit t ls ≡ t ∷ ls
emit-filled [] ls ne = absurd (ne refl)
emit-filled (c ∷ t) ls ne = refl

pub break_line-paragraphs :
    (s : State) (a : Attributes) (rest : Text)
    → IsPlain a
    → IsFilled s.current_paragraph
    → paragraphs (break_line s a) rest
      ≡ map text_of s.children ++ emit (open_text s.current_paragraph) (filled_lines_from [] rest)
unfolding break_line process_line_break handle_empty_line empty_line_with break_filled_line
    filled_line_with text_of
break_line-paragraphs s a rest p f = go s.current_paragraph f
  where
    go :
        (q : Option Nodes)
        → IsFilled q
        → map text_of (process_line_break s.children q a s.text_buffer s.current_list).0
            ++ filled_lines_from [] rest
          ≡ map text_of s.children ++ emit (open_text q) (filled_lines_from [] rest)
    go none f = rw (p.no_code, p.no_list, p.no_quote)
    go (some ns) f = rw (
      p.no_header,
      p.no_code,
      p.no_list,
      p.no_quote,
      map-text_of-snoc,
      append_assoc,
      emit-filled _ _ f,
    )

pub add_nodes-text :
    (q : Option Nodes) (t : Text) (a : Attributes)
    → Excludes newline t
    → open_text (add_nodes q (create_text_nodes t a)) ≡ open_text q ++ t
add_nodes-text none t a x = texts_of-create_text_nodes t a x
add_nodes-text (some ns) t a x = rw (texts_of-+++, texts_of-create_text_nodes t a x)

append-ne : (s t : Text) → t ≢ [] → (s ++ t) ≢ []
append-ne [] t ne = ne
append-ne (c ∷ s) t ne = λ e. cc

pub add_nodes-IsFilled :
    (q : Option Nodes) (t : Text) (a : Attributes)
    → Excludes newline t
    → t ≢ []
    → IsFilled (add_nodes q (create_text_nodes t a))
add_nodes-IsFilled none t a x ne = rw (texts_of-create_text_nodes t a x) ne
add_nodes-IsFilled (some ns) t a x ne =
    rw (texts_of-+++, texts_of-create_text_nodes t a x) (append-ne _ t ne)

pub add_line-paragraphs :
    (s : State) (line rest : Text) (a : Attributes)
    → Excludes newline line
    → IsFilled s.current_paragraph
    → (paragraphs (add_line s line a) rest ≡ paragraphs s (line ++ rest))
      × IsFilled (add_line s line a).current_paragraph
unfolding add_line
add_line-paragraphs s [] rest a x f = (refl, f)
add_line-paragraphs s (c ∷ line) rest a x f = (
  rw (
    add_nodes-text s.current_paragraph (c ∷ line) a x,
    filled_lines_from-append _ (c ∷ line) rest x,
  ),
  add_nodes-IsFilled s.current_paragraph (c ∷ line) a x (λ e. cc),
)
