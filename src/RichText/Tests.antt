-- ===== src/RichText/Tests.antt =====
-- Runs of the conversions of examples/rich-text-editor/rich_text_editor.js, and the theorems at
-- concrete inputs.
use sqlpage.Prelude.{
  ◌≡◌, refl, true, false, none, some, List, [], ◌∷◌, ◌++◌, map, Text, codes, newline, strip,
  includes, All,
}
use sqlpage.RichText.Delta.{
  Attributes, no_attributes, Delta, flag, bullet, delta_text, fence_language,
}
use sqlpage.RichText.Mdast.{
  Node, root, paragraph, heading, text, strong, emphasis, link, list, list_item, blockquote, code,
  cons, single, text_of, texts_of,
}
use sqlpage.RichText.Grammar.{IsDocument}
use sqlpage.RichText.LineBreak.{process_code_line_break, is_code_of}
use sqlpage.RichText.LineBreak.Code.{process_code_line_break-known}
use sqlpage.RichText.ToMdast.{start, step, delta_children}
use sqlpage.RichText.ToMdast.Shape.{IsValid, start-IsValid, step-IsValid, delta_children-IsDocument}
use sqlpage.RichText.ToMdast.Lines.{IsPlain, filled_lines}
use sqlpage.RichText.ToMdast.Plain.{delta_children-filled_lines}
use sqlpage.RichText.ToMdast.Repeats.{IsItemLine}
use sqlpage.RichText.ToDelta.{op_of, mdast_to_delta}
use sqlpage.RichText.ToDelta.Texts.{shown, shown-mdast_to_delta}
use sqlpage.RichText.Blocks.{Block, para, head, tree, IsSimple, IsMarked, pieces_of, normal}
use sqlpage.RichText.RoundTrip.{delta_children-mdast_to_delta}

abbrev bold_text : Attributes
bold_text = record no_attributes { bold = true }

abbrev item : Text → Attributes
item k = record no_attributes { list = some k }

-- "a", bold "b", then a bullet item, then two lines in one operation.
abbrev sample : Delta
sample =
    op_of (codes "a") no_attributes
    ∷ op_of (codes "b") bold_text
    ∷ op_of (newline ∷ []) (item bullet)
    ∷ op_of (99 ∷ newline ∷ 100 ∷ []) no_attributes
    ∷ []

delta_children-sample :
    delta_children sample
    ≡ list false (
        single (
          list_item (
            single
              (paragraph (cons (text (codes "a")) (single (strong (single (text (codes "b"))))))))))
      ∷ paragraph (single (text (codes "c")))
      ∷ paragraph (single (text (codes "d")))
      ∷ []
unfolding delta_children
delta_children-sample = refl

step-IsValid_example : IsValid (step start (op_of (codes "a") bold_text))
step-IsValid_example = step-IsValid start (op_of (codes "a") bold_text) start-IsValid

delta_children-IsDocument_example : IsDocument (delta_children sample)
delta_children-IsDocument_example = delta_children-IsDocument sample

abbrev plain_sample : Delta
plain_sample =
    op_of (codes "a") no_attributes ∷ op_of (98 ∷ newline ∷ newline ∷ 99 ∷ []) bold_text ∷ []

no_attributes-IsPlain : IsPlain no_attributes
no_attributes-IsPlain = record { no_header = refl; no_code = refl; no_list = refl; no_quote = refl }

bold_text-IsPlain : IsPlain bold_text
bold_text-IsPlain = record { no_header = refl; no_code = refl; no_list = refl; no_quote = refl }

delta_children-filled_lines_example :
    map text_of (delta_children plain_sample) ≡ filled_lines (delta_text plain_sample)
delta_children-filled_lines_example =
    delta_children-filled_lines plain_sample
      (((λ e. cc), no_attributes-IsPlain), (((λ e. cc), bold_text-IsPlain), tt))

item-IsItemLine : IsItemLine (item bullet) bullet
item-IsItemLine = record { no_header = refl; no_code = refl; listed = refl }

process_code_line_break-known_example :
    process_code_line_break
      ([]
        ++ code (codes "x") (fence_language flag)
          ∷ paragraph (single (text (codes "between")))
          ∷ [])
      (codes "y")
      flag
    ≡ []
      ++ code (codes "x" ++ newline ∷ codes "y") (fence_language flag)
        ∷ paragraph (single (text (codes "between")))
        ∷ []
unfolding is_code_of
process_code_line_break-known_example =
    process_code_line_break-known [] (paragraph (single (text (codes "between"))) ∷ []) (codes "x")
      (codes "y") flag (refl, tt)

abbrev quote : Node
quote = root (
    single (
      blockquote (
        cons (paragraph (single (text (codes "a"))))
          (single (code (98 ∷ newline ∷ 99 ∷ []) none)))))

shown-mdast_to_delta_example :
    shown (mdast_to_delta quote)
    ≡ strip newline (
        texts_of (
          single (
            blockquote (
              cons
                (paragraph (single (text (codes "a"))))
                (single (code (98 ∷ newline ∷ 99 ∷ []) none))))))
shown-mdast_to_delta_example = shown-mdast_to_delta quote _ refl

-- A heading with a part in bold, and a paragraph with an italic text in bold and a link in bold.
abbrev written : List Block
written =
    head 1 (cons (text (codes "Ti")) (single (strong (single (text (codes "tle"))))))
    ∷ para (
        cons (strong (single (emphasis (single (text (codes "a"))))))
          (single (strong (single (link (codes "/x") (single (text (codes "b"))))))))
    ∷ []

written-normal :
    map normal written
    ≡ heading 2 (single (text (codes "Title")))
      ∷ paragraph (
          cons
            (emphasis (single (strong (single (text (codes "a"))))))
            (single (link (codes "/x") (single (strong (single (text (codes "b"))))))))
      ∷ []
unfolding pieces_of text_of
written-normal = refl

written-IsSimple : All IsSimple written
unfolding IsMarked includes text_of
written-IsSimple = (
  ((refl, ((refl, tt), tt)), (λ e. cc)),
  (((((refl, tt), tt), (((refl, tt), tt), tt)), (λ e. cc)), tt),
)

delta_children-mdast_to_delta_example :
    delta_children (mdast_to_delta (tree written)) ≡ map normal written
delta_children-mdast_to_delta_example = delta_children-mdast_to_delta written written-IsSimple
