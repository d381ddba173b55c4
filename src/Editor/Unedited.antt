-- ===== src/Editor/Unedited.antt =====
-- A text area that is set up and sent with no change of its text.
use sqlpage.Prelude.{
  ◌≡◌, refl, ap, ◌∙◌, Bool, true, false, not, ◌&&◌, ◌==◌, Option, none, some, List, [], ◌∷◌, ◌++◌,
  map, if◌then◌else◌, Text, nonempty, newline, strip, concat, All, Bool-cases, inl, inr,
  append_assoc,
}
use sqlpage.RichText.Delta.{Delta, delta_text}
use sqlpage.RichText.Mdast.{Node, Nodes, root, of_list, children_of, text_of, texts_of}
use sqlpage.RichText.ToMdast.{delta_children, delta_to_mdast}
use sqlpage.RichText.ToMdast.Lines.{IsPlainOp, emit, filled_lines_from, filled_lines}
use sqlpage.RichText.ToMdast.Plain.{delta_children-filled_lines}
use sqlpage.RichText.ToDelta.{mdast_to_delta}
use sqlpage.RichText.ToDelta.Texts.{shown, shown-mdast_to_delta}
use sqlpage.Editor.{
  Field, submit_clicked, tree_to_delta, initialize_quill_editor, create_and_replace_textarea,
  finish_setup, setup_single_editor, is_valid, delta_to_markdown, submit_form, on_submit, handle,
}
use sqlpage.Editor.Setup.{is_read_only, setup_single_editor-some}

concat-emit : (acc : Text) (ls : List Text) → concat (emit acc ls) ≡ acc ++ concat ls
concat-emit [] ls = refl
concat-emit (c ∷ acc) ls = refl

concat-filled_lines_from :
    (acc t : Text) → concat (filled_lines_from acc t) ≡ acc ++ strip newline t
unfolding filled_lines_from strip
concat-filled_lines_from acc [] = concat-emit acc []
concat-filled_lines_from acc (c ∷ t) = elim (Bool-cases (c == newline)) [
  | inl same ↦ rw (same, concat-emit, concat-filled_lines_from [] t)
  | inr other ↦ rw (other, concat-filled_lines_from (acc ++ c ∷ []) t, append_assoc)
]

concat-filled_lines : (t : Text) → concat (filled_lines t) ≡ strip newline t
unfolding filled_lines
concat-filled_lines t = concat-filled_lines_from [] t

-- The children of the tree that a plain delta gives, next to the text that the delta came from.
submitted_texts :
    (tree : Node) (ns : Nodes) (contents : Delta)
    → children_of tree ≡ some ns
    → All IsPlainOp contents
    → delta_text contents ≡ delta_text (mdast_to_delta tree)
    → (map text_of (delta_children contents) ≡ filled_lines (delta_text (mdast_to_delta tree)))
      × (concat (map text_of (delta_children contents)) ≡ strip newline (texts_of ns))
unfolding shown
submitted_texts tree ns contents c h kept =
    let e = delta_children-filled_lines contents h ∙ ap filled_lines kept in
    (
      e,
      ap concat e
          ∙ concat-filled_lines (delta_text (mdast_to_delta tree))
          ∙ shown-mdast_to_delta tree ns c,
    )

module _ (from_markdown : Text → Option Node) (to_markdown : Node → Text)
    (new_quill : Bool → Option Delta → Option Delta) where
  submitted :
      (f : Field) (d : Delta)
      → f.in_form ≡ true
      → is_valid f.textarea ≡ true
      → f.textarea.required && not (nonempty (delta_to_markdown to_markdown d)) ≡ false
      → (handle to_markdown
          (finish_setup (create_and_replace_textarea f) (some d)).0
          (submit_clicked true false)).sent
        ≡ f.sent
          ++ (if f.textarea.disabled then none else some (delta_to_markdown to_markdown d)) ∷ []
  unfolding handle submit_form on_submit finish_setup create_and_replace_textarea is_valid
  submitted f d i valid full = rw (valid, i, full) refl

  -- A document that is shown as plain text and not edited is sent with the same text: the set-up
  -- parses the text area's value, and the submission prints a tree whose children have the lines
  -- that are not empty of the text that Quill was given, in order, and together the text of the
  -- parsed tree less its line breaks. Quill may cut that text into other operations, but keeps it
  -- and puts no block format on it; the browser takes the form for valid, no other listener cancels
  -- it, and a required text area does not become empty.
  pub handle-unedited :
      (f : Field) (tree : Node) (ns : Nodes) (contents : Delta)
      → from_markdown f.textarea.value ≡ some tree
      → children_of tree ≡ some ns
      → nonempty f.textarea.value ≡ true
      → new_quill (is_read_only f) (some (mdast_to_delta tree)) ≡ some contents
      → All IsPlainOp contents
      → delta_text contents ≡ delta_text (mdast_to_delta tree)
      → f.textarea.quill_initialized ≡ false
      → f.in_form ≡ true
      → is_valid f.textarea ≡ true
      → f.textarea.required && not (nonempty (delta_to_markdown to_markdown contents)) ≡ false
      → (cs : List Node) × (map text_of cs ≡ filled_lines (delta_text (mdast_to_delta tree)))
        × (concat (map text_of cs) ≡ strip newline (texts_of ns))
        × ((handle to_markdown
              (setup_single_editor from_markdown new_quill f).0
              (submit_clicked true false)).sent
            ≡ f.sent
              ++ (if f.textarea.disabled then none else some (to_markdown (root (of_list cs))))
                ∷ [])
  handle-unedited f tree ns contents parsed c full quill h kept new i valid required =
      let e : initialize_quill_editor from_markdown new_quill f.textarea.value (is_read_only f)
          ≡ some contents =
        unfold initialize_quill_editor tree_to_delta in rw (full, parsed) quill in
      let p = setup_single_editor-some from_markdown new_quill f contents new e in
      let (lines, texts) = submitted_texts tree ns contents c h kept in
      (
        delta_children contents,
        lines,
        texts,
        ap (λ r. (handle to_markdown r.0 (submit_clicked true false)).sent) p
            ∙ submitted f contents i valid required
            ∙ (unfold delta_to_markdown delta_to_mdast in refl),
      )
