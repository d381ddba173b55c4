-- ===== src/Editor/Setup.antt =====
-- The set-up of the editors, setupSingleEditor and initializeEditors of
-- examples/rich-text-editor/rich_text_editor.js.
use sqlpage.Prelude.{
  ℕ, suc, ◌≡◌, refl, ap, sym, ◌∙◌, Bool, true, false, not, ◌||◌, Option, none, some, List, [], ◌∷◌,
  if◌then◌else◌, Text, nonempty, All, arith, Bool-cases, inl, inr,
}
use sqlpage.RichText.Delta.{Delta}
use sqlpage.RichText.Mdast.{Node}
use sqlpage.Editor.{
  markdown_to_delta, Field, Event, create_and_replace_textarea, initialize_quill_editor,
  finish_setup, setup_single_editor, setup_editors, handle_all, Editor,
}
use sqlpage.Editor.Submit.{IsBlocked, handle_all-IsBlocked}

-- The text areas that have no editor yet.
abbrev pub uninitialized : List Field → ℕ
uninitialized [] = 0
uninitialized (f ∷ fs) =
    if f.textarea.quill_initialized then uninitialized fs else suc (uninitialized fs)

abbrev pub is_read_only : Field → Bool
is_read_only f = f.textarea.read_only || f.textarea.disabled

-- A text area that is hidden and has no editor, with its value.
pub record IsUnusable (v : Text) (f : Field) : Type 0 where
  pub no_editor : f.editor ≡ none
  pub shrunk : f.textarea.shrunk ≡ true
  pub value : f.textarea.value ≡ v

module _ (from_markdown : Text → Option Node) (new_quill : Bool → Option Delta → Option Delta) where
  setup_single_editor-new :
      (f : Field)
      → f.textarea.quill_initialized ≡ false
      → setup_single_editor from_markdown new_quill f
        ≡ finish_setup
            (create_and_replace_textarea f)
            (initialize_quill_editor from_markdown new_quill f.textarea.value (is_read_only f))
  unfolding setup_single_editor
  setup_single_editor-new f new = rw new refl

  pub setup_single_editor-some :
      (f : Field) (contents : Delta)
      → f.textarea.quill_initialized ≡ false
      → initialize_quill_editor from_markdown new_quill f.textarea.value (is_read_only f)
        ≡ some contents
      → setup_single_editor from_markdown new_quill f
        ≡ finish_setup (create_and_replace_textarea f) (some contents)
  setup_single_editor-some f contents new e =
      setup_single_editor-new f new ∙ ap (finish_setup (create_and_replace_textarea f)) e

  setup_single_editor-old :
      (f : Field)
      → f.textarea.quill_initialized ≡ true
      → setup_single_editor from_markdown new_quill f ≡ (f, false)
  unfolding setup_single_editor
  setup_single_editor-old f old = rw old refl

  module _
      (starts : (read_only : Bool) (initial : Option Delta)
        → (contents : Delta) × (new_quill read_only initial ≡ some contents)) where
    -- What a set-up does when Quill starts.
    setup_single_editor-starts :
        (f : Field)
        → ((setup_single_editor from_markdown new_quill f).0.textarea.quill_initialized ≡ true)
          × ((setup_single_editor from_markdown new_quill f).1 ≡ not f.textarea.quill_initialized)
    setup_single_editor-starts f = elim (Bool-cases f.textarea.quill_initialized) [
      | inl old ↦
          let p = setup_single_editor-old f old in
          (ap (λ r. r.0.textarea.quill_initialized) p ∙ old, ap (λ r. r.1) p ∙ ap not (sym old))
      | inr new ↦
          let (contents, e) = starts (is_read_only f) (
            if nonempty f.textarea.value
            then some (markdown_to_delta from_markdown f.textarea.value)
            else none) in
          let p = setup_single_editor-some f contents new (unfold initialize_quill_editor in e) in
          (
            ap (λ r. r.0.textarea.quill_initialized) p ∙ (unfold finish_setup in refl),
            ap (λ r. r.1) p ∙ (unfold finish_setup in ap not (sym new)),
          )
    ]

    -- If Quill starts, the set-up of all text areas gives an editor to each that has none, counts
    -- them, and a second one changes nothing.
    pub setup_editors-again :
        (fs : List Field)
        → All
            (λ f. f.textarea.quill_initialized ≡ true)
            (setup_editors from_markdown new_quill fs).0
          × ((setup_editors from_markdown new_quill fs).1 ≡ uninitialized fs)
          × (setup_editors from_markdown new_quill (setup_editors from_markdown new_quill fs).0
              ≡ ((setup_editors from_markdown new_quill fs).0, 0))
    unfolding setup_editors
    setup_editors-again [] = (tt, refl, refl)
    setup_editors-again (f ∷ fs) =
        let (a, b, c) = setup_editors-again fs in
        let (i, d) = setup_single_editor-starts f in
        let o = setup_single_editor-old (setup_single_editor from_markdown new_quill f).0 i in
        (
          (i, a),
          rw (d, b) (counted f.textarea.quill_initialized (uninitialized fs)),
          rw (o, c) refl,
        )
      where
        counted : (b : Bool) (n : ℕ) → (if not b then suc n else n) ≡ (if b then n else suc n)
        counted true n = refl
        counted false n = refl

  create_and_replace_textarea-IsBlocked :
      (f : Field)
      → f.textarea.required ≡ true
      → nonempty f.textarea.value ≡ false
      → is_read_only f ≡ false
      → (o : Option Delta) → f.editor ≡ none
      → IsBlocked (finish_setup (create_and_replace_textarea f) o).0
  unfolding finish_setup create_and_replace_textarea
  create_and_replace_textarea-IsBlocked f r v w none h = record {
    required = r;
    empty = v;
    writable = w;
    no_listener = λ e k. cc;
  }
  create_and_replace_textarea-IsBlocked f r v w (some contents) h = record {
    required = r;
    empty = v;
    writable = w;
    no_listener = λ e k. ground arith;
  }

  -- A required text area that is empty when the page has loaded never gets its form sent, whatever
  -- the user types into its editor: the browser's validation refuses each submission before the
  -- listener can copy the editor's contents into the text area.
  pub handle_all-setup_single_editor :
      (to_markdown : Node → Text) (f : Field) (es : List Event)
      → f.textarea.quill_initialized ≡ false
      → f.editor ≡ none
      → f.textarea.required ≡ true
      → nonempty f.textarea.value ≡ false
      → is_read_only f ≡ false
      → (handle_all to_markdown (setup_single_editor from_markdown new_quill f).0 es).sent ≡ f.sent
  handle_all-setup_single_editor to_markdown f es new h r v w =
      let o = initialize_quill_editor from_markdown new_quill f.textarea.value (is_read_only f) in
      let p = ap (λ r. r.0) (setup_single_editor-new f new) in
      rw p (
        handle_all-IsBlocked to_markdown (finish_setup (create_and_replace_textarea f) o).0 es
          (create_and_replace_textarea-IsBlocked f r v w o h)
        ∙ sent_lem o)
    where
      sent_lem :
          (o : Option Delta) → (finish_setup (create_and_replace_textarea f) o).0.sent ≡ f.sent
      sent_lem none = unfold finish_setup create_and_replace_textarea in refl
      sent_lem (some contents) = unfold finish_setup create_and_replace_textarea in refl
