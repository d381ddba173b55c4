-- ===== src/Editor/Submit.antt =====
-- What the form of an editor sends, in updateTextareaOnSubmit of
-- examples/rich-text-editor/rich_text_editor.js.
use sqlpage.Prelude.{
  ◌≡◌, refl, sym, ◌∙◌, subst, Bool, true, false, not, ◌&&◌, ◌||◌, Option, none, some, List, [], ◌∷◌,
  ◌++◌, if◌then◌else◌, ltb, Text, nonempty, All, All-append, arith, Bool-cases, inl, inr, ◌⊎◌,
}
use sqlpage.RichText.Delta.{Delta}
use sqlpage.RichText.Mdast.{Node}
use sqlpage.Editor.{
  Textarea, Editor, Field, Event, changed, submit_clicked, is_valid, sent_value, delta_to_markdown,
  on_text_change, on_submit, submit_form, change_text, handle, handle_all,
}

-- A field whose text area is required and empty and takes part in validation, and whose editor has
-- no listener that waits.
pub record IsBlocked (f : Field) : Type 0 where
  pub required : f.textarea.required ≡ true
  pub empty : nonempty f.textarea.value ≡ false
  pub writable : f.textarea.read_only || f.textarea.disabled ≡ false
  pub no_listener : (e : Editor) → f.editor ≡ some e → e.waiting ≡ 0

-- A value that was sent is not empty.
abbrev pub IsFilled : Option Text → Type 0
IsFilled none = Unit
IsFilled (some v) = nonempty v ≡ true

-- The form has the listener, the text area is required, and what was sent is not empty.
pub record IsGuarded (f : Field) : Type 0 where
  pub required : f.textarea.required ≡ true
  pub listens : f.on_form ≡ true
  pub has_editor : (e : Editor) × (f.editor ≡ some e)
  pub filled : All IsFilled f.sent

is_valid-false :
    (t : Textarea)
    → t.required ≡ true
    → nonempty t.value ≡ false
    → t.read_only || t.disabled ≡ false
    → is_valid t ≡ false
unfolding is_valid
is_valid-false t r e w = rw (w, r, e) refl

module _ (to_markdown : Node → Text) where
  change_text-IsBlocked :
      (change contents : Delta) (f : Field) (o : Option Editor)
      → f.editor ≡ o
      → IsBlocked f
      → IsBlocked (change_text to_markdown change contents f o)
        × ((change_text to_markdown change contents f o).sent ≡ f.sent)
  unfolding change_text on_text_change
  change_text-IsBlocked change contents f none h b = (b, refl)
  change_text-IsBlocked change contents f (some e) h b =
      let still : ltb 0 e.waiting ≡ false = ground (arith, b.no_listener e h) in
      rw still (
        record {
          required = b.required;
          empty = b.empty;
          writable = b.writable;
          no_listener = λ e' g. ground (arith, b.no_listener e h);
        },
        refl,
      )

  handle-IsBlocked :
      (f : Field) (e : Event)
      → IsBlocked f
      → IsBlocked (handle to_markdown f e) × ((handle to_markdown f e).sent ≡ f.sent)
  unfolding handle
  handle-IsBlocked f (submit_clicked others cancelled) b =
      rw (is_valid-false f.textarea b.required b.empty b.writable) (b, refl)
  handle-IsBlocked f (changed change contents) b =
      change_text-IsBlocked change contents f f.editor refl b

  -- A required text area that is empty when the page has loaded keeps the form from being sent,
  -- whatever the user types: the browser's validation refuses each submission before the listener
  -- can copy the editor's contents into the text area.
  pub handle_all-IsBlocked :
      (f : Field) (es : List Event) → IsBlocked f → (handle_all to_markdown f es).sent ≡ f.sent
  unfolding handle_all
  handle_all-IsBlocked f [] b = refl
  handle_all-IsBlocked f (e ∷ es) b =
      let (c, same) = handle-IsBlocked f e b in
      handle_all-IsBlocked (handle to_markdown f e) es c ∙ same

  submit_form-IsGuarded :
      (cancelled : Bool) (f : Field) (e : Editor)
      → f.textarea.required ≡ true
      → f.on_form ≡ true
      → f.editor ≡ some e
      → All IsFilled f.sent
      → IsGuarded (submit_form to_markdown cancelled f true (some e))
  unfolding submit_form on_submit
  submit_form-IsGuarded true f e r l h s =
      elim (Bool-cases (nonempty (delta_to_markdown to_markdown e.contents))) [
        | inl full ↦
            rw (r, full) (record { required = refl; listens = l; has_editor = (e, h); filled = s })
        | inr empty ↦
            rw (r, empty)
              (record { required = refl; listens = l; has_editor = (_, refl); filled = s })
      ]
  submit_form-IsGuarded false f e r l h s =
      elim (Bool-cases (nonempty (delta_to_markdown to_markdown e.contents))) [
        | inl full ↦
            rw (r, full)
              (record {
                required = refl;
                listens = l;
                has_editor = (e, h);
                filled =
                    All-append IsFilled f.sent
                      (sent_value
                          (record f.textarea { value = delta_to_markdown to_markdown e.contents })
                        ∷ [])
                      s
                      (
                        sent_filled f.textarea.disabled (delta_to_markdown to_markdown e.contents)
                            full,
                        tt,
                      );
              })
        | inr empty ↦
            rw (r, empty)
              (record { required = refl; listens = l; has_editor = (_, refl); filled = s })
      ]
    where
      sent_filled :
          (d : Bool) (v : Text) → nonempty v ≡ true → IsFilled (if d then none else some v)
      sent_filled true v full = tt
      sent_filled false v full = full

  change_text-IsGuarded :
      (change contents : Delta) (f : Field) (e : Editor)
      → f.textarea.required ≡ true
      → f.on_form ≡ true
      → All IsFilled f.sent
      → IsGuarded (on_text_change to_markdown change contents f e)
  unfolding on_text_change
  change_text-IsGuarded change contents f e r l s = elim (Bool-cases (ltb 0 e.waiting)) [
    | inl a ↦ rw a (record { required = r; listens = l; has_editor = (_, refl); filled = s })
    | inr b ↦ rw b (record { required = r; listens = l; has_editor = (_, refl); filled = s })
  ]

  handle-IsGuarded : (f : Field) (e : Event) → IsGuarded f → IsGuarded (handle to_markdown f e)
  unfolding handle
  handle-IsGuarded f (submit_clicked others cancelled) g =
      let (e, h) = g.has_editor in
      elim (Bool-cases (is_valid f.textarea && others)) [
        | inl valid ↦ rw valid (
            subst2 f.on_form f.editor (sym g.listens) (sym h)
              (submit_form-IsGuarded cancelled f e g.required g.listens h g.filled))
        | inr refused ↦ rw refused g
      ]
    where
      subst2 :
          {e : Editor} (b : Bool) (o : Option Editor)
          → true ≡ b
          → some e ≡ o
          → IsGuarded (submit_form to_markdown cancelled f true (some e))
          → IsGuarded (submit_form to_markdown cancelled f b o)
      subst2 b o p q k =
          subst (λ z. IsGuarded (submit_form to_markdown cancelled f z o)) p
            (subst (λ z. IsGuarded (submit_form to_markdown cancelled f true z)) q k)
  handle-IsGuarded f (changed change contents) g =
      let (e, h) = g.has_editor in
      subst (λ o. IsGuarded (change_text to_markdown change contents f o)) (sym h)
        (unfold change_text in
          change_text-IsGuarded change contents f e g.required g.listens g.filled)

  -- The form of a required text area with an editor never sends an empty value, whatever the user
  -- does.
  pub handle_all-IsGuarded :
      (f : Field) (es : List Event) → IsGuarded f → All IsFilled (handle_all to_markdown f es).sent
  unfolding handle_all
  handle_all-IsGuarded f [] g = g.filled
  handle_all-IsGuarded f (e ∷ es) g =
      handle_all-IsGuarded (handle to_markdown f e) es (handle-IsGuarded f e g)

  -- A click on the button of a form with the listener and an editor sends nothing, or the Markdown of
  -- the editor's contents, which is not empty if the text area is required.
  pub handle-submit_clicked :
      (f : Field) (e : Editor) (others cancelled : Bool)
      → f.on_form ≡ true
      → f.editor ≡ some e
      → ((handle to_markdown f (submit_clicked others cancelled)).sent ≡ f.sent)
        ⊎ (((handle to_markdown f (submit_clicked others cancelled)).sent
              ≡ f.sent
                ++ (if f.textarea.disabled
                    then none
                    else some (delta_to_markdown to_markdown e.contents))
                  ∷ [])
            × (f.textarea.required && not (nonempty (delta_to_markdown to_markdown e.contents))
                ≡ false))
  unfolding handle submit_form on_submit
  handle-submit_clicked f e others true l h = elim (Bool-cases (is_valid f.textarea && others)) [
    | inr refused ↦ rw refused (inl refl)
    | inl valid ↦
        elim (Bool-cases
          (f.textarea.required && not (nonempty (delta_to_markdown to_markdown e.contents)))) [
            | inl empty ↦ rw (valid, l, h, empty) (inl refl)
            | inr full ↦ rw (valid, l, h, full) (inl refl)
          ]
  ]
  handle-submit_clicked f e others false l h = elim (Bool-cases (is_valid f.textarea && others)) [
    | inr refused ↦ rw refused (inl refl)
    | inl valid ↦
        elim (Bool-cases
          (f.textarea.required && not (nonempty (delta_to_markdown to_markdown e.contents)))) [
            | inl empty ↦ rw (valid, l, h, empty) (inl refl)
            | inr full ↦ rw (valid, l, h, full) (inr (refl, refl))
          ]
  ]
