-- ===== src/Examples/CodeEditor/Shown.antt =====
-- That the form sends what the user sees.
use sqlpage.Prelude.{◌≡◌, refl, subst, Bool, true, false, Option, none, some, [], ◌∷◌, ◌++◌, Text}
use sqlpage.Examples.CodeEditor.{
  CodePage, set_require_config, on_monaco_load, type_text, copy_contents, send_code, submit_code,
  loader_loaded, module_loaded, typed, submitted, Reachable, at_start, later,
}

-- The text that the user sees: that of the editor, or that of the text area if there is no editor.
abbrev pub shown_text : Option Text → Text → Text
shown_text none value = value
shown_text (some contents) value = contents

-- The form has the listener if there is an editor.
abbrev IsListening : Option Text → Bool → Type 0
IsListening none listener = Unit
IsListening (some contents) listener = listener ≡ true

IsListening-type_text :
    (t : Text) (e : Option Text) (p : CodePage)
    → p.editor ≡ e
    → IsListening p.editor p.has_listener
    → IsListening (type_text t e p).editor (type_text t e p).has_listener
unfolding type_text
IsListening-type_text t none p h l = l
IsListening-type_text t (some contents) p h l = subst (λ e. IsListening e p.has_listener) h l

IsListening-copy_contents :
    (b : Bool) (e : Option Text) (p : CodePage)
    → IsListening p.editor p.has_listener
    → IsListening (copy_contents b e p).editor (copy_contents b e p).has_listener
unfolding copy_contents
IsListening-copy_contents true none p l = l
IsListening-copy_contents true (some contents) p l = l
IsListening-copy_contents false e p l = l

Reachable-IsListening :
    (value : Text) (p : CodePage) → Reachable value p → IsListening p.editor p.has_listener
unfolding set_require_config on_monaco_load submit_code
Reachable-IsListening value p at_start = tt
Reachable-IsListening value p (later r (loader_loaded h)) = Reachable-IsListening value _ r
Reachable-IsListening value p (later r (module_loaded h)) = refl
Reachable-IsListening value p (later {p = q} r (typed t)) =
    IsListening-type_text t q.editor q refl (Reachable-IsListening value q r)
Reachable-IsListening value p (later {p = q} r submitted) =
    IsListening-copy_contents q.has_listener q.editor q (Reachable-IsListening value q r)

sent-submit :
    (b : Bool) (e : Option Text) (p : CodePage)
    → IsListening e b
    → (send_code (copy_contents b e p)).sent ≡ p.sent ++ shown_text e p.value ∷ []
unfolding copy_contents
sent-submit true none p l = refl
sent-submit false none p l = refl
sent-submit true (some contents) p l = refl
sent-submit false (some contents) p l = cc

-- On every page that is reached, a submission sends the text that the user sees.
pub Reachable-sent :
    (value : Text) (p : CodePage)
    → Reachable value p
    → (submit_code p).sent ≡ p.sent ++ shown_text p.editor p.value ∷ []
unfolding submit_code
Reachable-sent value p r = sent-submit p.has_listener p.editor p (Reachable-IsListening value p r)
