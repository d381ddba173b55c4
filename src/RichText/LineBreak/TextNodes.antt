-- ===== src/RichText/LineBreak/TextNodes.antt =====
-- What createTextNodes of examples/rich-text-editor/rich_text_editor.js makes of one line.
use sqlpage.Prelude.{
  ◌≡◌, refl, ◌≢◌, Bool, true, false, Option, none, some, Text, newline, Excludes,
  split-of_not_includes, if◌then◌else◌, [], ◌∷◌,
}
use sqlpage.RichText.Delta.{Attributes, active_text}
use sqlpage.RichText.Mdast.{Node, text, strong, emphasis, link, single, nil}
use sqlpage.RichText.Grammar.{IsInline, IsInlines}
use sqlpage.RichText.LineBreak.{create_text_nodes, wrap_link, line_nodes}

abbrev pub in_link : Option Text → Node → Node
in_link none n = n
in_link (some url) n = link url (single n)

-- The marks as single nodes round a text.
abbrev pub formatted : Attributes → Text → Node
formatted a s = in_link (active_text a.link) (
    if a.italic
    then emphasis (single (if a.bold then strong (single (text s)) else text s))
    else (if a.bold then strong (single (text s)) else text s))

wrap_marks :
    (bold italic : Bool) (url : Option Text) (s : Text)
    → wrap_link url (
        if italic
        then single (emphasis (if bold then single (strong (single (text s))) else single (text s)))
        else (if bold then single (strong (single (text s))) else single (text s)))
      ≡ single (
          in_link url (
            if italic
            then emphasis (single (if bold then strong (single (text s)) else text s))
            else (if bold then strong (single (text s)) else text s)))
unfolding wrap_link
wrap_marks true true none s = refl
wrap_marks true true (some u) s = refl
wrap_marks true false none s = refl
wrap_marks true false (some u) s = refl
wrap_marks false true none s = refl
wrap_marks false true (some u) s = refl
wrap_marks false false none s = refl
wrap_marks false false (some u) s = refl

pub create_text_nodes-formatted :
    (s : Text) (a : Attributes)
    → Excludes newline s
    → create_text_nodes s a ≡ single (formatted a s)
unfolding create_text_nodes line_nodes
create_text_nodes-formatted s a x =
    rw (split-of_not_includes newline s x) (wrap_marks a.bold a.italic (active_text a.link) s)

active_text-ne : (t : Option Text) (u : Text) → active_text t ≡ some u → u ≢ []
active_text-ne none u e = cc
active_text-ne (some []) u e = cc
active_text-ne (some (c ∷ s)) u e = λ f. cc

in_link-IsInline :
    (url : Option Text) (n : Node)
    → ((u : Text) → url ≡ some u → u ≢ [])
    → IsInline n
    → IsInline (in_link url n)
unfolding IsInline
in_link-IsInline none n ne p = p
in_link-IsInline (some u) n ne p = (ne u refl, (p, tt))

marks-IsInline :
    (bold italic : Bool) (s : Text)
    → Excludes newline s
    → IsInline (
        if italic
        then emphasis (single (if bold then strong (single (text s)) else text s))
        else (if bold then strong (single (text s)) else text s))
unfolding IsInline
marks-IsInline true true s x = ((x, tt), tt)
marks-IsInline true false s x = (x, tt)
marks-IsInline false true s x = (x, tt)
marks-IsInline false false s x = x

pub create_text_nodes-IsInlines :
    (s : Text) (a : Attributes)
    → Excludes newline s
    → IsInlines (create_text_nodes s a) × (create_text_nodes s a ≢ nil)
unfolding IsInline
create_text_nodes-IsInlines s a x = rw (create_text_nodes-formatted s a x) (
  (in_link-IsInline _ _ (active_text-ne a.link) (marks-IsInline a.bold a.italic s x), tt),
  λ e. cc,
)
