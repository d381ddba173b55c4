-- ===== src/RichText/LineBreak/Code.antt =====
-- processCodeBlockLineBreak: which code block a line of code goes to.
use native.Mathlib.Nat.{zero-add, suc-add}
use sqlpage.Prelude.{
  ℕ, zero, suc, ◌+◌, ◌≡◌, refl, ap, ◌∙◌, false, Option, none, some, List, [], ◌∷◌, ◌++◌, Text,
  newline, length, length-append, get_elem?, get_elem?-append_right, get_elem?-append-cons, All,
  append_assoc, arith,
}
use sqlpage.RichText.Delta.{Language, fence_language}
use sqlpage.RichText.Mdast.{Node, code, same_language_iff}
use sqlpage.RichText.LineBreak.{is_code_of, last_code, append_code, process_code_line_break}

-- No node of the list is a code block in this language.
abbrev pub NoCode : Option Language → List Node → Type 0
NoCode lang = All (λ n. is_code_of lang (some n) ≡ false)

NoCode-get_elem? :
    (lang : Option Language) (cs : List Node) (k : ℕ)
    → NoCode lang cs
    → is_code_of lang (get_elem? cs k) ≡ false
NoCode-get_elem? lang [] k h = unfold is_code_of in refl
NoCode-get_elem? lang (c ∷ cs) zero (p, h) = p
NoCode-get_elem? lang (c ∷ cs) (suc k) (p, h) = NoCode-get_elem? lang cs k h

-- The search passes over what follows the last block in the language.
last_code-skip :
    (lang : Option Language) (before after : List Node) (k : ℕ)
    → NoCode lang after
    → last_code (before ++ after) lang (k + length before)
      ≡ last_code (before ++ after) lang (length before)
unfolding last_code
last_code-skip lang before after zero h = rw zero-add
last_code-skip lang before after (suc k) h =
    rw (suc-add, get_elem?-append_right before after k, NoCode-get_elem? lang after k h)
      (last_code-skip lang before after k h)

last_code-found :
    (lang : Option Language) (before after : List Node) (s : Text)
    → NoCode lang after
    → last_code (before ++ code s lang ∷ after) lang (length (before ++ code s lang ∷ after))
      ≡ some (length before)
last_code-found lang before after s h =
    let cs : List Node = before ++ code s lang ∷ after in
    let pre : List Node = before ++ code s lang ∷ [] in
    let same : pre ++ after ≡ cs = append_assoc before (code s lang ∷ []) after in
    let all : length cs ≡ length after + length pre = omega (
      arith,
      length-append before (code s lang ∷ after),
      length-append before (code s lang ∷ []),
    ) in
    let one : length pre ≡ suc (length before) =
      omega (arith, length-append before (code s lang ∷ [])) in
    let skip : last_code (pre ++ after) lang (length after + length pre)
        ≡ last_code (pre ++ after) lang (length pre) =
      last_code-skip lang pre after (length after) h in
    ap (last_code cs lang) all
    ∙ rw same at skip
    ∙ ap (last_code cs lang) one
    ∙ (unfold last_code is_code_of in
        rw (get_elem?-append-cons before after (code s lang), (same_language_iff lang lang).1 refl))

append_code_at :
    (before after : List Node) (s line : Text) (lang : Option Language)
    → append_code (before ++ code s lang ∷ after) (length before) line
      ≡ before ++ code (s ++ newline ∷ line) lang ∷ after
unfolding append_code
append_code_at [] after s line lang = refl
append_code_at (c ∷ before) after s line lang = ap (c ∷◌) (append_code_at before after s line lang)

-- A line of code is added, behind a line break, to the last block in its language, wherever in the
-- tree that block stands; all other nodes stay as they are.
pub process_code_line_break-known :
    (before after : List Node) (s line : Text) (l : Language)
    → NoCode (fence_language l) after
    → process_code_line_break (before ++ code s (fence_language l) ∷ after) line l
      ≡ before ++ code (s ++ newline ∷ line) (fence_language l) ∷ after
unfolding process_code_line_break
process_code_line_break-known before after s line l h =
    rw (last_code-found (fence_language l) before after s h)
      (append_code_at before after s line (fence_language l))

-- Without a block in its language, a line of code is a new block at the end.
pub process_code_line_break-new :
    (cs : List Node) (line : Text) (l : Language)
    → NoCode (fence_language l) cs
    → process_code_line_break cs line l ≡ cs ++ code line (fence_language l) ∷ []
unfolding process_code_line_break
process_code_line_break-new cs line l h =
    let none_found : last_code cs (fence_language l) (length cs) ≡ none =
      ap (last_code cs (fence_language l)) (omega arith)
      ∙ last_code-skip (fence_language l) [] cs (length cs) h
      ∙ (unfold last_code in refl) in
    rw none_found
