-- ===== src/RichText/Delta.antt =====
-- Quill deltas: the typedefs QuillAttributes, QuillOperation and QuillDelta of
-- examples/rich-text-editor/rich_text_editor.js. An attribute object is a record; a key that is not
-- there is `false` or `none`. A number, a text or a language may still be falsy (0, ""), so the
-- tests of the code go through the `active_` functions.
use sqlpage.Prelude.{
  ℕ, zero, suc, Bool, false, Option, none, some, List, [], ◌∷◌, ◌++◌, ◌≡◌, refl, append_assoc, Text,
  codes, text_eq, if◌then◌else◌,
}

-- The value of `code-block`: `true`, or the language's name.
pub data Language : Type 0 where
  flag : Language
  named : Text → Language

pub record Attributes : Type 0 where
  pub bold : Bool
  pub italic : Bool
  pub code : Bool
  pub blockquote : Bool
  pub link : Option Text
  pub header : Option ℕ
  pub list : Option Text
  pub code_block : Option Language
  pub alt : Option Text

-- The object `{}`.
abbrev pub no_attributes : Attributes
no_attributes = record {
  bold = false;
  italic = false;
  code = false;
  blockquote = false;
  link = none;
  header = none;
  list = none;
  code_block = none;
  alt = none;
}

-- The value of `insert`: a text, an object with an `image`, another object, or no `insert` at all
-- (an operation that retains or deletes).
pub data Insert : Type 0 where
  text : Text → Insert
  image : Text → Insert
  embed : Insert
  missing : Insert

pub record Op : Type 0 where
  pub insert : Insert
  pub attributes : Option Attributes

abbrev pub Delta : Type 0
Delta = List Op

-- A value that JavaScript takes for true, or `none`.
abbrev pub active_text : Option Text → Option Text
active_text none = none
active_text (some []) = none
active_text (some (c ∷ s)) = some (c ∷ s)

abbrev pub active_number : Option ℕ → Option ℕ
active_number none = none
active_number (some zero) = none
active_number (some (suc n)) = some (suc n)

abbrev pub active_language : Option Language → Option Language
active_language none = none
active_language (some flag) = some flag
active_language (some (named [])) = none
active_language (some (named (c ∷ s))) = some (named (c ∷ s))

abbrev pub ordered : Text
ordered = codes "ordered"

abbrev pub bullet : Text
bullet = codes "bullet"

-- `attributes["code-block"] === "plain" ? null : attributes["code-block"]`
unfoldable pub fence_language : Language → Option Language
unfolding text_eq
fence_language flag = some flag
fence_language (named s) = if text_eq s (codes "plain") then none else some (named s)

abbrev pub inserted : Insert → Text
inserted (Insert.text t) = t
inserted _ = []

-- The text that a delta inserts.
abbrev pub delta_text : Delta → Text
delta_text [] = []
delta_text (op ∷ d) = inserted op.insert ++ delta_text d

pub delta_text-append : (d e : Delta) → delta_text (d ++ e) ≡ delta_text d ++ delta_text e
delta_text-append [] e = refl
delta_text-append (op ∷ d) e = rw (delta_text-append d e, append_assoc)
