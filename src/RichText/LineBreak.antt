-- ===== src/RichText/LineBreak.antt =====
-- What a line break of the delta does to the tree: processLineBreak and the functions that it calls
-- in examples/rich-text-editor/rich_text_editor.js. `mdast.children` is a list. `currentList` is an
-- alias of one of its members, and stands here as that member's index.
pub mod Items
pub mod TextNodes
pub mod Trees
pub mod Shape
pub mod Repeats
pub mod Code
use sqlpage.Prelude.{
  ℕ, zero, suc, ◌-◌, Bool, true, false, not, ◌||◌, Option, none, some, List, [], ◌∷◌, ◌++◌, Text,
  newline, nonempty, split, join, text_eq, length, get_elem?, last?, any, if◌then◌else◌,
  get_or_else, ltb,
}
use sqlpage.RichText.Delta.{
  Language, Attributes, active_text, active_number, active_language, ordered, fence_language,
}
use sqlpage.RichText.Mdast.{
  Node, Nodes, paragraph, heading, text, break, strong, emphasis, link, list, list_item, blockquote,
  code, nil, cons, ◌+++◌, single, children_of, same_nodes, same_language,
}

-- The nodes for the lines from index `i` on, with a `break` before each but the first.
unfoldable pub line_nodes : ℕ → List Text → Nodes
line_nodes i [] = nil
line_nodes i (s ∷ ss) =
    let rest = cons (text s) (line_nodes (suc i) ss) in if ltb 0 i then cons break rest else rest

unfoldable pub wrap_link : Option Text → Nodes → Nodes
wrap_link none ns = ns
wrap_link (some url) ns = single (link url ns)

unfoldable pub create_text_nodes : Text → Attributes → Nodes
unfolding line_nodes wrap_link split
create_text_nodes s a =
    let plain = line_nodes 0 (split newline s) in
    let bold = if a.bold then single (strong plain) else plain in
    let italic = if a.italic then single (emphasis bold) else bold in
    wrap_link (active_text a.link) italic

same_bool : Bool → Bool → Bool
same_bool true b = b
same_bool false b = not b

-- Whether a node is there, is a list, and has this value of `ordered`.
unfoldable pub is_list_of : Bool → Option Node → Bool
unfolding same_bool
is_list_of o (some (list p ns)) = same_bool p o
is_list_of o _ = false

-- Every case but the list that `currentList` names ends here.
find_or_push_list : List Node → Bool → List Node × ℕ
unfolding is_list_of
find_or_push_list cs o =
    if is_list_of o (last? cs) then (cs, length cs - 1) else (cs ++ list o nil ∷ [], length cs)

list_index : List Node → Bool → Option ℕ → List Node × ℕ
unfolding find_or_push_list is_list_of
list_index cs o none = find_or_push_list cs o
list_index cs o (some i) = if is_list_of o (get_elem? cs i) then (cs, i) else find_or_push_list cs o

unfoldable pub is_ordered : Text → Bool
unfolding text_eq
is_ordered s = text_eq s ordered

-- `list_type` is the value of `attributes.list`.
unfoldable pub ensure_list : List Node → Text → Option ℕ → List Node × ℕ
unfolding list_index is_ordered
ensure_list cs list_type current = list_index cs (is_ordered list_type) current

-- `list.children.push(item)` on the list at index `i`.
unfoldable pub push_item : List Node → ℕ → Node → List Node
push_item [] i item = []
push_item (list o ns ∷ cs) zero item = list o (ns +++ single item) ∷ cs
push_item (c ∷ cs) zero item = c ∷ cs
push_item (c ∷ cs) (suc i) item = c ∷ push_item cs i item

-- `node.children?.length === 1 && JSON.stringify(node.children[0].children) === paragraphContent`.
-- Nodes are built with their fields in one order, so equal JSON is equal content.
content_is : Nodes → Option Nodes → Bool
content_is content none = false
content_is content (some ns) = same_nodes ns content

unfoldable pub holds_only : Nodes → Node → Bool
unfolding content_is same_nodes
holds_only content (list_item (cons n nil)) = content_is content (children_of n)
holds_only content (blockquote (cons n nil)) = content_is content (children_of n)
holds_only content _ = false

pub items_at : List Node → ℕ → Nodes
items_at [] i = nil
items_at (list o ns ∷ cs) zero = ns
items_at (c ∷ cs) zero = nil
items_at (c ∷ cs) (suc i) = items_at cs i

unfoldable pub any_node : (Node → Bool) → Nodes → Bool
any_node p nil = false
any_node p (cons n ns) = p n || any_node p ns

unfoldable pub process_list_line_break : List Node → Nodes → Text → Option ℕ → List Node × Option ℕ
unfolding ensure_list holds_only items_at any_node push_item
process_list_line_break cs content list_type current =
    let found = ensure_list cs list_type current in
    if any_node (holds_only content) (items_at found.0 found.1)
    then (found.0, some found.1)
    else (push_item found.0 found.1 (list_item (single (paragraph content))), some found.1)

unfoldable pub is_blockquote_of : Nodes → Node → Bool
unfolding holds_only
is_blockquote_of content (blockquote ns) = holds_only content (blockquote ns)
is_blockquote_of content _ = false

unfoldable pub process_blockquote_line_break : List Node → Nodes → List Node
unfolding is_blockquote_of
process_blockquote_line_break cs content =
    if any (is_blockquote_of content) cs
    then cs
    else cs ++ blockquote (single (paragraph content)) ∷ []

abbrev init : List Text → List Text
init [] = []
init (s ∷ []) = []
init (s ∷ t ∷ ss) = s ∷ init (t ∷ ss)

unfoldable pub process_header_line_break : List Node → Text → ℕ → List Node
unfolding split join
process_header_line_break cs buffer depth =
    let lines = split newline buffer in
    let last_line = get_or_else (last? lines) [] in
    let previous = join newline (init lines) in
    let earlier = if nonempty previous then cs ++ paragraph (single (text previous)) ∷ [] else cs in
    if ltb 1 (length lines)
    then earlier ++ heading depth (single (text last_line)) ∷ []
    else cs ++ heading depth (single (text buffer)) ∷ []

unfoldable pub is_code_of : Option Language → Option Node → Bool
unfolding same_language
is_code_of lang (some (code s l)) = same_language l lang
is_code_of lang _ = false

-- The loop from `i = n - 1` down to 0.
unfoldable pub last_code : List Node → Option Language → ℕ → Option ℕ
unfolding is_code_of
last_code cs lang zero = none
last_code cs lang (suc i) =
    let rest = last_code cs lang i in if is_code_of lang (get_elem? cs i) then some i else rest

-- `lastCodeBlock.value += "\n" + line` on the node at index `i`.
unfoldable pub append_code : List Node → ℕ → Text → List Node
append_code [] i line = []
append_code (code s l ∷ cs) zero line = code (s ++ newline ∷ line) l ∷ cs
append_code (c ∷ cs) zero line = c ∷ cs
append_code (c ∷ cs) (suc i) line = c ∷ append_code cs i line

unfoldable pub code_at : List Node → Text → Option Language → Option ℕ → List Node
code_at cs line lang none = cs ++ code line lang ∷ []
code_at cs line lang (some i) = append_code cs i line

unfoldable pub process_code_line_break : List Node → Text → Language → List Node
unfolding fence_language last_code code_at append_code
process_code_line_break cs buffer language =
    let lang = fence_language language in code_at cs buffer lang (last_code cs lang (length cs))

unfoldable pub empty_item : Node
empty_item = list_item (single (paragraph nil))

unfoldable pub empty_blockquote : Node
empty_blockquote = blockquote (single (paragraph nil))

unfoldable pub push_empty_item : List Node × ℕ → List Node × Option ℕ
unfolding push_item empty_item
push_empty_item (cs, i) = (push_item cs i empty_item, some i)

-- The three tests of handleEmptyLineWithAttributes, in the order of the code, on the truthy values
-- of `code-block`, `list` and `blockquote`.
unfoldable pub empty_line_with :
    Option Language → Option Text → Bool → List Node → Option ℕ → List Node × Option ℕ
unfolding fence_language ensure_list push_empty_item empty_blockquote
empty_line_with (some l) t q cs current = (cs ++ code [] (fence_language l) ∷ [], current)
empty_line_with none (some t) q cs current = push_empty_item (ensure_list cs t current)
empty_line_with none none true cs current = (cs ++ empty_blockquote ∷ [], current)
empty_line_with none none false cs current = (cs, none)

unfoldable pub handle_empty_line : List Node → Attributes → Option ℕ → List Node × Option ℕ
unfolding empty_line_with
handle_empty_line cs a current =
    empty_line_with (active_language a.code_block) (active_text a.list) a.blockquote cs current

-- The four tests of processLineBreak on a line with a paragraph: `header`, `code-block`, `list` and
-- `blockquote`.
unfoldable pub filled_line_with :
    Option ℕ
    → Option Language
    → Option Text
    → Bool
    → List Node
    → Nodes
    → Text
    → Option ℕ
    → List Node × Option ℕ
unfolding process_header_line_break process_code_line_break process_list_line_break
    process_blockquote_line_break
filled_line_with (some d) l t q cs content buffer current =
    (process_header_line_break cs buffer d, none)
filled_line_with none (some l) t q cs content buffer current =
    (process_code_line_break cs buffer l, current)
filled_line_with none none (some t) q cs content buffer current =
    process_list_line_break cs content t current
filled_line_with none none none true cs content buffer current =
    (process_blockquote_line_break cs content, current)
filled_line_with none none none false cs content buffer current =
    (cs ++ paragraph content ∷ [], none)

unfoldable pub break_filled_line :
    List Node → Nodes → Attributes → Text → Option ℕ → List Node × Option ℕ
unfolding filled_line_with
break_filled_line cs content a buffer current =
    filled_line_with (active_number a.header) (active_language a.code_block) (active_text a.list)
      a.blockquote cs content buffer current

-- `none` for the paragraph is `null`.
unfoldable pub process_line_break :
    List Node → Option Nodes → Attributes → Text → Option ℕ → List Node × Option ℕ
unfolding handle_empty_line break_filled_line
process_line_break cs none a buffer current = handle_empty_line cs a current
process_line_break cs (some content) a buffer current =
    break_filled_line cs content a buffer current
