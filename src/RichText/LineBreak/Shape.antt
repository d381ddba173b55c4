-- ===== src/RichText/LineBreak/Shape.antt =====
-- processLineBreak, the shape of the tree and the alias `currentList`.
use sqlpage.Prelude.{
  ℕ, ◌≡◌, refl, ◌≢◌, Bool, true, false, Option, none, some, List, [], ◌∷◌, ◌++◌, newline, Text,
  Excludes, split-of_not_includes, length, Bool-cases, any, ◌<◌, inl, inr,
}
use sqlpage.RichText.Delta.{Attributes, Language, fence_language}
use sqlpage.RichText.Mdast.{Node, Nodes, paragraph, heading, text, blockquote, code, nil, single}
use sqlpage.RichText.Grammar.{IsInline, IsInlines, IsBlock, kind}
use sqlpage.RichText.LineBreak.{
  append_code, empty_item, process_header_line_break, process_code_line_break, code_at, last_code,
  process_blockquote_line_break, handle_empty_line, break_filled_line, empty_line_with,
  filled_line_with, is_blockquote_of, empty_blockquote,
}
use sqlpage.RichText.LineBreak.Items.{process_list_line_break-ItemBreak, push_empty_item-ItemBreak}
use sqlpage.RichText.LineBreak.Trees.{
  IsTree, IsCurrent, IsCurrent-append, IsDocument-snoc, ItemBreak-IsTree, kinds-append_code,
  blocks-append_code, get_elem?-append_code, active_number-pos,
}

module _ {cs : List Node} {current : Option ℕ} (t : IsTree cs current) where
  IsTree-snoc : (n : Node) → kind n ≡ none → IsBlock n → IsTree (cs ++ n ∷ []) current
  IsTree-snoc n k b = record {
    document = IsDocument-snoc n k b t.document;
    alias = IsCurrent-append cs n current t.alias;
  }

  IsTree-code_at :
      (line : Text) (lang : Option Language) (i : Option ℕ)
      → IsTree (code_at cs line lang i) current
  unfolding code_at
  IsTree-code_at line lang none = IsTree-snoc (code line lang) refl tt
  IsTree-code_at line lang (some i) = record {
    document = record {
      blocks = blocks-append_code cs i line t.document.blocks;
      lists = rw kinds-append_code t.document.lists;
    };
    alias = go current t.alias;
  }
    where
      go : (c : Option ℕ) → IsCurrent cs c → IsCurrent (append_code cs i line) c
      go none h = tt
      go (some j) (o, ns, e) = (o, ns, get_elem?-append_code cs i j line e)

  empty_line_with-IsTree :
      (l : Option Language) (s : Option Text) (q : Bool)
      → IsTree (empty_line_with l s q cs current).0 (empty_line_with l s q cs current).1
  unfolding empty_line_with empty_blockquote empty_item IsInline
  empty_line_with-IsTree (some l) s q = IsTree-snoc (code [] (fence_language l)) refl tt
  empty_line_with-IsTree none (some s) q =
      ItemBreak-IsTree (push_empty_item-ItemBreak cs s current) tt t.document
  empty_line_with-IsTree none none true = IsTree-snoc (blockquote (single (paragraph nil))) refl tt
  empty_line_with-IsTree none none false = record { document = t.document; alias = tt }

  -- A line break with no open paragraph.
  pub handle_empty_line-IsTree :
      (a : Attributes)
      → IsTree (handle_empty_line cs a current).0 (handle_empty_line cs a current).1
  unfolding handle_empty_line
  handle_empty_line-IsTree a = empty_line_with-IsTree _ _ _

  blockquote_line-IsTree :
      (content : Nodes)
      → IsInlines content
      → IsTree (process_blockquote_line_break cs content) current
  unfolding process_blockquote_line_break
  blockquote_line-IsTree content p = elim (Bool-cases (any (is_blockquote_of content) cs)) [
    | inl old ↦ rw old t
    | inr new ↦ rw new (IsTree-snoc (blockquote (single (paragraph content))) refl p)
  ]

  header_line-IsTree :
      (buffer : Text) (d : ℕ)
      → 0 < d
      → Excludes newline buffer
      → IsTree (process_header_line_break cs buffer d) none
  unfolding process_header_line_break
  header_line-IsTree buffer d pos x = rw (split-of_not_includes newline buffer x) (record {
    document = IsDocument-snoc (heading d (single (text buffer))) refl (pos, x) t.document;
    alias = tt;
  })

  filled_line_with-IsTree :
      (d : Option ℕ) (l : Option Language) (s : Option Text) (q : Bool) (content : Nodes)
      (buffer : Text)
      → IsInlines content
      → content ≢ nil
      → Excludes newline buffer
      → ((n : ℕ) → d ≡ some n → 0 < n)
      → IsTree
          (filled_line_with d l s q cs content buffer current).0
          (filled_line_with d l s q cs content buffer current).1
  unfolding filled_line_with process_code_line_break IsInline
  filled_line_with-IsTree (some d) l s q content buffer p ne x pos =
      header_line-IsTree buffer d (pos d refl) x
  filled_line_with-IsTree none (some l) s q content buffer p ne x pos =
      IsTree-code_at buffer (fence_language l) (last_code cs (fence_language l) (length cs))
  filled_line_with-IsTree none none (some s) q content buffer p ne x pos =
      ItemBreak-IsTree (process_list_line_break-ItemBreak cs content s current) p t.document
  filled_line_with-IsTree none none none true content buffer p ne x pos =
      blockquote_line-IsTree content p
  filled_line_with-IsTree none none none false content buffer p ne x pos = record {
    document = IsDocument-snoc (paragraph content) refl (p, ne) t.document;
    alias = tt;
  }

  -- A line break that ends an open paragraph. The buffer holds no line break, so that a heading
  -- takes it whole.
  pub break_filled_line-IsTree :
      (content : Nodes) (a : Attributes) (buffer : Text)
      → IsInlines content
      → content ≢ nil
      → Excludes newline buffer
      → IsTree
          (break_filled_line cs content a buffer current).0
          (break_filled_line cs content a buffer current).1
  unfolding break_filled_line
  break_filled_line-IsTree content a buffer p ne x =
      filled_line_with-IsTree _ _ _ _ content buffer p ne x (active_number-pos a.header)
