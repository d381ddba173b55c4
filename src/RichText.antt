-- ===== src/RichText.antt =====
-- The rich text editor of examples/rich-text-editor/rich_text_editor.js: conversions between a Quill
-- delta and a Markdown tree (mdast).
pub mod Delta
pub mod Mdast
pub mod Grammar
pub mod LineBreak
pub mod ToMdast
pub mod ToDelta
pub mod Blocks
pub mod RoundTrip
mod Tests
