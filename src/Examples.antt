-- ===== src/Examples.antt =====
-- The scripts of two examples of the repository.
pub mod CodeEditor
pub mod ReactComponent
