-- ===== src/Examples/CodeEditor/Tests.antt =====
-- A run of the code editor's page.
use sqlpage.Prelude.{◌≡◌, refl, [], ◌∷◌, codes}
use sqlpage.Examples.CodeEditor.{
  CodePage, code_page, set_require_config, on_monaco_load, type_text, submit_code,
}

abbrev loaded : CodePage
loaded = on_monaco_load (set_require_config (code_page (codes "select 1")))

sent-run :
    (submit_code (type_text (codes "select 2") loaded.editor loaded)).sent ≡ codes "select 2" ∷ []
unfolding on_monaco_load set_require_config type_text submit_code
sent-run = refl
