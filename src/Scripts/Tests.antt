-- ===== src/Scripts/Tests.antt =====
-- Runs of load_scripts of sqlpage/sqlpage.js, and the theorems at concrete inputs.
use sqlpage.Prelude.{
  ◌≡◌, refl, Option, none, some, List, [], ◌∷◌, ◌++◌, Text, codes, text_eq, text_eq_iff, Eq,
  IsDistinct, has, add,
}
use sqlpage.Scripts.{load_scripts}
use sqlpage.Scripts.Once.{Apart, load_scripts-added}

instance eq_url : Eq Text
eq_url = record { beq = text_eq; beq_iff = text_eq_iff }

abbrev requested : List Text
requested = codes "b.js" ∷ codes "a.js" ∷ codes "b.js" ∷ []

abbrev on_page : List Text
on_page = codes "a.js" ∷ []

load_scripts-run : load_scripts some requested on_page ≡ codes "a.js" ∷ codes "b.js" ∷ []
unfolding load_scripts sqlpage.Prelude.add text_eq eq_url sqlpage.Prelude.add_all
load_scripts-run = refl

load_scripts-added_example :
    (added : List Text) × (load_scripts some requested on_page ≡ on_page ++ added)
    × IsDistinct added
    × Apart on_page added
load_scripts-added_example = load_scripts-added some requested on_page
