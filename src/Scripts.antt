-- ===== src/Scripts.antt =====
-- load_scripts of sqlpage/sqlpage.js. `resolve` is the URL of an element's script against the
-- address of the page, which is `none` where `new URL` throws.
pub mod Once
mod Tests
use sqlpage.Prelude.{
  Bool, true, false, Option, none, some, List, [], ◌∷◌, ◌++◌, if◌then◌else◌, Text, Eq, has, add,
  add_all,
}

module _ {U : Type 0} ⦃e : Eq U⦄ where
  -- One element with `data-sqlpage-js`: the set of known scripts, the `src` of the page's script
  -- elements and the rest of the loop, which an exception ends.
  unfoldable pub load_script : (List U → List U → List U) → List U → List U → Option U → List U
  load_script next existing scripts none = scripts
  load_script next existing scripts (some js) =
      if has js existing then next existing scripts else next (add existing js) (scripts ++ js ∷ [])

  module _ (resolve : Text → Option U) where
    unfoldable pub load_from : List Text → List U → List U → List U
    unfolding load_script
    load_from [] existing scripts = scripts
    load_from (el ∷ els) existing scripts =
        load_script (λ existing' scripts'. load_from els existing' scripts') existing scripts
          (resolve el)

    unfoldable pub load_scripts : List Text → List U → List U
    unfolding load_from
    load_scripts els scripts = load_from els (add_all [] scripts) scripts
