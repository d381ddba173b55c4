-- ===== src/Bootstrap.antt =====
-- init_bootstrap_components of sqlpage/sqlpage.js: which of Bootstrap's components it makes for the
-- elements of a fragment that has loaded. The elements E are of any type.
mod Tests
use sqlpage.Prelude.{
  Bool, true, false, Option, none, some, List, [], ◌∷◌, ◌++◌, map, if◌then◌else◌, Text, codes,
  text_eq,
}
use Prim.Native.String.{String}

-- An element with its attributes `data-bs-toggle` and `data-bs-ride`.
pub record BootstrapElement (E : Type 0) : Type 0 where
  pub el : E
  pub toggle : Option Text
  pub ride : Option Text

pub data Component (E : Type 0) : Type 0 where
  tooltip : E → Component E
  popover : E → Component E
  dropdown : E → Component E
  carousel : E → Component E

abbrev pub is_value : String → Option Text → Bool
is_value value none = false
is_value value (some t) = text_eq t (codes value)

module _ {E : Type 0} where
  -- `fragment.querySelectorAll` for a value of an attribute.
  unfoldable pub query_all :
      (BootstrapElement E → Option Text) → String → List (BootstrapElement E) → List E
  query_all attribute value [] = []
  query_all attribute value (e ∷ es) =
      let rest = query_all attribute value es in
      if is_value value (attribute e) then e.el ∷ rest else rest

  -- The new components, in the order in which they are made; `has_bootstrap` is `window.bootstrap`.
  unfoldable pub init_bootstrap_components : Bool → List (BootstrapElement E) → List (Component E)
  unfolding query_all
  init_bootstrap_components false es = []
  init_bootstrap_components true es =
      map tooltip (query_all (λ e. e.toggle) "tooltip" es)
      ++ (map popover (query_all (λ e. e.toggle) "popover" es)
          ++ (map dropdown (query_all (λ e. e.toggle) "dropdown" es)
              ++ map carousel (query_all (λ e. e.ride) "carousel" es)))
