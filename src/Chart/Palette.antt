-- ===== src/Chart/Palette.antt =====
-- The colours of a chart in sqlpage/apexcharts.js: tblrColors, colorNames and the list that
-- build_sqlpage_chart makes of the names in `data.colors`.
use Prim.Native.String.{String}
use sqlpage.Prelude.{
  ◌≡◌, Bool, true, false, ◌||◌, List, [], ◌∷◌, ◌++◌, map, if◌then◌else◌, Text, codes, text_eq,
  nonempty, All, Bool-cases, inl, inr,
}
use sqlpage.Chart.Grouping.{is_inherited}

pub record TablerColor : Type 0 where
  pub name : Text
  pub dark : Text
  pub light : Text

abbrev named : String → String → String → TablerColor
named name dark light = record { name = codes name; dark = codes dark; light = codes light }

unfoldable pub tblr_colors : List TablerColor
tblr_colors =
    named "blue" "#1c31dc" "#3399FF"
    ∷ named "red" "#d11414" "#FF6666"
    ∷ named "green" "#00CC00" "#66FF66"
    ∷ named "pink" "#FF1493" "#FF69B4"
    ∷ named "purple" "#ae3ec9" "#c264d9"
    ∷ named "orange" "#f76707" "#FFA500"
    ∷ named "cyan" "#00CED1" "#40E0D0"
    ∷ named "teal" "#008080" "#20B2AA"
    ∷ named "yellow" "#FFD700" "#FFFF00"
    ∷ named "indigo" "#4B0082" "#6F00FF"
    ∷ named "azure" "#007FFF" "#1E90FF"
    ∷ named "gray" "#A0A0A0" "#D3D3D3"
    ∷ named "black" "#000000" "#000000"
    ∷ named "white" "#E9E9E9" "#F5F5F5"
    ∷ []

-- A value of `colorNames`: a colour, what every object inherits, or undefined.
pub data Color : Type 0 where
  color : Text → Color
  inherited : Color
  undefined : Color

-- `${name}-lt`
abbrev pub light_name : Text → Text
light_name name = name ++ codes "-lt"

-- `colorNames[c]`: the entries of tblrColors, each under two names.
unfoldable pub color_named : Text → List TablerColor → Color
unfolding is_inherited
color_named c [] = if is_inherited c then inherited else undefined
color_named c (t ∷ ts) =
    if text_eq t.name c
    then color t.dark
    else if text_eq (light_name t.name) c
    then color t.light
    else color_named c ts

unfoldable pub chosen_colors : List Text → List Color
unfolding color_named tblr_colors
chosen_colors [] = []
chosen_colors (c ∷ cs) =
    if nonempty c then color_named c tblr_colors ∷ chosen_colors cs else chosen_colors cs

abbrev pub theme_color : Bool → TablerColor → Color
theme_color is_dark t = if is_dark then color t.dark else color t.light

abbrev pub other_color : Bool → TablerColor → Color
other_color is_dark t = if is_dark then color t.light else color t.dark

unfoldable pub chart_colors : Bool → List Text → List Color
unfolding chosen_colors tblr_colors
chart_colors is_dark_theme names =
    chosen_colors names
    ++ (map (theme_color is_dark_theme) tblr_colors ++ map (other_color is_dark_theme) tblr_colors)

-- Whether a name is that of a colour of tblrColors, or that with "-lt" behind it.
abbrev pub is_color_name : Text → List TablerColor → Bool
is_color_name c [] = false
is_color_name c (t ∷ ts) = (text_eq t.name c || text_eq (light_name t.name) c) || is_color_name c ts

abbrev pub IsColor : Color → Type 0
IsColor (color t) = Unit
IsColor inherited = ⊥
IsColor undefined = ⊥

color_named-IsColor :
    (c : Text) (ts : List TablerColor) → is_color_name c ts ≡ true → IsColor (color_named c ts)
unfolding color_named
color_named-IsColor c [] h = cc
color_named-IsColor c (t ∷ ts) h = elim (Bool-cases (text_eq t.name c)) [
  | inl a ↦ rw a tt
  | inr a ↦ elim (Bool-cases (text_eq (light_name t.name) c)) [
    | inl b ↦ rw (a, b) tt
    | inr b ↦
        let i : is_color_name c ts ≡ true = rw (a, b) at h in rw (a, b) (color_named-IsColor c ts i)
  ]
]

abbrev pub AllNamed : List Text → Type 0
AllNamed [] = Unit
AllNamed (c ∷ cs) = (nonempty c ≡ true → is_color_name c tblr_colors ≡ true) × AllNamed cs

All-append-IsColor : (xs ys : List Color) → All IsColor xs → All IsColor ys → All IsColor (xs ++ ys)
All-append-IsColor [] ys h k = k
All-append-IsColor (x ∷ xs) ys (p, h) k = (p, All-append-IsColor xs ys h k)

chosen_colors-IsColor : (cs : List Text) → AllNamed cs → All IsColor (chosen_colors cs)
unfolding chosen_colors
chosen_colors-IsColor [] h = tt
chosen_colors-IsColor (c ∷ cs) (p, h) = elim (Bool-cases (nonempty c)) [
  | inl a ↦ rw a (color_named-IsColor c tblr_colors (p a), chosen_colors-IsColor cs h)
  | inr b ↦ rw b (chosen_colors-IsColor cs h)
]

theme-IsColor : (d : Bool) (ts : List TablerColor) → All IsColor (map (theme_color d) ts)
theme-IsColor d [] = tt
theme-IsColor true (t ∷ ts) = (tt, theme-IsColor true ts)
theme-IsColor false (t ∷ ts) = (tt, theme-IsColor false ts)

other-IsColor : (d : Bool) (ts : List TablerColor) → All IsColor (map (other_color d) ts)
other-IsColor d [] = tt
other-IsColor true (t ∷ ts) = (tt, other-IsColor true ts)
other-IsColor false (t ∷ ts) = (tt, other-IsColor false ts)

-- If every name in the list is empty or that of a colour, with or without "-lt", every entry of the
-- chart's colours is a colour.
pub chart_colors-IsColor :
    (is_dark_theme : Bool) (names : List Text)
    → AllNamed names
    → All IsColor (chart_colors is_dark_theme names)
unfolding chart_colors
chart_colors-IsColor d names h =
    All-append-IsColor (chosen_colors names)
      (map (theme_color d) tblr_colors ++ map (other_color d) tblr_colors)
      (chosen_colors-IsColor names h)
      (All-append-IsColor (map (theme_color d) tblr_colors) (map (other_color d) tblr_colors)
        (theme-IsColor d tblr_colors) (other-IsColor d tblr_colors))
