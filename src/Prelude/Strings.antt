-- ===== src/Prelude/Strings.antt =====
-- JavaScript strings as lists of UTF-16 code units, with `split` and `join` at one code unit.
use Prim.Native.Nat.{ℕ}
use Prim.Native.Char.{code}
use Prim.Native.String.{String}
use mathlib.Core.Bool.{Bool, true, false, ◌&&◌, ◌||◌}
use mathlib.Core.List.{List, [], ◌∷◌, ◌++◌}
use native.Mathlib.Omega.{arith}
use mathlib.Core.Path.{◌≡◌, refl}
use mathlib.Core.Logic.{◌↔◌, ◌≢◌, inl, inr}
use sqlpage.Prelude.Lists.{All}
use sqlpage.Prelude.Tests.{Bool-cases, ==_iff, ◌==◌, if◌then◌else◌}

abbrev pub Text : Type 0
Text = List ℕ

-- A text of the basic multilingual plane has one code unit for each character.
abbrev pub codes : String → Text
codes String.[] = []
codes (String.◌∷◌ c s) = code c ∷ codes s

unfoldable pub text_eq : Text → Text → Bool
text_eq [] [] = true
text_eq (c ∷ s) (d ∷ t) = c == d && text_eq s t
text_eq _ _ = false

pub text_eq_iff : (s t : Text) → (text_eq s t ≡ true) ↔ (s ≡ t)
unfolding text_eq
text_eq_iff [] [] = ground arith
text_eq_iff [] (d ∷ t) = ground arith
text_eq_iff (c ∷ s) [] = ground arith
text_eq_iff (c ∷ s) (d ∷ t) = ground (arith, text_eq_iff s t)

pub text_eq_refl : (s : Text) → text_eq s s ≡ true
text_eq_refl s = (text_eq_iff s s).1 refl

-- The truthiness of a string.
abbrev pub nonempty : Text → Bool
nonempty [] = false
nonempty (c ∷ s) = true

abbrev pub newline : ℕ
newline = 10

abbrev pub push_head : ℕ → List Text → List Text
push_head c [] = (c ∷ []) ∷ []
push_head c (s ∷ ss) = (c ∷ s) ∷ ss

-- `s.split(c)` and `s.includes(c)` for one code unit `c`.
unfoldable pub split : ℕ → Text → List Text
split c [] = [] ∷ []
split c (x ∷ s) = if x == c then [] ∷ split c s else push_head x (split c s)

unfoldable pub includes : ℕ → Text → Bool
includes c [] = false
includes c (x ∷ s) = x == c || includes c s

unfoldable pub join : ℕ → List Text → Text
join c [] = []
join c (s ∷ []) = s
join c (s ∷ t ∷ ss) = s ++ c ∷ join c (t ∷ ss)

-- The text without the code unit `c`.
unfoldable pub strip : ℕ → Text → Text
strip c [] = []
strip c (x ∷ s) = if x == c then strip c s else x ∷ strip c s

pub split-of_not_includes : (c : ℕ) (s : Text) → includes c s ≡ false → split c s ≡ s ∷ []
unfolding split includes
split-of_not_includes c [] h = refl
split-of_not_includes c (x ∷ s) h = ground (arith, split-of_not_includes c s)

abbrev pub Excludes : ℕ → Text → Type 0
Excludes c s = includes c s ≡ false

push_head-Excludes :
    (c x : ℕ) (ss : List Text) → x ≢ c → All (Excludes c) ss → All (Excludes c) (push_head x ss)
unfolding includes
push_head-Excludes c x [] n h = (ground arith, tt)
push_head-Excludes c x (s ∷ ss) n (p, h) = (ground arith, h)

-- No line of `s.split(c)` contains `c`.
pub split-Excludes : (c : ℕ) (s : Text) → All (Excludes c) (split c s)
unfolding split includes
split-Excludes c [] = (refl, tt)
split-Excludes c (x ∷ s) = ground (arith, split-Excludes c s, push_head-Excludes c x (split c s))

pub includes-append : (c : ℕ) (s t : Text) → includes c (s ++ t) ≡ includes c s || includes c t
unfolding includes
includes-append c [] t = refl
includes-append c (x ∷ s) t = ground (arith, includes-append c s t)

pub split-cons : (c : ℕ) (s : Text) → (t : Text) × (ts : List Text) × (split c s ≡ t ∷ ts)
unfolding split
split-cons c [] = ([], [], refl)
split-cons c (x ∷ s) = elim (Bool-cases (x == c)) [
  | inl here ↦ ([], split c s, rw here)
  | inr other ↦ let (t, ts, e) = split-cons c s in (x ∷ t, ts, rw (other, e))
]

join-push_head :
    (c x : ℕ) (t : Text) (ts : List Text) → join c (push_head x (t ∷ ts)) ≡ x ∷ join c (t ∷ ts)
unfolding join
join-push_head c x t [] = refl
join-push_head c x t (u ∷ us) = refl

-- `split` and `join` are inverse.
pub join-split : (c : ℕ) (s : Text) → join c (split c s) ≡ s
unfolding split join
join-split c [] = refl
join-split c (x ∷ s) =
    let (t, ts, e) = split-cons c s in
    elim (Bool-cases (x == c)) [
      | inl here ↦ rw (here, e) (cc ((==_iff x c).0 here, rw e at (join-split c s)))
      | inr other ↦ rw (other, e, join-push_head c x t ts) (cc (rw e at (join-split c s)))
    ]

pub strip-append : (c : ℕ) (s t : Text) → strip c (s ++ t) ≡ strip c s ++ strip c t
unfolding strip
strip-append c [] t = refl
strip-append c (x ∷ s) t = ground (arith, strip-append c s t)

-- The lines of `s.split(c)`, joined with nothing between, are the text without `c`.
abbrev pub concat : List Text → Text
concat [] = []
concat (s ∷ ss) = s ++ concat ss

concat-push_head : (x : ℕ) (ss : List Text) → concat (push_head x ss) ≡ x ∷ concat ss
concat-push_head x [] = refl
concat-push_head x (s ∷ ss) = refl

pub concat-split : (c : ℕ) (s : Text) → concat (split c s) ≡ strip c s
unfolding split strip
concat-split c [] = refl
concat-split c (x ∷ s) = ground (arith, concat-split c s, concat-push_head x (split c s))

pub strip-of_Excludes : (c : ℕ) (s : Text) → Excludes c s → strip c s ≡ s
unfolding strip includes
strip-of_Excludes c [] h = refl
strip-of_Excludes c (x ∷ s) h = ground (arith, strip-of_Excludes c s)
