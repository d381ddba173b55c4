-- ===== src/Scripts/Once.antt =====
-- How often load_scripts of sqlpage/sqlpage.js adds a script.
use sqlpage.Prelude.{
  true, false, ◌≡◌, refl, sym, ◌∙◌, Option, none, some, List, [], ◌∷◌, ◌++◌, append_assoc,
  append-nil, Text, Eq, has, add, add_all, has-append, has-add, has-add_all, IsDistinct, All,
  Bool-cases, inl, inr, arith,
}
use sqlpage.Scripts.{load_from, load_script, load_scripts}

module _ {U : Type 0} ⦃e : Eq U⦄ where
  abbrev pub Apart : List U → List U → Type 0
  Apart scripts added = All (λ js. has js scripts ≡ false) added

  has-of_Apart :
      (scripts added : List U) (js : U)
      → has js scripts ≡ true
      → Apart scripts added
      → has js added ≡ false
  unfolding has
  has-of_Apart scripts [] js h a = refl
  has-of_Apart scripts (x ∷ added) js h (p, a) = elim (Bool-cases (e.beq x js)) [
    | inl same ↦ let q = (e.beq_iff x js).0 same in let r = rw q at p in cc
    | inr other ↦ rw other (has-of_Apart scripts added js h a)
  ]

  Apart-shrink : (scripts more added : List U) → Apart (scripts ++ more) added → Apart scripts added
  Apart-shrink scripts more [] a = tt
  Apart-shrink scripts more (x ∷ added) (p, a) =
      let h = has-append x scripts more in (ground arith, Apart-shrink scripts more added a)

  has-last : (js : U) (scripts : List U) → has js (scripts ++ js ∷ []) ≡ true
  has-last js scripts =
      let h = has-append js scripts (js ∷ []) in
      let q : has js (js ∷ []) ≡ true = unfold has in (rw ((e.beq_iff js js).1 refl) refl) in
      ground arith

  module _ (resolve : Text → Option U) where
    Adds : List U → List U → Type 0
    Adds scripts result =
        (added : List U) × (result ≡ scripts ++ added) × IsDistinct added × Apart scripts added

    Adds-one :
        (js : U) (scripts result : List U)
        → has js scripts ≡ false
        → Adds (scripts ++ js ∷ []) result
        → Adds scripts result
    unfolding Adds
    Adds-one js scripts result new (added, p, d, a) = (
      js ∷ added,
      p ∙ append_assoc scripts (js ∷ []) added,
      (has-of_Apart (scripts ++ js ∷ []) added js (has-last js scripts) a, d),
      (new, Apart-shrink scripts (js ∷ []) added a),
    )

    abbrev Same : List U → List U → Type 0
    Same existing scripts = (a : U) → has a existing ≡ has a scripts

    Same-add :
        (js : U) (existing scripts : List U)
        → Same existing scripts
        → Same (add existing js) (scripts ++ js ∷ [])
    unfolding has
    Same-add js existing scripts same a =
        let p = has-add a js existing in
        let q = has-append a scripts (js ∷ []) in let r = same a in ground arith

    load_script-Adds :
        (next : List U → List U → List U) (existing scripts : List U)
        → ((existing' scripts' : List U)
            → Same existing' scripts'
            → Adds scripts' (next existing' scripts'))
        → Same existing scripts
        → (o : Option U) → Adds scripts (load_script next existing scripts o)
    unfolding load_script
    load_script-Adds next existing scripts further same none =
        unfold Adds in ([], sym (append-nil scripts), tt, tt)
    load_script-Adds next existing scripts further same (some js) =
        elim (Bool-cases (has js existing)) [
          | inl old ↦ rw old (further existing scripts same)
          | inr new ↦ rw new (
              Adds-one js scripts _ (sym (same js) ∙ new) (
                further (add existing js) (scripts ++ js ∷ []) (Same-add js existing scripts same)))
        ]

    load_from-Adds :
        (els : List Text) (existing scripts : List U)
        → Same existing scripts
        → Adds scripts (load_from resolve els existing scripts)
    unfolding load_from
    load_from-Adds [] existing scripts same = unfold Adds in ([], sym (append-nil scripts), tt, tt)
    load_from-Adds (el ∷ els) existing scripts same =
        load_script-Adds (λ ex sc. load_from resolve els ex sc) existing scripts
          (λ ex sc. load_from-Adds els ex sc) same (resolve el)

    Same-start : (scripts : List U) → Same (add_all [] scripts) scripts
    Same-start scripts = unfold has in (λ a. has-add_all a [] scripts)

    -- load_scripts adds script elements behind those of the page, of different scripts that the page
    -- did not have.
    pub load_scripts-added :
        (els : List Text) (scripts : List U)
        → (added : List U) × (load_scripts resolve els scripts ≡ scripts ++ added)
          × IsDistinct added
          × Apart scripts added
    unfolding load_scripts
    load_scripts-added els scripts =
        unfold Adds in load_from-Adds els (add_all [] scripts) scripts (Same-start scripts)

    abbrev pub CoveredBy : Option U → Type 0 → List U → Type 0
    CoveredBy none rest scripts = Unit
    CoveredBy (some js) rest scripts = (has js scripts ≡ true) × rest

    -- The scripts of the elements up to the first whose URL does not resolve are on the page.
    abbrev pub Covered : List Text → List U → Type 0
    Covered [] scripts = Unit
    Covered (el ∷ els) scripts = CoveredBy (resolve el) (Covered els scripts) scripts

    load_from-has :
        (els : List Text) (existing scripts : List U) (js : U)
        → Same existing scripts
        → has js scripts ≡ true
        → has js (load_from resolve els existing scripts) ≡ true
    unfolding Adds
    load_from-has els existing scripts js same h =
        let (added, p, d, a) = load_from-Adds els existing scripts same in
        let q = has-append js scripts added in rw (p, q, h) refl

    load_script-Covered :
        (els : List Text) (existing scripts : List U)
        → ((existing' scripts' : List U)
            → Same existing' scripts'
            → Covered els (load_from resolve els existing' scripts'))
        → Same existing scripts
        → (o : Option U)
        → CoveredBy o
            (Covered els (load_script (λ ex sc. load_from resolve els ex sc) existing scripts o))
            (load_script (λ ex sc. load_from resolve els ex sc) existing scripts o)
    unfolding load_script
    load_script-Covered els existing scripts ih same none = tt
    load_script-Covered els existing scripts ih same (some js) =
        elim (Bool-cases (has js existing)) [
          | inl old ↦ rw old (
            load_from-has els existing scripts js same (sym (same js) ∙ old),
            ih existing scripts same,
          )
          | inr new ↦
              let same' = Same-add js existing scripts same in
              rw new (
                load_from-has els (add existing js) (scripts ++ js ∷ []) js same'
                    (has-last js scripts),
                ih (add existing js) (scripts ++ js ∷ []) same',
              )
        ]

    load_from-Covered :
        (els : List Text) (existing scripts : List U)
        → Same existing scripts
        → Covered els (load_from resolve els existing scripts)
    unfolding load_from
    load_from-Covered [] existing scripts same = tt
    load_from-Covered (el ∷ els) existing scripts same =
        load_script-Covered els existing scripts (λ ex sc. load_from-Covered els ex sc) same
          (resolve el)

    load_script-eq :
        (els : List Text) (existing scripts : List U)
        → (Covered els scripts → load_from resolve els existing scripts ≡ scripts)
        → Same existing scripts
        → (o : Option U) → CoveredBy o (Covered els scripts) scripts
        → load_script (λ ex sc. load_from resolve els ex sc) existing scripts o ≡ scripts
    unfolding load_script
    load_script-eq els existing scripts ih same none c = refl
    load_script-eq els existing scripts ih same (some js) (h, c) =
        let old = same js ∙ h in rw old (ih c)

    load_from-eq :
        (els : List Text) (existing scripts : List U)
        → Same existing scripts
        → Covered els scripts
        → load_from resolve els existing scripts ≡ scripts
    unfolding load_from
    load_from-eq [] existing scripts same c = refl
    load_from-eq (el ∷ els) existing scripts same c =
        load_script-eq els existing scripts (load_from-eq els existing scripts same) same
          (resolve el) c

    -- After load_scripts the page has the scripts of the elements, up to the first whose URL does not
    -- resolve, and a second call adds nothing.
    pub load_scripts-again :
        (els : List Text) (scripts : List U)
        → Covered els (load_scripts resolve els scripts)
          × (load_scripts resolve els (load_scripts resolve els scripts)
              ≡ load_scripts resolve els scripts)
    unfolding load_scripts
    load_scripts-again els scripts =
        let c = load_from-Covered els (add_all [] scripts) scripts (Same-start scripts) in
        let r = load_from resolve els (add_all [] scripts) scripts in
        (c, load_from-eq els (add_all [] r) r (Same-start r) c)
