-- ===== src/Gateway/Verify/Satisfaction.antt =====
-- src/gateway/verify.ts: what it means that a value satisfies a schema, said without paths, findings
-- or an order of evaluation.
use vibe_ai_router.Common.{
  ℕ, suc, ◌≡◌, refl, ◌↔◌, ◌⊎◌, inl, inr, String, Bool, true, false, not, ◌||◌, Option, none, some,
  List, [], ◌∷◌, is_some, arith, Bool-cases,
}
use vibe_ai_router.Gateway.Json.{
  Json, null, arr, obj, Items, nil, item, Fields, field_of, Schema, anything, node, Schemas,
  no_schemas, schema, Properties, no_properties, property, strict,
}
use vibe_ai_router.Gateway.Verify.{
  Collected, nothing_yet, Checked, and_then, is_member, check_enum, has_type, below, check_required,
  check_object, check_items, check_array, check_type, property_of, take_branch, Pick, validate,
  passes_strict, validate_properties,
}

-- Some member, if there are any.
abbrev pub Permits : List Json → Json → Type 0
Permits [] value = Unit {0}
Permits (m ∷ ms) value = is_member (m ∷ ms) value ≡ true

abbrev pub PresentIn : List String → Fields → Type 0
PresentIn [] fs = Unit {0}
PresentIn (key ∷ keys) fs = (is_some (field_of key fs) ≡ true) × PresentIn keys fs

abbrev pub Requires : List String → Json → Type 0
Requires required (obj fs) = PresentIn required fs
Requires required _ = Unit {0}

abbrev pub EachItem : (Json → Type 0) → Items → Type 0
EachItem P nil = Unit {0}
EachItem P (item v vs) = P v × EachItem P vs

abbrev pub EachElement : (Json → Type 0) → Json → Type 0
EachElement P (arr vs) = EachItem P vs
EachElement P _ = Unit {0}

abbrev pub IfPresent : (Json → Type 0) → Option Json → Type 0
IfPresent P none = Unit {0}
IfPresent P (some v) = P v

-- With branches, one of them; the other keywords count where there are none.
abbrev pub OneOf : Schemas → Type 0 → Type 0 → Type 0
OneOf no_schemas some_branch otherwise = otherwise
OneOf (schema _ _) some_branch otherwise = some_branch

module _ (is_integer : String → Bool) where
  abbrev mutual
    pub Satisfies : Schema → Json → Type 0
    Satisfies anything value = Unit {0}
    Satisfies (node types nullable members branches properties required items) value =
        Permits members value
        × OneOf branches (SatisfiesSome branches value) (
            (has_type is_integer types nullable value ≡ true)
            × (SatisfiesProperties properties value
                × (Requires required value × EachElement (λ v. Satisfies items v) value)))

    pub SatisfiesSome : Schemas → Json → Type 0
    SatisfiesSome no_schemas value = ⊥
    SatisfiesSome (schema b bs) value = Satisfies b value ⊎ SatisfiesSome bs value

    pub SatisfiesProperties : Properties → Json → Type 0
    SatisfiesProperties no_properties value = Unit {0}
    SatisfiesProperties (property key sub rest) value =
        IfPresent (λ v. Satisfies sub v) (property_of key value) × SatisfiesProperties rest value

abbrev Passes : Checked → Type 0
Passes r = r.1 ≡ none

and_then_iff :
    (m : Checked) (k : Collected → Checked) (P Q : Type 0)
    → (Passes m ↔ P)
    → ((c : Collected) → Passes (k c) ↔ Q)
    → Passes (and_then m k) ↔ P × Q
and_then_iff (c, none) k P Q hm hk = (λ h. (hm.0 refl, (hk c).0 h), λ pq. (hk c).1 pq.1)
and_then_iff (c, some v) k P Q hm hk = (λ h. absurd (cc), λ pq. hm.1 pq.0)

check_enum_iff :
    (members : List Json) (value : Json) (path : String) (c : Collected)
    → Passes (check_enum strict members value path c) ↔ Permits members value
unfolding check_enum
check_enum_iff [] value path c = (λ h. tt, λ h. refl)
check_enum_iff (m ∷ ms) value path c = (λ h. ground arith, λ h. ground arith)

check_required_iff :
    (keys : List String) (fs : Fields) (path : String) (c : Collected)
    → Passes (check_required keys fs path c) ↔ PresentIn keys fs
unfolding check_required
check_required_iff [] fs path c = (λ h. tt, λ h. refl)
check_required_iff (key ∷ keys) fs path c =
    let rest = check_required_iff keys fs path c in
    elim (Bool-cases (is_some (field_of key fs))) [
      | inl e ↦ rw e (λ h. (refl, rest.0 h), λ h. rest.1 h.1)
      | inr e ↦ rw e (λ h. absurd (cc), λ h. absurd (cc))
    ]

check_items_iff :
    (check : Json → String → Collected → Checked) (P : Json → Type 0) (at_index : ℕ → String)
    → ((v : Json) (path : String) (c : Collected) → Passes (check v path c) ↔ P v)
    → (i : ℕ) (vs : Items) (c : Collected)
    → Passes (check_items check at_index i vs c) ↔ EachItem P vs
unfolding check_items
check_items_iff check P at_index each i nil c = (λ h. tt, λ h. refl)
check_items_iff check P at_index each i (item v vs) c =
    and_then_iff (check v (at_index i) c) _ (P v) (EachItem P vs) (each v (at_index i) c)
      (λ c'. check_items_iff check P at_index each (suc i) vs c')

Passes-or :
    (r : Checked) (rest : Bool) (P Q : Type 0)
    → (Passes r ↔ P)
    → ((rest ≡ true) ↔ Q)
    → ((not (is_some r.1) || rest) ≡ true) ↔ (P ⊎ Q)
Passes-or (c, none) rest P Q hr hq = (λ h. inl (hr.0 refl), λ h. refl)
Passes-or (c, some v) rest P Q hr hq =
    (λ h. inr (hq.0 h), λ h. elim h [ inl p ↦ absurd (let e = hr.1 p in cc) | inr q ↦ hq.1 q ])

-- A property that is present is checked before the rest.
property-IfPresent :
    (found : Option Json) (check : Json → Checked) (rest : Collected → Checked) (P : Json → Type 0)
    (Q : Type 0)
    → ((v : Json) → Passes (check v) ↔ P v)
    → ((c : Collected) → Passes (rest c) ↔ Q)
    → (c : Collected)
    → Passes (elim found [ none ↦ rest c | some v ↦ and_then (check v) rest ])
      ↔ IfPresent P found × Q
property-IfPresent none check rest P Q hc hr c = (λ h. (tt, (hr c).0 h), λ h. (hr c).1 h.1)
property-IfPresent (some v) check rest P Q hc hr c = and_then_iff (check v) rest (P v) Q (hc v) hr

module _ (is_integer : String → Bool) (index : String → ℕ → String) where
  check_array_iff :
      (check : Json → String → Collected → Checked) (P : Json → Type 0) (at_index : ℕ → String)
      → ((v : Json) (path : String) (c : Collected) → Passes (check v path c) ↔ P v)
      → (value : Json) (c : Collected)
      → Passes (check_array check at_index value c) ↔ EachElement P value
  check_array_iff check P at_index each (arr vs) c = check_items_iff check P at_index each 0 vs c
  check_array_iff check P at_index each null c = (λ h. tt, λ h. refl)
  check_array_iff check P at_index each _ c = (λ h. tt, λ h. refl)

  check_object_iff :
      (keys : List String) (value : Json) (path : String) (c : Collected)
      → Passes (check_object keys value path c) ↔ Requires keys value
  check_object_iff keys (obj fs) path c = check_required_iff keys fs path c
  check_object_iff keys null path c = (λ h. tt, λ h. refl)
  check_object_iff keys _ path c = (λ h. tt, λ h. refl)

  check_type_iff :
      (types : Option (List String)) (nullable : Bool) (value : Json) (path : String)
      (c : Collected)
      → Passes (check_type is_integer types nullable value path c)
        ↔ (has_type is_integer types nullable value ≡ true)
  check_type_iff types nullable value path c =
      elim (Bool-cases (has_type is_integer types nullable value)) [
        | inl e ↦ rw e (λ h. refl, λ h. refl)
        | inr e ↦ rw e (λ h. absurd (cc), λ h. absurd (cc))
      ]

  take_branch_iff :
      (bs : Schemas) (passed : Bool) (pick : Pick) (path : String) (c : Collected)
      (k : Collected → Checked) (P Q : Type 0)
      → ((passed ≡ true) ↔ P)
      → ((c' : Collected) → Passes (k c') ↔ Q)
      → Passes (take_branch bs strict passed pick path c k) ↔ OneOf bs P Q
  unfolding take_branch
  take_branch_iff no_schemas passed pick path c k P Q hp hk = hk c
  take_branch_iff (schema b bs) true pick path c k P Q hp hk = (λ h. hp.0 refl, λ h. refl)
  take_branch_iff (schema b bs) false pick path c k P Q hp hk =
      (λ h. absurd (cc), λ h. let e = hp.1 h in absurd (cc))

  mutual
    unfolding validate

    strict_iff :
        (s : Schema) (value : Json) (path : String) (c : Collected)
        → Passes (validate is_integer index s strict value path c) ↔ Satisfies is_integer s value
    strict_iff anything value path c = (λ h. tt, λ h. refl)
    strict_iff (node types nullable members branches properties required items) value path c =
        and_then_iff (check_enum strict members value path c) _ _ _
          (check_enum_iff members value path c)
          (λ c1.
            take_branch_iff branches _ _ path c1 _ _ _ (passes_strict_iff branches value path)
              (λ c2.
                and_then_iff (check_type is_integer types nullable value path c2) _ _ _
                  (check_type_iff types nullable value path c2)
                  (λ c3. and_then_iff _ _ _ _ (properties_iff properties value path c3) (λ c4.
                    and_then_iff _ _ _ _ (check_object_iff required value path c4) (λ c5.
                      check_array_iff (λ v p c6. validate is_integer index items strict v p c6) _
                        (index path) (λ v p c6. strict_iff items v p c6) value c5)))))

    passes_strict_iff :
        (bs : Schemas) (value : Json) (path : String)
        → (passes_strict is_integer index bs value path ≡ true) ↔ SatisfiesSome is_integer bs value
    passes_strict_iff no_schemas value path = (λ h. absurd (cc), λ h. absurd h)
    passes_strict_iff (schema b bs) value path =
        Passes-or (validate is_integer index b strict value path nothing_yet) _ _ _
          (strict_iff b value path nothing_yet) (passes_strict_iff bs value path)

    properties_iff :
        (ps : Properties) (value : Json) (path : String) (c : Collected)
        → Passes (validate_properties is_integer index ps strict value path c)
          ↔ SatisfiesProperties is_integer ps value
    properties_iff no_properties value path c = (λ h. tt, λ h. refl)
    properties_iff (property key sub rest) value path c =
        property-IfPresent (property_of key value)
          (λ v. validate is_integer index sub strict v (below path key) c)
          (λ c'. validate_properties is_integer index rest strict value path c') _ _
          (λ v. strict_iff sub v (below path key) c) (λ c'. properties_iff rest value path c') c

-- Strict validation finds no violation exactly when the value satisfies the schema.
pub validate-strict :
    (is_integer : String → Bool) (index : String → ℕ → String) (s : Schema) (value : Json)
    (path : String) (c : Collected)
    → ((validate is_integer index s strict value path c).1 ≡ none) ↔ Satisfies is_integer s value
validate-strict is_integer index s value path c = strict_iff is_integer index s value path c

pub passes_strict_lem :
    (is_integer : String → Bool) (index : String → ℕ → String) (bs : Schemas) (value : Json)
    (path : String)
    → (passes_strict is_integer index bs value path ≡ true) ↔ SatisfiesSome is_integer bs value
passes_strict_lem is_integer index bs value path = passes_strict_iff is_integer index bs value path
