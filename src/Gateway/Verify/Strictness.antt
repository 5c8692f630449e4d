-- ===== src/Gateway/Verify/Strictness.antt =====
-- src/gateway/verify.ts: the structural mode on values that the strict mode accepts.
use vibe_ai_router.Common.{
  ℕ, suc, ◌≡◌, refl, ◌∙◌, String, Bool, true, Option, none, some, List, [], ◌∷◌,
}
use vibe_ai_router.Gateway.Json.{
  Json, null, arr, obj, Items, nil, item, Fields, Schema, anything, node, Schemas, no_schemas,
  schema, Properties, no_properties, property, structural, strict,
}
use vibe_ai_router.Gateway.Verify.{
  Collected, Checked, and_then, check_enum, has_type, below, check_required, check_object,
  check_items, check_array, check_type, property_of, take_branch, Pick, validate,
  validate_properties,
}
use vibe_ai_router.Gateway.Verify.Satisfaction.{
  Permits, PresentIn, Requires, EachItem, EachElement, IfPresent, OneOf, Satisfies, SatisfiesSome,
  SatisfiesProperties, validate-strict, passes_strict_lem,
}

-- No violation, and no soft finding.
abbrev Keeps : Collected → Checked → Type 0
Keeps d r = (r.1 ≡ none) × (r.0.soft ≡ d.soft)

and_then-Keeps :
    (m : Checked) (k : Collected → Checked) (d : Collected)
    → Keeps d m
    → ((d' : Collected) → Keeps d' (k d'))
    → Keeps d (and_then m k)
and_then-Keeps (c, none) k d hm hk = ((hk c).0, (hk c).1 ∙ hm.1)
and_then-Keeps (c, some v) k d hm hk = absurd (cc)

check_enum-Keeps :
    (members : List Json) (value : Json) (path : String) (d : Collected)
    → Permits members value
    → Keeps d (check_enum structural members value path d)
unfolding check_enum
check_enum-Keeps [] value path d h = (refl, refl)
check_enum-Keeps (m ∷ ms) value path d h = rw h (refl, refl)

check_required-Keeps :
    (keys : List String) (fs : Fields) (path : String) (d : Collected)
    → PresentIn keys fs
    → Keeps d (check_required keys fs path d)
unfolding check_required
check_required-Keeps [] fs path d h = (refl, refl)
check_required-Keeps (key ∷ keys) fs path d h = rw h.0 (check_required-Keeps keys fs path d h.1)

check_object-Keeps :
    (keys : List String) (value : Json) (path : String) (d : Collected)
    → Requires keys value
    → Keeps d (check_object keys value path d)
check_object-Keeps keys (obj fs) path d h = check_required-Keeps keys fs path d h
check_object-Keeps keys null path d h = (refl, refl)
check_object-Keeps keys _ path d h = (refl, refl)

check_items-Keeps :
    (check : Json → String → Collected → Checked) (P : Json → Type 0) (at_index : ℕ → String)
    → ((v : Json) (path : String) (d : Collected) → P v → Keeps d (check v path d))
    → (i : ℕ) (vs : Items) (d : Collected) → EachItem P vs
    → Keeps d (check_items check at_index i vs d)
unfolding check_items
check_items-Keeps check P at_index each i nil d h = (refl, refl)
check_items-Keeps check P at_index each i (item v vs) d h =
    and_then-Keeps (check v (at_index i) d) _ d (each v (at_index i) d h.0)
      (λ d'. check_items-Keeps check P at_index each (suc i) vs d' h.1)

check_array-Keeps :
    (check : Json → String → Collected → Checked) (P : Json → Type 0) (at_index : ℕ → String)
    → ((v : Json) (path : String) (d : Collected) → P v → Keeps d (check v path d))
    → (value : Json) (d : Collected) → EachElement P value
    → Keeps d (check_array check at_index value d)
check_array-Keeps check P at_index each (arr vs) d h =
    check_items-Keeps check P at_index each 0 vs d h
check_array-Keeps check P at_index each null d h = (refl, refl)
check_array-Keeps check P at_index each _ d h = (refl, refl)

take_branch-Keeps :
    (bs : Schemas) (passed : Bool) (pick : Pick) (path : String) (d : Collected)
    (k : Collected → Checked) (P Q : Type 0)
    → (P → passed ≡ true)
    → (Q → (d' : Collected) → Keeps d' (k d'))
    → OneOf bs P Q
    → Keeps d (take_branch bs structural passed pick path d k)
unfolding take_branch
take_branch-Keeps no_schemas passed pick path d k P Q hp hk h = hk h d
take_branch-Keeps (schema b bs) passed pick path d k P Q hp hk h =
    rw (hp h, take_branch) (refl, refl)

property-Keeps :
    (found : Option Json) (check : Json → Collected → Checked) (rest : Collected → Checked)
    (P : Json → Type 0)
    → ((v : Json) (d : Collected) → P v → Keeps d (check v d))
    → ((d : Collected) → Keeps d (rest d))
    → (d : Collected) → IfPresent P found
    → Keeps d (elim found [ none ↦ rest d | some v ↦ and_then (check v d) rest ])
property-Keeps none check rest P hc hr d h = hr d
property-Keeps (some v) check rest P hc hr d h = and_then-Keeps (check v d) rest d (hc v d h) hr

module _ (is_integer : String → Bool) (index : String → ℕ → String) where
  check_type-Keeps :
      (types : Option (List String)) (nullable : Bool) (value : Json) (path : String)
      (d : Collected)
      → has_type is_integer types nullable value ≡ true
      → Keeps d (check_type is_integer types nullable value path d)
  check_type-Keeps types nullable value path d h = rw h (refl, refl)

  mutual
    unfolding validate

    satisfied-Keeps :
        (s : Schema) (value : Json) (path : String) (d : Collected)
        → Satisfies is_integer s value
        → Keeps d (validate is_integer index s structural value path d)
    satisfied-Keeps anything value path d h = (refl, refl)
    satisfied-Keeps (node types nullable members branches properties required items) value path d
          h =
        and_then-Keeps (check_enum structural members value path d) _ d
          (check_enum-Keeps members value path d h.0)
          (λ d1.
            take_branch-Keeps branches _ _ path d1 _ (SatisfiesSome is_integer branches value) _
              (passes_strict_lem is_integer index branches value path).1
              (λ q d2.
                and_then-Keeps (check_type is_integer types nullable value path d2) _ d2
                  (check_type-Keeps types nullable value path d2 q.0)
                  (λ d3.
                    and_then-Keeps _ _ d3 (properties-Keeps properties value path d3 q.1.0) (λ d4.
                      and_then-Keeps _ _ d4 (check_object-Keeps required value path d4 q.1.1.0)
                        (λ d5.
                          check_array-Keeps
                            (λ v p d6. validate is_integer index items structural v p d6)
                            (λ v. Satisfies is_integer items v) (index path)
                            (λ v p d6 hv. satisfied-Keeps items v p d6 hv) value d5 q.1.1.1))))
              h.1)

    properties-Keeps :
        (ps : Properties) (value : Json) (path : String) (d : Collected)
        → SatisfiesProperties is_integer ps value
        → Keeps d (validate_properties is_integer index ps structural value path d)
    properties-Keeps no_properties value path d h = (refl, refl)
    properties-Keeps (property key sub rest) value path d h =
        property-Keeps (property_of key value)
          (λ v d'. validate is_integer index sub structural v (below path key) d')
          (λ d'. validate_properties is_integer index rest structural value path d')
          (λ v. Satisfies is_integer sub v)
          (λ v d' hv. satisfied-Keeps sub v (below path key) d' hv)
          (λ d'. properties-Keeps rest value path d' h.1) d h.0

  -- What the strict mode accepts, the structural mode accepts too, with no soft finding.
  pub validate-structural :
      (s : Schema) (value : Json) (path path' : String) (c d : Collected)
      → (validate is_integer index s strict value path c).1 ≡ none
      → ((validate is_integer index s structural value path' d).1 ≡ none)
        × ((validate is_integer index s structural value path' d).0.soft ≡ d.soft)
  validate-structural s value path path' c d h =
      satisfied-Keeps s value path' d ((validate-strict is_integer index s value path c).0 h)
