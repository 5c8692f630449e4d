-- ===== src/Gateway/Verify.antt =====
-- src/gateway/verify.ts: whether a response can be used. `JSON.parse` and `Number.isInteger` are the
-- platform's. Of a finding the reason is modelled, and of a violation the path and the kind.
pub mod Satisfaction
pub mod Strictness
pub mod Response
pub mod Acceptance
pub mod Fence
use Prim.Native.String.{◌++◌ as append}
use vibe_ai_router.Common.{
  ℕ, suc, ◌+◌, String, Bool, true, false, not, ◌&&◌, ◌||◌, Option, none, some, List, [], ◌∷◌, ◌++◌,
  any, is_some, length, ltb, str_eq, ◌or_else◌, if◌then◌else◌,
}
use vibe_ai_router.Gateway.Json.{
  Json, null, bool, num, str, arr, obj, Items, nil, item, Fields, end, field, json_eq, field_of,
  Schema, anything, node, Schemas, no_schemas, schema, Properties, no_properties, property,
  SchemaValidationMode, structural, strict,
}

abbrev pub property_of : String → Json → Option Json
property_of key (obj fs) = field_of key fs
property_of key _ = none

pub data Problem : Type 0 where
  not_a_member no_branch wrong_type missing : Problem

pub record Violation : Type 0 where
  pub path : String
  pub problem : Problem

-- `opts`: the paths of the soft findings, and the enum constraints that were met.
pub record Collected : Type 0 where
  pub soft : List String
  pub hits : ℕ

abbrev pub nothing_yet : Collected
nothing_yet = record { soft = []; hits = 0 }

abbrev pub Checked : Type 0
Checked = Collected × Option Violation

abbrev pub fail : String → Problem → Collected → Checked
fail path problem c = (c, some (record { path = path; problem = problem }))

-- Goes on unless there is a violation.
abbrev pub and_then : Checked → (Collected → Checked) → Checked
and_then (c, none) k = k c
and_then (c, some v) k = (c, some v)

abbrev pub is_member : List Json → Json → Bool
is_member members value = any (λ e. json_eq e value) members

unfoldable pub check_enum : SchemaValidationMode → List Json → Json → String → Collected → Checked
check_enum mode [] value path c = (c, none)
check_enum strict (m ∷ ms) value path c =
    if is_member (m ∷ ms) value then (c, none) else fail path not_a_member c
check_enum structural (m ∷ ms) value path c =
    if is_member (m ∷ ms) value
    then (record c { hits = suc c.hits }, none)
    else (record c { soft = c.soft ++ path ∷ [] }, none)

-- `typeOf`
abbrev pub type_of : Json → String
type_of null = "null"
type_of (bool _) = "boolean"
type_of (num _) = "number"
type_of (str _) = "string"
type_of (arr _) = "array"
type_of (obj _) = "object"

abbrev pub below : String → String → String
below path key = append path (append "." key)

unfoldable pub check_required : List String → Fields → String → Collected → Checked
check_required [] fs path c = (c, none)
check_required (key ∷ keys) fs path c =
    let rest = check_required keys fs path c in
    if is_some (field_of key fs) then rest else fail (below path key) missing c

abbrev pub check_object : List String → Json → String → Collected → Checked
check_object required (obj fs) path c = check_required required fs path c
check_object required _ path c = (c, none)

-- The loop over an array; `at_index` prints the path of an element.
unfoldable pub check_items :
    (Json → String → Collected → Checked) → (ℕ → String) → ℕ → Items → Collected → Checked
check_items check at_index i nil c = (c, none)
check_items check at_index i (item v vs) c =
    and_then (check v (at_index i) c) (λ c'. check_items check at_index (suc i) vs c')

abbrev pub check_array :
    (Json → String → Collected → Checked) → (ℕ → String) → Json → Collected → Checked
check_array check at_index (arr vs) c = check_items check at_index 0 vs c
check_array check at_index _ c = (c, none)

-- What the second pass over the branches finds: a branch whose violation counts, or the first
-- branch that passed.
pub data Pick : Type 0 where
  blame : Violation → Pick
  choose : Option Collected → Pick

abbrev pub is_own : Collected → Bool
is_own c = ltb 0 c.hits && not (ltb 0 (length c.soft))

unfoldable pub settle : String → Pick → Collected → Checked
settle path (blame v) c = (c, some v)
settle path (choose none) c = fail path no_branch c
settle path (choose (some w)) c = (record { soft = c.soft ++ w.soft; hits = c.hits + w.hits }, none)

abbrev pub pass_over : Option Collected → Checked → (Option Collected → Pick) → Pick
pass_over winner (c, none) rest = rest (some (winner or_else c))
pass_over winner (c, some v) rest = if is_own c then blame v else rest winner

-- The case of a schema with branches. `passed` tells whether a branch passed strictly, and `second`
-- is what the second pass finds.
unfoldable pub take_branch :
    Schemas
    → SchemaValidationMode
    → Bool
    → Pick
    → String
    → Collected
    → (Collected → Checked)
    → Checked
unfolding settle
take_branch no_schemas mode passed second path c otherwise = otherwise c
take_branch (schema b bs) mode true second path c otherwise = (c, none)
take_branch (schema b bs) strict false second path c otherwise = fail path no_branch c
take_branch (schema b bs) structural false second path c otherwise = settle path second c

module _ (is_integer : String → Bool) where
  abbrev pub is_integer_value : Json → Bool
  is_integer_value (num text) = is_integer text
  is_integer_value _ = false

  unfoldable pub type_matches : Json → String → Bool
  type_matches value expected =
      if str_eq expected "integer" then is_integer_value value else str_eq (type_of value) expected

  -- The type test, `null` being permitted where the schema is nullable.
  unfoldable pub has_type : Option (List String) → Bool → Json → Bool
  has_type none nullable value = true
  has_type (some types) nullable value =
      any (type_matches value) types || (nullable && type_matches value "null")

  abbrev pub check_type : Option (List String) → Bool → Json → String → Collected → Checked
  check_type types nullable value path c =
      if has_type types nullable value then (c, none) else fail path wrong_type c

  module _ (index : String → ℕ → String) where
    -- `validateSchemaSubset`, with the branches in a strict pass and then, in structural mode, in a
    -- second one.
    unfoldable mutual
      unfolding check_enum check_required check_items take_branch

      pub validate : Schema → SchemaValidationMode → Json → String → Collected → Checked
      validate anything mode value path c = (c, none)
      validate (node types nullable members branches properties required items) mode value path c =
          and_then (check_enum mode members value path c) (λ c1.
            take_branch branches mode (passes_strict branches value path)
              (soft_pass branches value path none) path c1
              (λ c2. and_then (check_type types nullable value path c2) (λ c3.
                and_then (validate_properties properties mode value path c3) (λ c4.
                  and_then (check_object required value path c4) (λ c5.
                    check_array (λ v p c6. validate items mode v p c6) (index path) value c5)))))

      pub passes_strict : Schemas → Json → String → Bool
      passes_strict no_schemas value path = false
      passes_strict (schema b bs) value path =
          not (is_some (validate b strict value path nothing_yet).1) || passes_strict bs value path

      pub soft_pass : Schemas → Json → String → Option Collected → Pick
      soft_pass no_schemas value path winner = choose winner
      soft_pass (schema b bs) value path winner =
          pass_over winner (validate b structural value path nothing_yet)
            (λ w. soft_pass bs value path w)

      pub validate_properties :
          Properties → SchemaValidationMode → Json → String → Collected → Checked
      validate_properties no_properties mode value path c = (c, none)
      validate_properties (property key sub rest) mode value path c = elim (property_of key value) [
        | none ↦ validate_properties rest mode value path c
        | some v ↦
            and_then (validate sub mode v (below path key) c)
              (λ c'. validate_properties rest mode value path c')
      ]
