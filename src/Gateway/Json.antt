-- ===== src/Gateway/Json.antt =====
-- JSON values, as `JSON.parse` gives them, and the schemas of src/gateway/verify.ts. A number is the
-- text that `JSON.stringify` prints for it. The arrays of a schema are lists of their own.
use vibe_ai_router.Common.{
  String, Bool, true, false, ◌&&◌, Option, none, some, List, str_eq, if◌then◌else◌,
}

mutual
  pub data Json : Type 0 where
    null : Json
    bool : Bool → Json
    num str : String → Json
    arr : Items → Json
    obj : Fields → Json

  pub data Items : Type 0 where
    nil : Items
    item : Json → Items → Items

  pub data Fields : Type 0 where
    end : Fields
    field : String → Json → Fields → Fields

abbrev same_bool : Bool → Bool → Bool
same_bool true b = b
same_bool false true = false
same_bool false false = true

-- `JSON.stringify(a) === JSON.stringify(b)`
unfoldable mutual
  pub json_eq : Json → Json → Bool
  json_eq null null = true
  json_eq (bool a) (bool b) = same_bool a b
  json_eq (num a) (num b) = str_eq a b
  json_eq (str a) (str b) = str_eq a b
  json_eq (arr as_) (arr bs) = items_eq as_ bs
  json_eq (obj as_) (obj bs) = fields_eq as_ bs
  json_eq _ _ = false

  pub items_eq : Items → Items → Bool
  items_eq nil nil = true
  items_eq (item a as_) (item b bs) = json_eq a b && items_eq as_ bs
  items_eq _ _ = false

  pub fields_eq : Fields → Fields → Bool
  fields_eq end end = true
  fields_eq (field k a as_) (field j b bs) = str_eq k j && (json_eq a b && fields_eq as_ bs)
  fields_eq _ _ = false

unfoldable pub field_of : String → Fields → Option Json
field_of key end = none
field_of key (field k v fs) = let rest = field_of key fs in if str_eq k key then some v else rest

-- `JsonSchema`: `branches` is `anyOf ?? oneOf`. What is absent is empty, and what is no object is
-- `anything`.
mutual
  pub data Schema : Type 0 where
    anything : Schema
    node :
        (types : Option (List String))
        → (nullable : Bool) → (members : List Json) → (branches : Schemas)
        → (properties : Properties) → (required : List String) → (items : Schema) → Schema

  pub data Schemas : Type 0 where
    no_schemas : Schemas
    schema : Schema → Schemas → Schemas

  pub data Properties : Type 0 where
    no_properties : Properties
    property : String → Schema → Properties → Properties

pub data SchemaValidationMode : Type 0 where
  structural strict : SchemaValidationMode
