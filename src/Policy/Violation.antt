-- ===== src/Policy/Violation.antt =====
-- src/policy/engine.ts, the checks of one model. Whether a model's name matches a banned pattern is
-- decided by JavaScript's regular expressions, the parameter `pattern_test`.
pub mod Checks
use vibe_ai_router.Common.{
  String, Bool, true, false, not, ◌&&◌, Option, none, some, List, [], ◌∷◌, ◌++◌, any, filter,
  is_some, if◌then◌else◌,
}
use vibe_ai_router.Common.{ℕ, leb, length}
use vibe_ai_router.Common.Dict.{Dict}
use vibe_ai_router.Db.{
  ProviderKind, is_local_kind, kind_eq, CapabilityKey, tools, json_schema, vision, key_eq,
  ModelStatus, sunset, active, deprecated, ModelRow, Sensitivity, local_only, cloud_deidentified,
  cloud_allowed, TaskClassRow, PolicyRow,
}
use vibe_ai_router.Gateway.Envelope.{
  ContentPart, image, text, Content, plain, parts, AiMessage, AiRequest, ResponseFormat,
  json_schema_format, text_format, json_object, UserRole,
}
use vibe_ai_router.Catalog.{effective_capabilities}

pub data ScrubberMode : Type 0 where
  block redact warn : ScrubberMode

pub record FirmSettings : Type 0 where
  pub scrubber_mode : Option ScrubberMode
  pub banned_provider_kinds : List ProviderKind
  pub banned_model_patterns : List String
  pub global_temperature_max : Option ℕ

pub record EffectivePolicy : Type 0 where
  pub task_class : TaskClassRow
  pub policy : PolicyRow
  pub default_model : ModelRow
  pub models_by_id : Dict ModelRow
  pub role_rules : UserRole → Option Bool
  pub firm_settings : FirmSettings

abbrev pub is_image : ContentPart → Bool
is_image (image _) = true
is_image (text _) = false

abbrev pub has_image : Content → Bool
has_image (plain _) = false
has_image (parts ps) = any is_image ps

abbrev wants_schema : Option ResponseFormat → Bool
wants_schema (some (json_schema_format _ _ _ _)) = true
wants_schema _ = false

abbrev pub when_needed : Bool → CapabilityKey → List CapabilityKey
when_needed true key = key ∷ []
when_needed false key = []

unfoldable pub request_requires : AiRequest → List CapabilityKey
request_requires env =
    when_needed (leb 1 (length env.tools)) tools
    ++ when_needed (wants_schema env.response_format) json_schema
    ++ when_needed (any (λ (m : AiMessage). has_image m.content) env.messages) vision

-- `needs.add(key)` on a `Set`, which keeps the order of insertion.
abbrev pub add_key : Bool → CapabilityKey → List CapabilityKey → List CapabilityKey
add_key needed key keys =
    if needed then (if any (key_eq key) keys then keys else keys ++ key ∷ []) else keys

unfoldable pub required_capabilities : EffectivePolicy → AiRequest → List CapabilityKey
required_capabilities effective env =
    let req = effective.task_class.requires in
    add_key req.needs_vision vision (
      add_key req.needs_json_schema json_schema
        (add_key req.needs_tools tools (request_requires env)))

unfoldable pub missing_capabilities : ModelRow → List CapabilityKey → List CapabilityKey
missing_capabilities model needs = filter (λ n. not (effective_capabilities model n)) needs

pub data Violation : Type 0 where
  blocked : Violation
  lacks : List CapabilityKey → Violation

abbrev is_sunset : ModelStatus → Bool
is_sunset sunset = true
is_sunset active = false
is_sunset deprecated = false

abbrev pub is_local_only : Sensitivity → Bool
is_local_only local_only = true
is_local_only cloud_deidentified = false
is_local_only cloud_allowed = false

-- The end of `modelViolation`.
abbrev lacking : List CapabilityKey → Option Violation
lacking [] = none
lacking (k ∷ ks) = some (lacks (k ∷ ks))

module _ (pattern_test : String → String → Bool) where
  unfoldable pub model_banned : ModelRow → FirmSettings → Bool
  model_banned model settings =
      if any (kind_eq model.provider_kind) settings.banned_provider_kinds
      then true
      else any (λ pattern. pattern_test pattern model.canonical_id) settings.banned_model_patterns

  unfoldable pub model_violation :
      ModelRow → EffectivePolicy → List CapabilityKey → Option Violation
  model_violation model effective needs =
      if is_sunset model.status
      then some blocked
      else if is_local_only effective.task_class.sensitivity
          && not (is_local_kind model.provider_kind)
      then some blocked
      else if model_banned model effective.firm_settings
      then some blocked
      else lacking (missing_capabilities model needs)
