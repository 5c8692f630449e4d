-- ===== src/Policy/Select.antt =====
-- src/policy/engine.ts, `selectModel`: the model that a request is served by.
pub mod Soundness
pub mod Exhaustion
pub mod Rows
use vibe_ai_router.Common.{
  String, Bool, true, false, not, ◌&&◌, Option, none, some, List, [], ◌∷◌, ◌++◌, map, any, filter,
  find, str_eq, if◌then◌else◌,
}
use vibe_ai_router.Common.Dict
use vibe_ai_router.Common.Dict.{Dict}
use vibe_ai_router.Db.{is_local_kind, CapabilityKey, vision, key_eq, ModelRow, PolicyRow}
use vibe_ai_router.Gateway.Errors.{
  Result, ok, err, router_error, policy_blocked, capability_missing, no_vision_provider,
}
use vibe_ai_router.Gateway.Envelope.{AiRequest}
use vibe_ai_router.Policy.Violation.{
  EffectivePolicy, required_capabilities, Violation, blocked, lacks, model_violation,
}

-- `ids.includes(id)`
abbrev pub includes : String → List String → Bool
includes id ids = any (str_eq id) ids

-- The map's values, in its order.
unfoldable pub values : Dict ModelRow → List ModelRow
values [] = []
values ((k, m) ∷ rest) = m ∷ values rest

abbrev is_requested : String → PolicyRow → ModelRow → Bool
is_requested name policy m =
    str_eq m.canonical_id name && includes m.id (policy.default_model_id ∷ policy.allowed_model_ids)

-- An empty name is no request.
unfoldable pub requested_match : EffectivePolicy → Option String → Option ModelRow
requested_match effective none = none
requested_match effective (some name) =
    if str_eq name ""
    then none
    else find (is_requested name effective.policy) (values effective.models_by_id)

-- Keeps the first occurrence of each, and none of those in `seen`.
unfoldable pub distinct : List String → List String → List String
distinct seen [] = []
distinct seen (id ∷ ids) =
    let rest = distinct (id ∷ seen) ids in if includes id seen then rest else id ∷ rest

-- The rows of those identifiers that have one.
unfoldable pub rows_of : Dict ModelRow → List String → List ModelRow
rows_of m [] = []
rows_of m (id ∷ ids) =
    let rest = rows_of m ids in elim (Dict.get id m) [ none ↦ rest | some row ↦ row ∷ rest ]

-- The allowed set, then the fallback chain, without the default.
unfoldable pub configured : EffectivePolicy → List ModelRow
configured effective = rows_of effective.models_by_id (
    filter (λ id. not (str_eq id effective.policy.default_model_id))
      (distinct [] (effective.policy.allowed_model_ids ++ effective.policy.fallback_chain)))

abbrev pub is_local : ModelRow → Bool
is_local m = is_local_kind m.provider_kind

unfoldable pub ordered : EffectivePolicy → List ModelRow
ordered effective =
    filter is_local (configured effective) ++ filter (λ m. not (is_local m)) (configured effective)

pub data Scan : Type 0 where
  served : ModelRow → Scan
  exhausted : List CapabilityKey → Scan

-- What is missing on every candidate that failed for its capabilities.
unfoldable pub narrow : Option Violation → List CapabilityKey → List CapabilityKey
narrow (some (lacks ks)) unsatisfiable = filter (λ c. any (key_eq c) ks) unsatisfiable
narrow (some blocked) unsatisfiable = unsatisfiable
narrow none unsatisfiable = unsatisfiable

-- The model, and what the default lacked if this is an upgrade.
pub record Selection : Type 0 where
  pub model : ModelRow
  pub upgraded : Option (List CapabilityKey)

unfoldable pub finish : List CapabilityKey → Scan → Result Selection
finish missing (served m) = ok (record { model = m; upgraded = some missing })
finish missing (exhausted unsatisfiable) =
    if any (key_eq vision) unsatisfiable
    then err (router_error no_vision_provider)
    else err (router_error capability_missing)

module _ (pattern_test : String → String → Bool) where
  unfoldable pub scan :
      EffectivePolicy → List CapabilityKey → List ModelRow → List CapabilityKey → Scan
  scan effective needs [] unsatisfiable = exhausted unsatisfiable
  scan effective needs (m ∷ ms) unsatisfiable =
      let rest =
        scan effective needs ms
          (narrow (model_violation pattern_test m effective needs) unsatisfiable) in
      elim (model_violation pattern_test m effective needs) [ none ↦ served m | some _ ↦ rest ]

  -- After the requested model is out of the question.
  unfoldable pub serve_default :
      EffectivePolicy → List CapabilityKey → Option Violation → Result Selection
  serve_default effective needs none =
      ok (record { model = effective.default_model; upgraded = none })
  serve_default effective needs (some blocked) = err (router_error policy_blocked)
  serve_default effective needs (some (lacks missing)) =
      finish missing (scan effective needs (ordered effective) missing)

  unfoldable pub serve_requested :
      EffectivePolicy → List CapabilityKey → Option ModelRow → Result Selection
  serve_requested effective needs none =
      serve_default effective needs
        (model_violation pattern_test effective.default_model effective needs)
  serve_requested effective needs (some m) = elim (model_violation pattern_test m effective needs) [
    | none ↦ ok (record { model = m; upgraded = none })
    | some _ ↦
        serve_default effective needs
          (model_violation pattern_test effective.default_model effective needs)
  ]

  unfoldable pub select_model : EffectivePolicy → AiRequest → Result Selection
  select_model effective env =
      serve_requested effective (required_capabilities effective env)
        (requested_match effective env.model_requested)
