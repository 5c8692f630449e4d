-- ===== src/Gateway/Route.antt =====
-- src/gateway/pipeline.ts, `routeForModel`: the checks that every candidate model passes when a
-- request is routed to it. The context holds what routing and execution read and write; of an audit
-- row the event is modelled, with the models it names.
pub mod Clearance
use vibe_ai_router.Common.{
  ℕ, String, Bool, true, false, not, ◌&&◌, Option, none, some, List, [], ◌∷◌, ◌++◌, any, is_some,
  str_eq, if◌then◌else◌,
}
use vibe_ai_router.Db.{
  ProviderKind, is_local_kind, kind_eq, CapabilityKey, ModelRow, ProviderRow, AuthType, api_key,
  no_auth,
}
use vibe_ai_router.Gateway.Errors.{
  RouterError, router_error, Result, ok, err, policy_blocked, capability_missing, scrubber_blocked,
  provider_unavailable,
}
use vibe_ai_router.Gateway.Envelope.{AiRequest}
use vibe_ai_router.Ledger.Budget.{BudgetScopeCheck}
use vibe_ai_router.Policy.Violation.{
  EffectivePolicy, required_capabilities, Violation, blocked, lacks, model_violation,
}
use vibe_ai_router.Ssrf.{Platform, check_base_url}

pub record RouteDecision : Type 0 where
  pub provider : ProviderRow
  pub model : ModelRow

pub data AuditEvent : Type 0 where
  blocked_scrubber scrubber_redacted scrubber_warning : AuditEvent
  fallback_hop : String → String → AuditEvent
  max_tokens_clamped : String → ℕ → ℕ → AuditEvent
  response_rejected : String → String → AuditEvent
  response_soft_finding : String → ℕ → AuditEvent
  capability_upgrade : String → String → List CapabilityKey → AuditEvent
  budget_soft_warning : BudgetScopeCheck → AuditEvent

pub record PipelineCtx : Type 0 where
  pub effective : EffectivePolicy
  pub envelope : AiRequest
  pub cloud_envelope : Option AiRequest
  pub cloud_blocked : Bool
  pub cloud_block_audited : Bool
  pub route : Option RouteDecision
  pub route_error : Option RouterError
  pub budget_warnings : List BudgetScopeCheck
  pub audits : List AuditEvent

abbrev pub audit : AuditEvent → PipelineCtx → PipelineCtx
audit event ctx = record ctx { audits = ctx.audits ++ event ∷ [] }

-- What routing takes from the rest of the program and the platform.
pub record RouteDeps : Type 0 where
  pub pattern_test : String → String → Bool
  pub platform : Platform
  pub provider_for : ProviderKind → Option ProviderRow
  pub has_adapter : ProviderKind → Bool
  pub get_api_key : String → Option String
  pub ssrf_deny_private_cloud : Bool

abbrev pub violation_error : Violation → RouterError
violation_error blocked = router_error policy_blocked
violation_error (lacks _) = router_error capability_missing

-- The first barred cloud hop of a request is audited.
unfoldable pub bar_cloud : PipelineCtx → PipelineCtx
bar_cloud ctx =
    if ctx.cloud_block_audited
    then ctx
    else audit blocked_scrubber (record ctx { cloud_block_audited = true })

module _ (deps : RouteDeps) where
  open deps use {
    pattern_test, platform, provider_for, has_adapter, get_api_key, ssrf_deny_private_cloud,
  }

  -- `!apiKey` is false: an empty key is none.
  abbrev is_present : Option String → Bool
  is_present none = false
  is_present (some key) = not (str_eq key "")

  -- A provider that needs a key has one.
  abbrev has_key : ProviderRow → AuthType → Bool
  has_key provider api_key = is_present (get_api_key provider.id)
  has_key provider no_auth = true

  unfoldable pub check_provider :
      EffectivePolicy → ModelRow → Option ProviderRow → Result RouteDecision
  check_provider effective model none = err (router_error provider_unavailable)
  check_provider effective model (some provider) =
      if any (kind_eq provider.kind) effective.firm_settings.banned_provider_kinds
      then err (router_error policy_blocked)
      else if ssrf_deny_private_cloud
          && not (check_base_url platform provider.kind provider.base_url)
      then err (router_error policy_blocked)
      else if not (has_adapter provider.kind)
      then err (router_error provider_unavailable)
      else if not (has_key provider provider.auth_type)
      then err (router_error provider_unavailable)
      else ok (record { provider = provider; model = model })

  unfoldable pub route_checked :
      Option Violation → ModelRow → PipelineCtx → PipelineCtx × Result RouteDecision
  route_checked (some violation) model ctx = (ctx, err (violation_error violation))
  route_checked none model ctx =
      if not (is_local_kind model.provider_kind) && ctx.cloud_blocked
      then (bar_cloud ctx, err (router_error scrubber_blocked))
      else (ctx, check_provider ctx.effective model (provider_for model.provider_kind))

  unfoldable pub route_for_model : ModelRow → PipelineCtx → PipelineCtx × Result RouteDecision
  route_for_model model ctx =
      route_checked
        (model_violation pattern_test model ctx.effective
          (required_capabilities ctx.effective ctx.envelope))
        model ctx
