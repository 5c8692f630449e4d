-- ===== src/Gateway/Stages.antt =====
-- src/gateway/pipeline.ts, the stages before the model is called: the task class, the policy's role
-- gate and limits, the budget, the scrub and the route. The scrubber is an interface: what it finds
-- and the copy that it makes.
pub mod Scrubbing
use vibe_ai_router.Common.{
  ℕ, String, Bool, true, false, not, ◌&&◌, ◌||◌, Option, none, some, List, [], ◌∷◌, any, ◌or_else◌,
  leb, str_eq, if◌then◌else◌,
}
use vibe_ai_router.Common.Dict
use vibe_ai_router.Db.{is_local_kind, ModelRow}
use vibe_ai_router.Gateway.Errors.{
  RouterError, router_error, Result, ok, err, policy_blocked, scrubber_blocked,
}
use vibe_ai_router.Gateway.Envelope.{AiRequest}
use vibe_ai_router.Gateway.Route.{
  RouteDecision, PipelineCtx, audit, blocked_scrubber, scrubber_redacted, scrubber_warning,
  RouteDeps, route_for_model, capability_upgrade, budget_soft_warning,
}
use vibe_ai_router.Policy.Violation.{EffectivePolicy, ScrubberMode, block, redact, warn}
use vibe_ai_router.Ledger.Budget.{
  BudgetSettings, BudgetScopeCheck, BudgetsState, Payer, check_budgets,
}
use vibe_ai_router.Policy.Limits.{check_role, apply_limits}
use vibe_ai_router.Policy.Select.{Selection, select_model}

-- The scrubber's reports count the matches; a scrubber that throws gives none.
pub record Scrubber : Type 0 where
  pub scan_envelope : AiRequest → Option ℕ
  pub redact_envelope : AiRequest → Option (AiRequest × ℕ)

-- `stageResolveTaskClass`
unfoldable pub stage_resolve_task_class : PipelineCtx → Result PipelineCtx
stage_resolve_task_class ctx =
    if str_eq ctx.envelope.task_class "" then err (router_error policy_blocked) else ok ctx

abbrev gated : EffectivePolicy → PipelineCtx → Result (Unit {0}) → Result PipelineCtx
gated effective ctx (err e) = err e
gated effective ctx (ok tt) =
    ok (record ctx { effective = effective; envelope = apply_limits effective ctx.envelope })

-- `stagePolicy`, on the policy that was resolved.
unfoldable pub stage_policy : Result EffectivePolicy → PipelineCtx → Result PipelineCtx
stage_policy (err e) ctx = err e
stage_policy (ok effective) ctx =
    gated effective ctx (check_role effective ctx.envelope.metadata.user_role)

abbrev warn_each : List BudgetScopeCheck → PipelineCtx → PipelineCtx
warn_each [] ctx = ctx
warn_each (w ∷ ws) ctx = warn_each ws (audit (budget_soft_warning w) ctx)

abbrev budgeted : Result (List BudgetScopeCheck) → PipelineCtx → PipelineCtx × Result (Unit {0})
budgeted (err e) ctx = (ctx, err e)
budgeted (ok []) ctx = (ctx, ok tt)
budgeted (ok (w ∷ ws)) ctx = (warn_each (w ∷ ws) (record ctx { budget_warnings = w ∷ ws }), ok tt)

-- `stageBudget`
unfoldable pub stage_budget :
    ℕ
    → Payer
    → BudgetSettings
    → String
    → List BudgetsState
    → PipelineCtx
    → PipelineCtx × Result (Unit {0})
stage_budget class_spent payer settings period rows ctx =
    budgeted
      (check_budgets class_spent payer ctx.effective.task_class.id settings
        ctx.effective.policy.monthly_budget_cents period rows)
      ctx

abbrev pub is_cloud : Option ModelRow → Bool
is_cloud none = false
is_cloud (some m) = not (is_local_kind m.provider_kind)

-- A hop of the fallback chain can reach the cloud.
unfoldable pub cloud_in_chain : EffectivePolicy → Bool
cloud_in_chain effective =
    any (λ id. is_cloud (Dict.get id effective.models_by_id)) effective.policy.fallback_chain

-- The copy of the request for the cloud: the request itself if its own model is there.
abbrev with_copy : Bool → AiRequest → PipelineCtx → PipelineCtx
with_copy true copy ctx = record ctx { envelope = copy }
with_copy false copy ctx = record ctx { cloud_envelope = some copy }

unfoldable pub scrub_redact :
    Bool → Option (AiRequest × ℕ) → PipelineCtx → PipelineCtx × Result (Unit {0})
scrub_redact cloud_primary none ctx = (ctx, err (router_error scrubber_blocked))
scrub_redact cloud_primary (some (copy, total)) ctx =
    if leb total 0
    then (ctx, ok tt)
    else (audit scrubber_redacted (with_copy cloud_primary copy ctx), ok tt)

unfoldable pub scrub_block : Bool → Option ℕ → PipelineCtx → PipelineCtx × Result (Unit {0})
scrub_block cloud_primary none ctx = (ctx, err (router_error scrubber_blocked))
scrub_block cloud_primary (some total) ctx =
    if leb total 0
    then (ctx, ok tt)
    else if cloud_primary
    then (audit blocked_scrubber ctx, err (router_error scrubber_blocked))
    else (record ctx { cloud_blocked = true }, ok tt)

unfoldable pub scrub_warn : Option ℕ → PipelineCtx → PipelineCtx × Result (Unit {0})
scrub_warn none ctx = (ctx, err (router_error scrubber_blocked))
scrub_warn (some total) ctx =
    if leb total 0 then (ctx, ok tt) else (audit scrubber_warning ctx, ok tt)

module _ (deps : RouteDeps) (scrubber : Scrubber) where
  unfoldable pub scrub_mode : ScrubberMode → Bool → PipelineCtx → PipelineCtx × Result (Unit {0})
  scrub_mode redact cloud_primary ctx =
      scrub_redact cloud_primary (scrubber.redact_envelope ctx.envelope) ctx
  scrub_mode block cloud_primary ctx =
      scrub_block cloud_primary (scrubber.scan_envelope ctx.envelope) ctx
  scrub_mode warn cloud_primary ctx = scrub_warn (scrubber.scan_envelope ctx.envelope) ctx

  unfoldable pub scrub_selected : Result Selection → PipelineCtx → PipelineCtx × Result (Unit {0})
  scrub_selected (err e) ctx = (ctx, err e)
  scrub_selected (ok s) ctx =
      if is_local_kind s.model.provider_kind && not (cloud_in_chain ctx.effective)
      then (ctx, ok tt)
      else scrub_mode (ctx.effective.firm_settings.scrubber_mode or_else redact)
          (not (is_local_kind s.model.provider_kind)) ctx

  -- `stageScrub`
  unfoldable pub stage_scrub : PipelineCtx → PipelineCtx × Result (Unit {0})
  stage_scrub ctx = scrub_selected (select_model deps.pattern_test ctx.effective ctx.envelope) ctx

-- With the executor behind it, a route that fails is left to the fallback chain.
unfoldable pub settle_route :
    Bool → PipelineCtx × Result RouteDecision → PipelineCtx × Result (Unit {0})
settle_route resilient (ctx, ok route) = (record ctx { route = some route }, ok tt)
settle_route resilient (ctx, err e) =
    if resilient then (record ctx { route_error = some e }, ok tt) else (ctx, err e)

abbrev audit_upgrade : ModelRow → Selection → PipelineCtx → PipelineCtx
audit_upgrade default_model s ctx = elim s.upgraded [
  | none ↦ ctx
  | some missing ↦
      audit (capability_upgrade default_model.canonical_id s.model.canonical_id missing) ctx
]

unfoldable pub route_selected :
    RouteDeps → Bool → Result Selection → PipelineCtx → PipelineCtx × Result (Unit {0})
route_selected deps resilient (err e) ctx = (ctx, err e)
route_selected deps resilient (ok s) ctx =
    settle_route resilient
      (route_for_model deps s.model (audit_upgrade ctx.effective.default_model s ctx))

-- `stageRoute`
unfoldable pub stage_route : RouteDeps → Bool → PipelineCtx → PipelineCtx × Result (Unit {0})
stage_route deps resilient ctx =
    route_selected deps resilient (select_model deps.pattern_test ctx.effective ctx.envelope) ctx
