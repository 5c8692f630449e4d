-- ===== src/Gateway/Route/Clearance.antt =====
-- What a route that was given has passed.
use vibe_ai_router.Common.{
  ◌≡◌, refl, sym, subst, Bool-cases, ◌⊎◌, inl, inr, true, false, not, ◌&&◌, Option, none, some,
  arith, any,
}
use vibe_ai_router.Db.{is_local_kind, kind_eq, ModelRow, ProviderRow}
use vibe_ai_router.Gateway.Errors.{ok}
use vibe_ai_router.Policy.Violation.{required_capabilities, Violation, model_violation}
use vibe_ai_router.Policy.Violation.Checks.{IsFit, model_violation-eq-none_iff}
use vibe_ai_router.Ssrf.{check_base_url}
use vibe_ai_router.Gateway.Route.{
  RouteDecision, PipelineCtx, RouteDeps, has_key, bar_cloud, check_provider, route_checked,
  route_for_model,
}

-- Two contexts of one request, whatever was audited in between.
pub record SameRequest (a b : PipelineCtx) : Type 0 where
  pub effective : a.effective ≡ b.effective
  pub envelope : a.envelope ≡ b.envelope
  pub cloud_envelope : a.cloud_envelope ≡ b.cloud_envelope
  pub cloud_blocked : a.cloud_blocked ≡ b.cloud_blocked

module _ (deps : RouteDeps) where
  open deps use {
    pattern_test, platform, provider_for, has_adapter, get_api_key, ssrf_deny_private_cloud,
  }

  -- A model that a request may be sent to: it is fit to serve, and it is local unless the scrubber
  -- has not barred the cloud.
  pub record IsCleared (ctx : PipelineCtx) (model : ModelRow) : Type 0 where
    pub fit :
        IsFit pattern_test model ctx.effective (required_capabilities ctx.effective ctx.envelope)
    pub boundary : (is_local_kind model.provider_kind ≡ true) ⊎ (ctx.cloud_blocked ≡ false)

  -- A provider that may be called: it is the firm's provider of the model's kind, is not banned,
  -- has an adapter and the key that it needs, and its base URL passes the check if that is on.
  pub record IsUsable (ctx : PipelineCtx) (route : RouteDecision) : Type 0 where
    pub found : provider_for route.model.provider_kind ≡ some route.provider
    pub permitted :
        any (kind_eq route.provider.kind) ctx.effective.firm_settings.banned_provider_kinds ≡ false
    pub address :
        (ssrf_deny_private_cloud ≡ false)
        ⊎ (check_base_url platform route.provider.kind route.provider.base_url ≡ true)
    pub adapter : has_adapter route.provider.kind ≡ true
    pub key : has_key deps route.provider route.provider.auth_type ≡ true

  pub route_for_model-SameRequest :
      (model : ModelRow) (ctx : PipelineCtx) → SameRequest ctx (route_for_model deps model ctx).0
  unfolding route_for_model route_checked bar_cloud
  route_for_model-SameRequest model ctx = ground arith

  check_provider-ok :
      (o : Option ProviderRow) (model : ModelRow) (ctx : PipelineCtx) (route : RouteDecision)
      → provider_for model.provider_kind ≡ o
      → check_provider deps ctx.effective model o ≡ ok route
      → (route.model ≡ model) × IsUsable ctx route
  unfolding check_provider
  check_provider-ok none model ctx route f h = absurd (cc)
  check_provider-ok (some provider) model ctx route f h = ground arith

  route_checked-ok :
      (v : Option Violation) (model : ModelRow) (ctx : PipelineCtx) (route : RouteDecision)
      → model_violation pattern_test model ctx.effective
          (required_capabilities ctx.effective ctx.envelope)
        ≡ v
      → (route_checked deps v model ctx).1 ≡ ok route
      → (route.model ≡ model) × IsCleared ctx route.model × IsUsable ctx route
  unfolding route_checked
  route_checked-ok (some violation) model ctx route e h = absurd (cc)
  route_checked-ok none model ctx route e h =
      elim (Bool-cases (not (is_local_kind model.provider_kind) && ctx.cloud_blocked)) [
        | inl barred ↦ absurd (ground arith)
        | inr open_way ↦
            let granted : check_provider deps ctx.effective model (provider_for model.provider_kind)
                ≡ ok route =
              ground arith in
            let (same, usable) =
              check_provider-ok (provider_for model.provider_kind) model ctx route refl granted in
            let cleared : IsCleared ctx model = record {
              fit =
                  (model_violation-eq-none_iff pattern_test model ctx.effective
                      (required_capabilities ctx.effective ctx.envelope)).0
                    e;
              boundary = ground arith;
            } in
            (same, subst (IsCleared ctx) (sym same) cleared, usable)
      ]

  -- A route is given only to the model that was asked for, which a request of this context may be
  -- sent to, with a provider that may be called.
  pub route_for_model-ok :
      (model : ModelRow) (ctx : PipelineCtx) (route : RouteDecision)
      → (route_for_model deps model ctx).1 ≡ ok route
      → (route.model ≡ model) × IsCleared ctx route.model × IsUsable ctx route
  unfolding route_for_model
  route_for_model-ok model ctx route h = route_checked-ok _ model ctx route refl h
