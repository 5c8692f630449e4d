-- ===== src/Resilience/Executor/Boundary.antt =====
-- The data boundary: what may be handed to an adapter, and as which envelope.
use vibe_ai_router.Common.{
  String, ◌≡◌, ◌≢◌, ◌⊎◌, Bool, true, false, some, List, [], arith, All, All-weaken, inl, inr,
}
use vibe_ai_router.Common.Dict
use vibe_ai_router.Db.{is_local_kind, ModelRow, local_only}
use vibe_ai_router.Gateway.Errors.{ok}
use vibe_ai_router.Gateway.Envelope.{AiRequest}
use vibe_ai_router.Gateway.Route.{PipelineCtx, RouteDeps}
use vibe_ai_router.Policy.Limits.{clamp_to_model}
use vibe_ai_router.Policy.Select.{includes}
use vibe_ai_router.Resilience.Executor.{
  Outside, Sent, Exec, hop_envelope, candidate_models, execute_resilient,
}
use vibe_ai_router.Resilience.Executor.Clean.{IsProper, IsClean-start, IsClean-run_candidates}

-- The row of a candidate of the request.
abbrev pub IsCandidate :
    {A : Type 0} → RouteDeps → Bool → Outside A → PipelineCtx → ModelRow → Type 0
IsCandidate deps verify_responses out ctx m =
    (ids : List String) × (candidate_models deps verify_responses out ctx ≡ ok ids)
    × (id : String) × (includes id ids ≡ true)
    × (Dict.get id ctx.effective.models_by_id ≡ some m)

module _ {A : Type 0} (deps : RouteDeps) (verify_responses : Bool) (out : Outside A) (x : Exec)
    (nothing_sent : x.sent ≡ []) where
  -- Every envelope that an execution hands to an adapter goes to the row of a candidate, the
  -- selected model or one of the fallback chain, that is fit to serve the request and local unless
  -- the scrubber has not barred the cloud, and is the hop's copy of the request: whatever fails, whatever the providers answer, and whatever other requests do.
  pub execute_resilient-IsProper :
      All
        (IsProper deps verify_responses out x.ctx (IsCandidate deps verify_responses out x.ctx))
        (execute_resilient deps verify_responses out x).0.sent
  unfolding execute_resilient
  execute_resilient-IsProper =
      let candidate = IsCandidate deps verify_responses out x.ctx in
      let ids = candidate_models deps verify_responses out x.ctx in
      (IsClean-run_candidates deps verify_responses out x.ctx candidate ids x
        (λ l e id m h f. (l, e, id, h, f))
        (IsClean-start deps verify_responses out candidate x nothing_sent)).proper

  -- A request of a local-only task class is only ever sent to models of the local tier.
  pub execute_resilient-local_only :
      x.ctx.effective.task_class.sensitivity ≡ local_only
      → All
          (λ s. is_local_kind s.model.provider_kind ≡ true)
          (execute_resilient deps verify_responses out x).0.sent
  execute_resilient-local_only e =
      All-weaken _ (execute_resilient deps verify_responses out x).0.sent
        (λ s p. stays (is_local_kind s.model.provider_kind) p.cleared.fit.stays_local)
        execute_resilient-IsProper
    where
      stays :
          (b : Bool) → (x.ctx.effective.task_class.sensitivity ≢ local_only) ⊎ (b ≡ true) → b ≡ true
      stays b (inl other) = absurd (other e)
      stays b (inr near) = near

  -- A request that the scrubber has barred from the cloud is only ever sent to models of the local
  -- tier.
  pub execute_resilient-barred :
      x.ctx.cloud_blocked ≡ true
      → All
          (λ s. is_local_kind s.model.provider_kind ≡ true)
          (execute_resilient deps verify_responses out x).0.sent
  execute_resilient-barred e =
      All-weaken _ (execute_resilient deps verify_responses out x).0.sent
        (λ s p. near_of (is_local_kind s.model.provider_kind) p.cleared.boundary)
        execute_resilient-IsProper
    where
      near_of : (b : Bool) → (b ≡ true) ⊎ (x.ctx.cloud_blocked ≡ false) → b ≡ true
      near_of b (inl near) = near
      near_of b (inr free) = ground arith

  -- Where the scrubber left a redacted copy for the cloud, every envelope that is sent is clamped
  -- to its model and made from the original only for a model of the local tier.
  pub execute_resilient-redacted :
      (copy : AiRequest)
      → x.ctx.cloud_envelope ≡ some copy
      → All
          (λ s.
            ((is_local_kind s.model.provider_kind ≡ true)
              × (s.envelope ≡ clamp_to_model x.ctx.envelope s.model))
            ⊎ ((is_local_kind s.model.provider_kind ≡ false)
                × (s.envelope ≡ clamp_to_model copy s.model)))
          (execute_resilient deps verify_responses out x).0.sent
  unfolding hop_envelope
  execute_resilient-redacted copy e =
      All-weaken _ (execute_resilient deps verify_responses out x).0.sent (λ s p. copies s p.copy)
        execute_resilient-IsProper
    where
      copies :
          (s : Sent)
          → s.envelope ≡ hop_envelope s.model x.ctx
          → ((is_local_kind s.model.provider_kind ≡ true)
              × (s.envelope ≡ clamp_to_model x.ctx.envelope s.model))
            ⊎ ((is_local_kind s.model.provider_kind ≡ false)
                × (s.envelope ≡ clamp_to_model copy s.model))
      copies s c = ground arith
