-- ===== src/Gateway/Stages/Scrubbing.antt =====
-- What may leave for the cloud after the scrub.
use vibe_ai_router.Common.{
  ℕ, ◌≡◌, refl, ap, ◌⊎◌, inl, inr, Bool, true, false, not, ◌&&◌, none, some, arith, ◌or_else◌,
  Bool-cases, Option-cases,
}
use vibe_ai_router.Db.{is_local_kind, ModelRow}
use vibe_ai_router.Gateway.Errors.{Result, ok, err}
use vibe_ai_router.Gateway.Envelope.{AiRequest}
use vibe_ai_router.Gateway.Route.{PipelineCtx, RouteDeps}
use vibe_ai_router.Policy.Violation.{EffectivePolicy, redact}
use vibe_ai_router.Policy.Limits.{clamp_to_model}
use vibe_ai_router.Policy.Select.{Selection, select_model}
use vibe_ai_router.Resilience.Executor.{hop_envelope}
use vibe_ai_router.Gateway.Stages.{
  Scrubber, cloud_in_chain, scrub_redact, scrub_mode, scrub_selected, stage_scrub,
}

-- No hop of a request under a policy can reach the cloud.
abbrev pub StaysNear : RouteDeps → EffectivePolicy → AiRequest → Type 0
StaysNear deps effective env =
    (s : Selection) × (select_model deps.pattern_test effective env ≡ ok s)
    × (is_local_kind s.model.provider_kind ≡ true)
    × (cloud_in_chain effective ≡ false)

abbrev pub StaysLocal : RouteDeps → PipelineCtx → Type 0
StaysLocal deps ctx = StaysNear deps ctx.effective ctx.envelope

-- What the scrubber's copy is, and whether it found anything.
abbrev pub IsScrubbed : Scrubber → PipelineCtx → PipelineCtx → ModelRow → Type 0
IsScrubbed scrubber ctx after model =
    (copy : AiRequest) × (total : ℕ) × (scrubber.redact_envelope ctx.envelope ≡ some (copy, total))
    × (((total ≡ 0) × (after ≡ ctx)) ⊎ (hop_envelope model after ≡ clamp_to_model copy model))

scrub_redact_sound :
    (cloud_primary : Bool) (copy : AiRequest) (total : ℕ) (ctx after : PipelineCtx)
    (model : ModelRow)
    → scrub_redact cloud_primary (some (copy, total)) ctx ≡ (after, ok tt)
    → ctx.cloud_envelope ≡ none
    → is_local_kind model.provider_kind ≡ false
    → ((total ≡ 0) × (after ≡ ctx)) ⊎ (hop_envelope model after ≡ clamp_to_model copy model)
unfolding scrub_redact hop_envelope
scrub_redact_sound true copy total ctx after model h fresh far = ground arith
scrub_redact_sound false copy total ctx after model h fresh far = ground arith

module _ (deps : RouteDeps) (scrubber : Scrubber) where
  scrub_selected-redact :
      (r : Result Selection) (ctx after : PipelineCtx) (model : ModelRow)
      → select_model deps.pattern_test ctx.effective ctx.envelope ≡ r
      → (ctx.effective.firm_settings.scrubber_mode or_else redact) ≡ redact
      → ctx.cloud_envelope ≡ none
      → scrub_selected deps scrubber r ctx ≡ (after, ok tt)
      → is_local_kind model.provider_kind ≡ false
      → (StaysLocal deps ctx × (after ≡ ctx)) ⊎ IsScrubbed scrubber ctx after model
  unfolding scrub_selected scrub_mode
  scrub_selected-redact (err e) ctx after model sel mode fresh h far = absurd (cc)
  scrub_selected-redact (ok s) ctx after model sel mode fresh h far =
      let near = is_local_kind s.model.provider_kind in
      elim (Bool-cases (near && not (cloud_in_chain ctx.effective))) [
        | inl stays ↦ inl ((s, sel, ground arith, ground arith), ground arith)
        | inr leaves ↦
            let scrubbed : scrub_redact (not near) (scrubber.redact_envelope ctx.envelope) ctx
                ≡ (after, ok tt) =
              ground arith in
            elim (Option-cases (scrubber.redact_envelope ctx.envelope)) [
              | inl failed ↦ absurd (unfold scrub_redact in ground arith)
              | inr ((copy, total), found) ↦ inr (
                copy,
                total,
                found,
                scrub_redact_sound (not near) copy total ctx after model (rw found at scrubbed)
                    fresh far,
              )
            ]
      ]

  -- For a firm that redacts, after a scrub that passes either no hop of the request can reach the
  -- cloud and the request is as it was, or the scrubber found nothing and the request is as it was, or
  -- every model outside the local tier is sent the scrubber's copy, clamped to the model; provided
  -- that no copy was made before.
  pub stage_scrub-redacts :
      (ctx : PipelineCtx) (model : ModelRow)
      → (ctx.effective.firm_settings.scrubber_mode or_else redact) ≡ redact
      → ctx.cloud_envelope ≡ none
      → (stage_scrub deps scrubber ctx).1 ≡ ok tt
      → is_local_kind model.provider_kind ≡ false
      → (StaysLocal deps ctx × ((stage_scrub deps scrubber ctx).0 ≡ ctx))
        ⊎ IsScrubbed scrubber ctx (stage_scrub deps scrubber ctx).0 model
  unfolding stage_scrub
  stage_scrub-redacts ctx model mode fresh h far =
      let r = select_model deps.pattern_test ctx.effective ctx.envelope in
      let after = (scrub_selected deps scrubber r ctx).0 in
      scrub_selected-redact r ctx after model refl mode fresh (ap (λ x. (after, x)) h) far
