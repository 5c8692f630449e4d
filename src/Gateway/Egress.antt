-- ===== src/Gateway/Egress.antt =====
-- From the scrub through the executor: what a request lets out to the cloud.
use vibe_ai_router.Common.{
  ℕ, String, ◌≡◌, refl, sym, subst, ap, ◌∙◌, ◌⊎◌, inl, inr, Bool, true, false, not, none, some,
  List, [], ◌∷◌, arith, any, filter, length, str_eq, eq_iff, All, All-weaken, Bool-cases, ◌or_else◌,
}
use vibe_ai_router.Common.Dict
use vibe_ai_router.Db.{is_local_kind, ModelRow}
use vibe_ai_router.Gateway.Errors.{ok}
use vibe_ai_router.Gateway.Envelope.{AiRequest}
use vibe_ai_router.Gateway.Route.{PipelineCtx, RouteDeps}
use vibe_ai_router.Gateway.Route.Clearance.{SameRequest}
use vibe_ai_router.Gateway.Stages.{stage_scrub, is_cloud, cloud_in_chain}
use vibe_ai_router.Gateway.Stages.Scrubbing.{StaysNear, StaysLocal, stage_scrub-redacts}
use vibe_ai_router.Policy.Violation.{redact}
use vibe_ai_router.Policy.Limits.{clamp_to_model}
use vibe_ai_router.Policy.Select.{includes, Selection, select_model}
use vibe_ai_router.Policy.Select.Soundness.{IsResolved}
use vibe_ai_router.Policy.Select.Rows.{select_model-IsRowOf}
use vibe_ai_router.Protect.Envelope.{redact_envelope, scrubber}
use vibe_ai_router.Protect.Envelope.Clean.{redact_envelope-clean}
use vibe_ai_router.Resilience.Executor.{
  Outside, Sent, Exec, hop_envelope, candidate_models, execute_resilient,
}
use vibe_ai_router.Resilience.Executor.Clean.{IsProper}
use vibe_ai_router.Resilience.Executor.Boundary.{IsCandidate, execute_resilient-IsProper}

hop_envelope-same :
    (model : ModelRow) (a b : PipelineCtx)
    → SameRequest a b
    → hop_envelope model b ≡ hop_envelope model a
unfolding hop_envelope
hop_envelope-same model a b h = cc (h.envelope, h.cloud_envelope)

hop_envelope-plain :
    (model : ModelRow) (ctx : PipelineCtx)
    → ctx.cloud_envelope ≡ none
    → hop_envelope model ctx ≡ clamp_to_model ctx.envelope model
unfolding hop_envelope
hop_envelope-plain model ctx h = ground arith

chain-near :
    (p : String → Bool) (ids : List String) (f : String → Bool) (id : String)
    → any f ids ≡ false
    → includes id (filter p ids) ≡ true
    → f id ≡ false
chain-near p [] f id none_far inc = absurd (cc)
chain-near p (k ∷ ids) f id none_far inc = elim (Bool-cases (str_eq id k)) [
  | inl here ↦
      let same : id ≡ k = (eq_iff id k).0 here in subst (λ z. f z ≡ false) (sym same) (ground arith)
  | inr away ↦ chain-near p ids f id (ground arith) (ground arith)
]

candidate_models-eq :
    {A : Type 0} (deps : RouteDeps) (verify_responses : Bool) (out : Outside A) (ctx : PipelineCtx)
    (s : Selection) (ids : List String)
    → select_model deps.pattern_test ctx.effective ctx.envelope ≡ ok s
    → candidate_models deps verify_responses out ctx ≡ ok ids
    → ids
      ≡ s.model.id ∷ filter (λ id. not (str_eq id s.model.id)) ctx.effective.policy.fallback_chain
unfolding candidate_models
candidate_models-eq deps verify_responses out ctx s ids sel h = ground arith

-- Where no hop can reach the cloud, every candidate is a model of the local tier.
StaysLocal-near :
    {A : Type 0} (deps : RouteDeps) (verify_responses : Bool) (out : Outside A) (ctx : PipelineCtx)
    (m : ModelRow)
    → IsResolved ctx.effective
    → StaysLocal deps ctx
    → IsCandidate deps verify_responses out ctx m
    → is_local_kind m.provider_kind ≡ true
unfolding cloud_in_chain
StaysLocal-near deps verify_responses out ctx m r (s, sel, near, chain)
      (ids, cand, id, inc, found) =
    let listed = candidate_models-eq deps verify_responses out ctx s ids sel cand in
    let row = select_model-IsRowOf deps.pattern_test ctx.effective ctx.envelope s r sel in
    let models = ctx.effective.models_by_id in
    let inc' = subst (λ l. includes id l ≡ true) listed inc in
    elim (Bool-cases (str_eq id s.model.id)) [
      | inl here ↦
          let same : id ≡ s.model.id = (eq_iff id s.model.id).0 here in
          let found' = subst (λ z. Dict.get z models ≡ some m) same found in
          let own : s.model ≡ m = ground (arith, row, found') in
          subst (λ (z : ModelRow). is_local_kind z.provider_kind ≡ true) own near
      | inr away ↦
          let local_hop : is_cloud (Dict.get id models) ≡ false =
            chain-near (λ z. not (str_eq z s.model.id)) ctx.effective.policy.fallback_chain
              (λ z. is_cloud (Dict.get z models)) id chain (ground arith) in
          let seen = subst (λ o. is_cloud o ≡ false) found local_hop in ground arith
    ]

nil_of_length {ℓ} : {A : Type ℓ} (xs : List A) → length xs ≡ 0 → xs ≡ []
nil_of_length [] h = refl
nil_of_length (x ∷ xs) h = absurd (omega arith)

-- What a scrub that found something, or nothing, makes of the copy for a model.
as_copy :
    (ctx after : PipelineCtx) (s : Sent) (copy : AiRequest) (total : ℕ)
    → ctx.cloud_envelope ≡ none
    → scrubber.redact_envelope ctx.envelope ≡ some (copy, total)
    → ((total ≡ 0) × (after ≡ ctx)) ⊎ (hop_envelope s.model after ≡ clamp_to_model copy s.model)
    → s.envelope ≡ hop_envelope s.model after
    → s.envelope ≡ clamp_to_model (redact_envelope ctx.envelope).0 s.model
as_copy ctx after s copy total fresh made (inl (nothing, unchanged)) sent =
    let none_found : length (redact_envelope ctx.envelope).1 ≡ 0 = ground arith in
    let clean = redact_envelope-clean ctx.envelope (nil_of_length _ none_found) in
    sent
    ∙ ap (hop_envelope s.model) unchanged
    ∙ hop_envelope-plain s.model ctx fresh
    ∙ ap (λ e. clamp_to_model e s.model) (sym clean)
as_copy ctx after s copy total fresh made (inr e) sent =
    let same : copy ≡ (redact_envelope ctx.envelope).0 = cc in
    sent ∙ e ∙ ap (λ v. clamp_to_model v s.model) same

-- For a firm that redacts, once a request has passed the scrub, whatever its execution hands to an
-- adapter for a model outside the local tier is the redacted copy of the request, clamped to the
-- model: on every hop, whatever fails and whatever other requests do; provided that the policy was
-- resolved and nothing was sent before.
pub execute_resilient-redact_envelope :
    {A : Type 0} (deps : RouteDeps) (verify_responses : Bool) (out : Outside A) (ctx : PipelineCtx)
    (x : Exec)
    → IsResolved ctx.effective
    → (ctx.effective.firm_settings.scrubber_mode or_else redact) ≡ redact
    → ctx.cloud_envelope ≡ none
    → (stage_scrub deps scrubber ctx).1 ≡ ok tt
    → SameRequest (stage_scrub deps scrubber ctx).0 x.ctx
    → x.sent ≡ []
    → All
        (λ s.
          (is_local_kind s.model.provider_kind ≡ true)
          ⊎ (s.envelope ≡ clamp_to_model (redact_envelope ctx.envelope).0 s.model))
        (execute_resilient deps verify_responses out x).0.sent
execute_resilient-redact_envelope deps verify_responses out ctx x r mode fresh passed same
      none_sent =
    All-weaken _ (execute_resilient deps verify_responses out x).0.sent
      (λ s p. elim (Bool-cases (is_local_kind s.model.provider_kind)) [
        | inl near ↦ inl near
        | inr far ↦ lets_out s p far
      ])
      (execute_resilient-IsProper deps verify_responses out x none_sent)
  where
    after : PipelineCtx
    after = (stage_scrub deps scrubber ctx).0

    same_effective :
        ctx.effective ≡ x.ctx.effective
        → ctx.envelope ≡ x.ctx.envelope
        → StaysLocal deps ctx
        → StaysLocal deps x.ctx
    same_effective e q h =
        subst (λ v. StaysNear deps x.ctx.effective v) q
          (subst (λ v. StaysNear deps v ctx.envelope) e h)

    lets_out :
        (s : Sent)
        → IsProper deps verify_responses out x.ctx (IsCandidate deps verify_responses out x.ctx) s
        → is_local_kind s.model.provider_kind ≡ false
        → (is_local_kind s.model.provider_kind ≡ true)
          ⊎ (s.envelope ≡ clamp_to_model (redact_envelope ctx.envelope).0 s.model)
    lets_out s p far = elim (stage_scrub-redacts deps scrubber ctx s.model mode fresh passed far) [
      | inl (stays, unchanged) ↦
          let e : ctx.effective ≡ x.ctx.effective =
            sym (ap (λ (c : PipelineCtx). c.effective) unchanged) ∙ same.effective in
          let q : ctx.envelope ≡ x.ctx.envelope =
            sym (ap (λ (c : PipelineCtx). c.envelope) unchanged) ∙ same.envelope in
          inl (
            StaysLocal-near deps verify_responses out x.ctx s.model (subst IsResolved e r)
              (same_effective e q stays) p.listed)
      | inr (copy, total, made, sent_as) ↦
          let sent : s.envelope ≡ hop_envelope s.model after =
            p.copy ∙ hop_envelope-same s.model after x.ctx same in
          inr (as_copy ctx after s copy total fresh made sent_as sent)
    ]
