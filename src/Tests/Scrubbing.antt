-- ===== src/Tests/Scrubbing.antt =====
-- The scrub of a request whose own model is local and whose fallback chain reaches the cloud.
use vibe_ai_router.Common.{◌≡◌, refl, ◌⊎◌, some, none, false}
use vibe_ai_router.Common.Dict
use vibe_ai_router.Db.{cloud_allowed}
use vibe_ai_router.Catalog.{is_capped, effective_capabilities}
use vibe_ai_router.Gateway.Route.{PipelineCtx}
use vibe_ai_router.Gateway.Stages.{
  Scrubber, cloud_in_chain, scrub_redact, scrub_mode, scrub_selected, stage_scrub,
}
use vibe_ai_router.Gateway.Stages.Scrubbing.{StaysLocal, IsScrubbed, stage_scrub-redacts}
use vibe_ai_router.Policy.Violation as Violation
use vibe_ai_router.Policy.Select as Select
use vibe_ai_router.Tests.Sample.{gpt, context, request, deps}

abbrev scrubber : Scrubber
scrubber = record {
  scan_envelope = λ env. some 1;
  redact_envelope = λ env. some (record env { messages = (request "ssn [SSN]").messages }, 1);
}

abbrev ctx : PipelineCtx
ctx = context cloud_allowed none false

stage_scrub-redacts_example :
    (StaysLocal deps ctx × ((stage_scrub deps scrubber ctx).0 ≡ ctx))
    ⊎ IsScrubbed scrubber ctx (stage_scrub deps scrubber ctx).0 gpt
unfolding Dict.get is_capped effective_capabilities Violation.request_requires
    Violation.required_capabilities Violation.missing_capabilities Violation.model_banned
    Violation.model_violation Select.values Select.requested_match Select.serve_default
    Select.serve_requested Select.select_model cloud_in_chain scrub_redact scrub_mode scrub_selected
    stage_scrub
stage_scrub-redacts_example = stage_scrub-redacts deps scrubber ctx gpt refl refl refl refl
