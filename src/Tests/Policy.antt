-- ===== src/Tests/Policy.antt =====
-- The selection of a model, the checks of a model, and the limits.
use vibe_ai_router.Common.{◌≡◌, ◌≢◌, refl, ◌↔◌, true, none, some, [], ◌∷◌, All, filter, str_eq}
use vibe_ai_router.Common.Dict
use vibe_ai_router.Catalog.{is_capped, effective_capabilities}
use vibe_ai_router.Db.{vision, local_only, cloud_allowed}
use vibe_ai_router.Gateway.Errors.{router_error, no_vision_provider, policy_blocked}
use vibe_ai_router.Gateway.Envelope.{AiRequest}
use vibe_ai_router.Policy.Violation as Violation
use vibe_ai_router.Policy.Violation.{EffectivePolicy, required_capabilities, model_violation}
use vibe_ai_router.Policy.Violation.Checks.{IsFit, model_violation-eq-none_iff}
use vibe_ai_router.Policy.Select as Select
use vibe_ai_router.Policy.Select.{Selection, select_model, configured, includes, is_local}
use vibe_ai_router.Policy.Select.Soundness.{IsResolved, select_model-IsFit}
use vibe_ai_router.Policy.Select.Exhaustion.{Serves, select_model-err-All, select_model-upgrade}
use vibe_ai_router.Policy.Limits.{clamp_to_model}
use vibe_ai_router.Tests.Sample.{gpt, effective, request}

-- Names the code that a selection runs.
unfoldable code : Unit {0}
unfolding Dict.get is_capped effective_capabilities Violation.request_requires
    Violation.required_capabilities Violation.missing_capabilities Violation.model_banned
    Violation.model_violation Select.values Select.requested_match Select.distinct Select.rows_of
    Select.configured Select.ordered Select.narrow Select.finish Select.scan Select.serve_default
    Select.serve_requested Select.select_model clamp_to_model
code = tt

-- The class needs vision, which the local default lacks.
abbrev seeing : EffectivePolicy
seeing = effective cloud_allowed true

abbrev upgrade : Selection
upgrade = record { model = gpt; upgraded = some (vision ∷ []) }

select_model-IsFit_example : IsFit str_eq gpt seeing (required_capabilities seeing (request "scan"))
unfolding code
select_model-IsFit_example = select_model-IsFit str_eq seeing (request "scan") upgrade refl

seeing-IsResolved : IsResolved seeing
unfolding Dict.get
seeing-IsResolved = record {
  keyed = (refl, (refl, (refl, tt)));
  default_id = refl;
  map = (refl, (refl, (refl, tt)));
  default_row = refl;
}

upgrade-ne_none : upgrade.upgraded ≢ none
upgrade-ne_none e = cc

select_model-upgrade_example :
    All (λ m. ¬ Serves str_eq seeing (request "scan") m) (filter is_local (configured seeing))
unfolding code
select_model-upgrade_example =
    select_model-upgrade str_eq seeing (request "scan") upgrade refl upgrade-ne_none refl

-- The same for a local-only class: no configured model can serve.
abbrev blind : EffectivePolicy
blind = effective local_only true

code-ne_blocked : (router_error no_vision_provider).code ≢ policy_blocked
code-ne_blocked e = cc

select_model-err-All_example :
    All (λ m. ¬ Serves str_eq blind (request "scan") m) (configured blind)
unfolding code
select_model-err-All_example =
    select_model-err-All str_eq blind (request "scan") (router_error no_vision_provider) refl
      code-ne_blocked

model_violation-eq-none_iff_example :
    (model_violation str_eq gpt blind (vision ∷ []) ≡ none) ↔ IsFit str_eq gpt blind (vision ∷ [])
model_violation-eq-none_iff_example = model_violation-eq-none_iff str_eq gpt blind (vision ∷ [])

abbrev short : AiRequest
short = record (request "scan") { max_tokens = some 300 }
