-- ===== src/Protect/Envelope/Shape.antt =====
-- A redacted request asks for the same as the original.
use vibe_ai_router.Common.{String, ◌≡◌, refl, Bool, List, [], ◌∷◌, arith, any, map}
use vibe_ai_router.Gateway.Envelope.{
  ContentPart, text, image, Content, plain, parts, AiMessage, AiRequest,
}
use vibe_ai_router.Policy.Violation.{
  EffectivePolicy, has_image, is_image, request_requires, required_capabilities,
}
use vibe_ai_router.Policy.Select.{select_model}
use vibe_ai_router.Protect.Envelope.{scrub_part, scrub_content, scrub_message, redact_envelope}

any-scrub_part : (ps : List ContentPart) → any is_image (map scrub_part ps) ≡ any is_image ps
any-scrub_part [] = refl
any-scrub_part (text s ∷ ps) = ground (arith, any-scrub_part ps)
any-scrub_part (image u ∷ ps) = ground (arith, any-scrub_part ps)

has_image-scrub : (c : Content) → has_image (scrub_content c) ≡ has_image c
has_image-scrub (plain s) = refl
has_image-scrub (parts ps) = any-scrub_part ps

any-scrub_message :
    (ms : List AiMessage)
    → any (λ (m : AiMessage). has_image m.content) (map scrub_message ms)
      ≡ any (λ (m : AiMessage). has_image m.content) ms
any-scrub_message [] = refl
any-scrub_message (m ∷ ms) = ground (arith, any-scrub_message ms, has_image-scrub m.content)

request_requires-redact :
    (env : AiRequest) → request_requires (redact_envelope env).0 ≡ request_requires env
unfolding request_requires redact_envelope
request_requires-redact env = rw (any-scrub_message env.messages) refl

-- The redacted copy of a request is served by the same model as the request, or refused with the same
-- error.
pub select_model-redact_envelope :
    (pattern_test : String → String → Bool) (effective : EffectivePolicy) (env : AiRequest)
    → select_model pattern_test effective (redact_envelope env).0
      ≡ select_model pattern_test effective env
unfolding select_model required_capabilities
select_model-redact_envelope pattern_test effective env =
    rw (request_requires-redact env) (unfold redact_envelope in refl)
