-- ===== src/Protect/Envelope/Clean.antt =====
-- A request in which nothing was found is its own redacted copy.
use vibe_ai_router.Common.{String, ◌≡◌, refl, ap, ◌∙◌, List, [], ◌∷◌, ◌++◌, map}
use vibe_ai_router.Common.Texts.{chars, codes_of}
use vibe_ai_router.Gateway.Envelope.{
  ContentPart, text, image, Content, plain, parts, ToolCall, AiMessage, AiRequest,
}
use vibe_ai_router.Protect.Scan.{ScrubMatch, scan_text}
use vibe_ai_router.Protect.Redact.{scrub_string}
use vibe_ai_router.Protect.Envelope.{
  part_types, content_types, call_types, message_types, types_in, scrub_part, scrub_content,
  scrub_call, scrub_message, redact_envelope,
}

nil_of_append {ℓ} : {A : Type ℓ} (xs ys : List A) → xs ++ ys ≡ [] → (xs ≡ []) × (ys ≡ [])
nil_of_append [] ys h = (refl, h)
nil_of_append (x ∷ xs) ys h = absurd (cc)

nil_of_map : (ms : List ScrubMatch) → map (λ (m : ScrubMatch). m.type) ms ≡ [] → ms ≡ []
nil_of_map [] h = refl
nil_of_map (m ∷ ms) h = absurd (cc)

scrub_string-clean : (s : String) → types_in s ≡ [] → scrub_string s ≡ s
unfolding scrub_string
scrub_string-clean s h = rw (nil_of_map (scan_text (codes_of (chars s))) h, scrub_string) refl

scrub_parts-clean : (ps : List ContentPart) → part_types ps ≡ [] → map scrub_part ps ≡ ps
scrub_parts-clean [] h = refl
scrub_parts-clean (text s ∷ ps) h =
    let (here, rest) = nil_of_append (types_in s) (part_types ps) h in
    cc (scrub_string-clean s here, scrub_parts-clean ps rest)
scrub_parts-clean (image u ∷ ps) h = cc (scrub_parts-clean ps h)

scrub_content-clean : (c : Content) → content_types c ≡ [] → scrub_content c ≡ c
scrub_content-clean (plain s) h = cc (scrub_string-clean s h)
scrub_content-clean (parts ps) h = cc (scrub_parts-clean ps h)

scrub_calls-clean : (tcs : List ToolCall) → call_types tcs ≡ [] → map scrub_call tcs ≡ tcs
scrub_calls-clean [] h = refl
scrub_calls-clean (tc ∷ tcs) h =
    let (here, rest) = nil_of_append (types_in tc.arguments) (call_types tcs) h in
    let same : scrub_call tc ≡ tc =
      ap (λ a. record tc { arguments = a }) (scrub_string-clean tc.arguments here) in
    cc (same, scrub_calls-clean tcs rest)

scrub_messages-clean : (ms : List AiMessage) → message_types ms ≡ [] → map scrub_message ms ≡ ms
scrub_messages-clean [] h = refl
scrub_messages-clean (m ∷ ms) h =
    let (c, others) = nil_of_append (content_types m.content) _ h in
    let (t, rest) = nil_of_append (call_types m.tool_calls) (message_types ms) others in
    let content = scrub_content-clean m.content c in
    let calls = scrub_calls-clean m.tool_calls t in
    let same : scrub_message m ≡ m =
      ap (λ k. record m { content = k; tool_calls = map scrub_call m.tool_calls }) content
      ∙ ap (λ k. record m { tool_calls = k }) calls in
    cc (same, scrub_messages-clean ms rest)

pub redact_envelope-clean :
    (env : AiRequest) → (redact_envelope env).1 ≡ [] → (redact_envelope env).0 ≡ env
unfolding redact_envelope
redact_envelope-clean env h =
    ap (λ ms. record env { messages = ms }) (scrub_messages-clean env.messages h)
