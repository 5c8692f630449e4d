-- ===== src/Gateway/Verify/Acceptance.antt =====
-- src/gateway/verify.ts: when a forced-JSON response is accepted in the strict mode.
use vibe_ai_router.Common.{
  ◌≡◌, ◌≢◌, refl, subst, ◌↔◌, ◌⊎◌, inl, inr, String, Bool, true, false, not, ◌&&◌, Option, none,
  some, List, [], ◌∷◌, ℕ, length, ltb, is_some, if◌then◌else◌, arith,
}
use vibe_ai_router.Common.Texts.{chars, text_of}
use vibe_ai_router.Gateway.Json.{Json, Schema, SchemaValidationMode, strict}
use vibe_ai_router.Gateway.Envelope.{
  AiResponse, ToolCall, json_schema_format, FinishReason, stop, length_reached, content_filter,
  error,
}
use vibe_ai_router.Gateway.Verify.{nothing_yet, Checked, validate}
use vibe_ai_router.Gateway.Verify.Satisfaction.{Satisfies, validate-strict}
use vibe_ai_router.Gateway.Verify.Response.{
  strip_fence, resolve_validation_mode, InvalidResponseReason, is_blank, json_source,
  is_error_finish, is_length_finish, is_filter_finish, is_empty_response, bad_arguments, verdict,
  check_schema, check_json, check_forced, verify_response,
}

module _ (parse : String → Option Json) where
  abbrev pub ArgumentsParse : List ToolCall → Type 0
  ArgumentsParse [] = Unit {0}
  ArgumentsParse (tc ∷ tcs) = ((v : Json) × (parse tc.arguments ≡ some v)) × ArgumentsParse tcs

-- Content, a tool call or a refusal.
abbrev pub Answers : AiResponse → Type 0
Answers res =
    (is_blank res.content ≡ false) ⊎ ((res.tool_calls ≢ []) ⊎ (res.finish_reason ≡ content_filter))

abbrev Findings : Type 0
Findings = Option InvalidResponseReason × List String

-- A test in the way of acceptance.
guard_iff :
    (b : Bool) (r : InvalidResponseReason) (k : Findings) (P Q : Type 0)
    → ((b ≡ false) ↔ P)
    → ((k.0 ≡ none) ↔ Q)
    → ((if b then (some r, []) else k).0 ≡ none) ↔ P × Q
guard_iff true r k P Q hp hq = (λ h. absurd (cc), λ h. let e = hp.1 h.0 in absurd (cc))
guard_iff false r k P Q hp hq = (λ h. (hp.0 refl, hq.0 h), λ h. hq.1 h.1)

error_iff : (f : FinishReason) → (is_error_finish f ≡ false) ↔ (f ≢ error)
error_iff error = (λ h. absurd (cc), λ h. absurd (h refl))
error_iff stop = (λ h e. cc, λ h. refl)
error_iff _ = (λ h e. cc, λ h. refl)

length_iff : (f : FinishReason) → (is_length_finish f ≡ false) ↔ (f ≢ length_reached)
length_iff length_reached = (λ h. absurd (cc), λ h. absurd (h refl))
length_iff stop = (λ h e. cc, λ h. refl)
length_iff _ = (λ h e. cc, λ h. refl)

filter_iff : (f : FinishReason) → (is_filter_finish f ≡ true) ↔ (f ≡ content_filter)
filter_iff content_filter = (λ h. refl, λ h. refl)
filter_iff stop = (λ h. absurd (cc), λ h. absurd (cc))
filter_iff _ = (λ h. absurd (cc), λ h. absurd (cc))

no_calls_iff : (calls : List ToolCall) → (ltb 0 (length calls) ≡ true) ↔ (calls ≢ [])
no_calls_iff [] = (λ h. absurd (ground arith), λ h. absurd (h refl))
no_calls_iff (tc ∷ tcs) = (λ h e. cc, λ h. ground arith)

three_iff :
    (a b c : Bool) (Q R : Type 0)
    → ((b ≡ true) ↔ Q)
    → ((c ≡ true) ↔ R)
    → ((a && (not b && not c)) ≡ false) ↔ (a ≡ false) ⊎ (Q ⊎ R)
three_iff false b c Q R hq hr = (λ h. inl refl, λ h. refl)
three_iff true true c Q R hq hr = (λ h. inr (inl (hq.0 refl)), λ h. refl)
three_iff true false true Q R hq hr = (λ h. inr (inr (hr.0 refl)), λ h. refl)
three_iff true false false Q R hq hr = (
  λ h. absurd (cc),
  λ h. elim h [
    | inl e ↦ absurd (cc)
    | inr (inl q) ↦ absurd (let e = hq.1 q in cc)
    | inr (inr r) ↦ absurd (let e = hr.1 r in cc)
  ],
)

parsed_iff :
    (parsed : Option Json) (rest : Bool) (Q : Type 0)
    → ((rest ≡ false) ↔ Q)
    → ((if not (is_some parsed) then true else rest) ≡ false) ↔ ((v : Json) × (parsed ≡ some v)) × Q
parsed_iff none rest Q hq = (λ h. absurd (cc), λ h. absurd (let e = h.0.1 in cc))
parsed_iff (some v) rest Q hq = (λ h. ((v, refl), hq.0 h), λ h. hq.1 h.1)

some-injective : (w v : Json) → some v ≡ some w → w ≡ v
some-injective w v h = cc

Answers-iff : (res : AiResponse) → (is_empty_response res ≡ false) ↔ Answers res
unfolding is_empty_response
Answers-iff res =
    three_iff (is_blank res.content) (ltb 0 (length res.tool_calls))
      (is_filter_finish res.finish_reason) _ _ (no_calls_iff res.tool_calls)
      (filter_iff res.finish_reason)

module _ (parse : String → Option Json) (is_integer : String → Bool)
    (index : String → ℕ → String) where
  arguments_iff :
      (calls : List ToolCall)
      → (bad_arguments parse is_integer index calls ≡ false) ↔ ArgumentsParse parse calls
  unfolding bad_arguments
  arguments_iff [] = (λ h. tt, λ h. refl)
  arguments_iff (tc ∷ tcs) = parsed_iff (parse tc.arguments) _ _ (arguments_iff tcs)

  abbrev Valued : Schema → Option Json → Type 0
  Valued schema parsed = (v : Json) × (parsed ≡ some v) × Satisfies is_integer schema v

  verdict_iff : (c : Checked) → ((verdict c).0 ≡ none) ↔ (c.1 ≡ none)
  unfolding verdict
  verdict_iff (c, none) = (λ h. refl, λ h. refl)
  verdict_iff (c, some v) = (λ h. absurd (cc), λ h. absurd (cc))

  module _ (name : String) (schema : Schema) (hint : Option Bool)
      (mode : Option SchemaValidationMode) (default : SchemaValidationMode) where
    json_iff :
        (parsed : Option Json)
        → resolve_validation_mode (some (json_schema_format name schema hint mode)) default ≡ strict
        → ((check_json parse is_integer index
              (some (json_schema_format name schema hint mode))
              default
              parsed).0
            ≡ none)
          ↔ Valued schema parsed
    unfolding check_json check_schema
    json_iff none m = (λ h. absurd (cc), λ h. absurd (let e = h.1 in cc))
    json_iff (some v) m =
        let judged = verdict_iff (validate is_integer index schema strict v "$" nothing_yet) in
        let valid = validate-strict is_integer index schema v "$" nothing_yet in
        rw m (
          λ h. (v, refl, valid.0 (judged.0 h)),
          λ h.
              judged.1 (
                valid.1
                  (subst (λ w. Satisfies is_integer schema w) (some-injective h.0 v h.1) h.2)),
        )

    -- In the strict mode a response to a request for a JSON schema is accepted exactly when the
    -- provider did not report a failure, there is content, a tool call or a refusal, the arguments of
    -- every tool call parse, the response was not cut at its length, and its text without a fence
    -- parses to a value that satisfies the schema.
    pub verify_response-strict :
        (res : AiResponse)
        → resolve_validation_mode (some (json_schema_format name schema hint mode)) default ≡ strict
        → ((verify_response parse is_integer index res
              (some (json_schema_format name schema hint mode))
              default).0
            ≡ none)
          ↔ (res.finish_reason ≢ error)
            × (Answers res
                × (ArgumentsParse parse res.tool_calls
                    × ((res.finish_reason ≢ length_reached)
                        × Valued schema (parse (text_of (strip_fence (chars (json_source res))))))))
    unfolding verify_response check_forced
    verify_response-strict res m = guard_iff _ _ _ _ _ (error_iff res.finish_reason) (
        guard_iff _ _ _ _ _ (Answers-iff res) (
          guard_iff _ _ _ _ _ (arguments_iff res.tool_calls)
            (guard_iff _ _ _ _ _ (length_iff res.finish_reason) (json_iff _ m))))
