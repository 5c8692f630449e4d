-- ===== src/Gateway/Served.antt =====
-- src/resilience/executor.ts with src/gateway/verify.ts: the executor's verification is the verdict on
-- the response against the envelope that was sent.
use vibe_ai_router.Common.{
  ℕ, String, ◌≡◌, refl, sym, ap, ◌∙◌, subst, Bool, true, Option, none, some, List, [], ◌∷◌, ◌++◌,
  length, All, All-last,
}
use vibe_ai_router.Gateway.Errors.{Result, ok, err}
use vibe_ai_router.Gateway.Json.{Json, SchemaValidationMode}
use vibe_ai_router.Gateway.Envelope.{AiRequest, AiResponse}
use vibe_ai_router.Gateway.Route.{RouteDecision, PipelineCtx, RouteDeps}
use vibe_ai_router.Gateway.Verify.Response.{
  InvalidResponseReason, empty_response, provider_error_finish, tool_arguments_not_json,
  response_not_json, json_truncated, schema_violation, verify_response,
}
use vibe_ai_router.Resilience.Executor.{
  Outside, Verdict, Sent, Exec, hop_envelope, execute_resilient,
}
use vibe_ai_router.Resilience.Executor.Clean.{IsProper}
use vibe_ai_router.Resilience.Executor.Boundary.{IsCandidate, execute_resilient-IsProper}
use vibe_ai_router.Resilience.Executor.Verified.{IsServed, execute_resilient-IsServed}

abbrev pub reason_text : InvalidResponseReason → String
reason_text empty_response = "empty_response"
reason_text provider_error_finish = "provider_error_finish"
reason_text tool_arguments_not_json = "tool_arguments_not_json"
reason_text response_not_json = "response_not_json"
reason_text json_truncated = "json_truncated"
reason_text schema_violation = "schema_violation"

abbrev text_if : Option InvalidResponseReason → Option String
text_if none = none
text_if (some reason) = some (reason_text reason)

-- What the executor reads of a verdict.
unfoldable pub verdict_for : Option InvalidResponseReason × List String → Verdict
verdict_for r = record { finding = text_if r.0; soft = length r.1 }

no_reason : (o : Option InvalidResponseReason) → text_if o ≡ none → o ≡ none
no_reason none h = refl
no_reason (some reason) h = absurd (cc)

module _ (parse : String → Option Json) (is_integer : String → Bool) (index : String → ℕ → String)
    (default : SchemaValidationMode) where
  unfoldable pub verify_hop : AiResponse → AiRequest → Verdict
  unfolding verdict_for
  verify_hop answer env =
      verdict_for (verify_response parse is_integer index answer env.response_format default)

  module _ (deps : RouteDeps) (out : Outside AiResponse) (start : PipelineCtx) where
    -- An answer that was given to the last envelope that was sent, the hop's copy of the request for
    -- a candidate, and that the verification accepts against this envelope's response format.
    pub record Accepted (sent : List Sent) (answer : AiResponse) : Type 0 where
      pub before : List Sent
      pub route : RouteDecision
      pub envelope : AiRequest
      pub asked_at : ℕ
      pub last_sent : sent ≡ before ++ record { model = route.model; envelope = envelope } ∷ []
      pub given : out.execute asked_at route envelope ≡ ok answer
      pub candidate : IsCandidate deps true out start route.model
      pub copy : envelope ≡ hop_envelope route.model start
      pub accepted :
          (verify_response parse is_integer index answer envelope.response_format default).0 ≡ none

    abbrev pub IsAccepted : List Sent → Result AiResponse → Type 0
    IsAccepted sent (ok answer) = Accepted sent answer
    IsAccepted sent (err e) = Unit {0}

    accept :
        (sent : List Sent) (r : Result AiResponse)
        → out.verify ≡ verify_hop
        → All (IsProper deps true out start (IsCandidate deps true out start)) sent
        → IsServed deps out sent r
        → IsAccepted sent r
    unfolding verify_hop
    accept sent (err e) verifies proper h = tt
    accept sent (ok answer) verifies proper h =
        let own =
          All-last (IsProper deps true out start (IsCandidate deps true out start)) h.before
            (record { model = h.route.model; envelope = h.envelope })
            (subst (λ l. All (IsProper deps true out start (IsCandidate deps true out start)) l)
              h.last_sent proper) in
        record {
          before = h.before;
          route = h.route;
          envelope = h.envelope;
          asked_at = h.asked_at;
          last_sent = h.last_sent;
          given = h.given;
          candidate = own.listed;
          copy = own.copy;
          accepted =
              no_reason _ (sym (ap (λ v. (v answer h.envelope).finding) verifies) ∙ h.accepted);
        }

  -- Every answer that an execution serves, where responses are verified, is what the adapter gave
  -- for the last envelope that was sent, which is the hop's copy of the request for a candidate, and
  -- the verification accepts the answer against the response format of this envelope.
  pub execute_resilient-IsAccepted :
      (deps : RouteDeps) (out : Outside AiResponse) (x : Exec)
      → out.verify ≡ verify_hop
      → x.sent ≡ []
      → let (x', r) = execute_resilient deps true out x in IsAccepted deps out x.ctx x'.sent r
  execute_resilient-IsAccepted deps out x verifies nothing_sent =
      let (x', r) = execute_resilient deps true out x in
      accept deps out x.ctx x'.sent r verifies
        (execute_resilient-IsProper deps true out x nothing_sent)
        (execute_resilient-IsServed deps out x)
