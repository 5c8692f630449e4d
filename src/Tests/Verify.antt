-- ===== src/Tests/Verify.antt =====
-- The verification of responses.
use vibe_ai_router.Common.{
  ℕ, ◌≡◌, ◌≢◌, refl, ◌↔◌, String, Bool, true, false, Option, none, some, List, [], ◌∷◌, ◌++◌,
  length, str_eq, if◌then◌else◌,
}
use vibe_ai_router.Common.Texts.{chars, text_of}
use vibe_ai_router.Gateway.Json.{
  Json, str, obj, field, end, field_of, json_eq, Schema, anything, node, no_schemas, schema,
  no_properties, property, structural, strict,
}
use vibe_ai_router.Gateway.Envelope.{
  AiResponse, ResponseFormat, json_schema_format, stop, length_reached, error,
}
use vibe_ai_router.Gateway.Errors.{ok}
use vibe_ai_router.Gateway.Route.{PipelineCtx}
use vibe_ai_router.Gateway.Served.{
  verify_hop, verdict_for, IsAccepted, execute_resilient-IsAccepted,
}
use vibe_ai_router.Resilience.Executor.{Outside, Exec, execute_resilient}
use vibe_ai_router.Tests.Sample.{llama, gpt, effective, context, request, deps, begin}
use vibe_ai_router.Tests.Execution as Execution
use vibe_ai_router.Db.{cloud_allowed, CapabilityKey, json_schema}
use vibe_ai_router.Gateway.Verify as Verify
use vibe_ai_router.Gateway.Verify.{nothing_yet, validate}
use vibe_ai_router.Gateway.Verify.Satisfaction.{Satisfies, validate-strict}
use vibe_ai_router.Gateway.Verify.Strictness.{validate-structural}
use vibe_ai_router.Gateway.Verify.Response as Response
use vibe_ai_router.Gateway.Verify.Response.{
  strip_fence, trim_end, resolve_validation_mode, json_source, json_truncated, schema_violation,
  response_not_json, empty_response, verify_response,
}
use vibe_ai_router.Gateway.Verify.Acceptance.{Answers, ArgumentsParse, verify_response-strict}
use vibe_ai_router.Gateway.Verify.Fence.{opening, closing, strip_fence-fenced}

-- Names the code that the verification runs.
unfoldable code : Unit {0}
unfolding json_eq field_of Verify.check_enum Verify.type_matches Verify.has_type
    Verify.check_required Verify.check_items Verify.settle Verify.take_branch validate
    Response.trim_start Response.trim_end Response.trim Response.open_fence Response.close_fence
    strip_fence resolve_validation_mode json_source Response.is_empty_response
    Response.bad_arguments Response.verdict Response.check_schema Response.check_json
    Response.check_forced verify_response
code = tt

abbrev is_integer : String → Bool
is_integer text = str_eq text "1"

abbrev index : String → ℕ → String
index path i = path

-- Two kinds of objects that their `kind` tells apart; the first has an `amount` too.
abbrev kind_of : String → List String → Schema
kind_of name required =
    node (some ("object" ∷ [])) false [] no_schemas
      (property "kind" (node none false (str name ∷ []) no_schemas no_properties [] anything)
        no_properties)
      required anything

abbrev union : Schema
union =
    node none false []
      (schema (kind_of "a" ("kind" ∷ "amount" ∷ []))
        (schema (kind_of "b" ("kind" ∷ [])) no_schemas))
      no_properties [] anything

abbrev second : Json
second = obj (field "kind" (str "b") end)

abbrev partial : Json
partial = obj (field "kind" (str "a") end)

abbrev unlisted : Json
unlisted = obj (field "kind" (str "c") end)

passes : (validate is_integer index union strict second "$" nothing_yet).1 ≡ none
unfolding code
passes = refl

-- A value that names its branch is held to it, and another is taken with a soft finding.
held : (validate is_integer index union structural partial "$" nothing_yet).1 ≢ none
unfolding code
held h = cc

soft :
    ((validate is_integer index union structural unlisted "$" nothing_yet).0.soft ≡ "$.kind" ∷ [])
    × ((validate is_integer index union structural unlisted "$" nothing_yet).1 ≡ none)
unfolding code
soft = (refl, refl)

validate-strict_example :
    ((validate is_integer index union strict second "$" nothing_yet).1 ≡ none)
    ↔ Satisfies is_integer union second
validate-strict_example = validate-strict is_integer index union second "$" nothing_yet

validate-structural_example :
    ((validate is_integer index union structural second "$" nothing_yet).1 ≡ none)
    × ((validate is_integer index union structural second "$" nothing_yet).0.soft ≡ [])
validate-structural_example =
    validate-structural is_integer index union second "$" "$" nothing_yet nothing_yet passes

abbrev parse : String → Option Json
parse text = if str_eq text "b" then some second else none

abbrev fenced : AiResponse
fenced = record { content = "```json\nb\n```"; tool_calls = []; finish_reason = stop }

abbrev format : Option ResponseFormat
format = some (json_schema_format "s" union (some true) none)

accepted : verify_response parse is_integer index fenced format structural ≡ (none, [])
unfolding code
accepted = refl

truncated :
    (verify_response parse is_integer index
      (record fenced { finish_reason = length_reached })
      format
      structural).0
    ≡ some json_truncated
unfolding code
truncated = refl

verify_response-strict_example :
    ((verify_response parse is_integer index fenced format structural).0 ≡ none)
    ↔ (fenced.finish_reason ≢ error)
      × (Answers fenced
          × (ArgumentsParse parse fenced.tool_calls
              × ((fenced.finish_reason ≢ length_reached)
                  × ((v : Json) × (parse (text_of (strip_fence (chars (json_source fenced))))
                        ≡ some v)
                      × Satisfies is_integer union v))))
unfolding code
verify_response-strict_example =
    verify_response-strict parse is_integer index "s" union (some true) none structural fenced refl

strip_fence-fenced_example : strip_fence (opening ++ (chars "{}" ++ closing)) ≡ chars "{}"
unfolding code
strip_fence-fenced_example = strip_fence-fenced "{" (chars "}") refl refl

-- The local provider answers in prose, and the cloud gives the fenced answer.
abbrev out : Outside AiResponse
out = record {
  now = λ t. t;
  aborted = λ t. false;
  timed_out = λ t. false;
  execute = λ t route env.
      ok (
        if str_eq route.provider.id "near" then record fenced { content = "not json" } else fenced);
  verify = verify_hop parse is_integer index structural;
  slot_given = λ t. true;
  interfere = λ t s. s;
}

abbrev can_schema : CapabilityKey → Option Bool
can_schema json_schema = some true
can_schema _ = none

-- Both models take a schema.
abbrev asked : PipelineCtx
asked = record (context cloud_allowed none false) {
  effective = record (effective cloud_allowed false) {
    default_model = record llama { capabilities = can_schema };
    models_by_id =
        ("m1", record llama { capabilities = can_schema })
        ∷ ("m2", record gpt { capabilities = can_schema })
        ∷ [];
  };
  envelope = record (request "name this") { response_format = format };
}

abbrev start : Exec
start = begin asked

serves :
    ((execute_resilient deps true out start).1 ≡ ok fenced)
    × (length (execute_resilient deps true out start).0.sent ≡ 4)
unfolding code Execution.code verify_hop verdict_for
serves = (refl, refl)

execute_resilient-IsAccepted_example :
    IsAccepted parse is_integer index structural deps out start.ctx
      (execute_resilient deps true out start).0.sent
      (execute_resilient deps true out start).1
execute_resilient-IsAccepted_example =
    execute_resilient-IsAccepted parse is_integer index structural deps out start refl refl
