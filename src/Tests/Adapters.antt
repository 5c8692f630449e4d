-- ===== src/Tests/Adapters.antt =====
-- The translations of the adapters.
use vibe_ai_router.Common.{ℕ, String, Option, ◌≡◌, refl, false, none, some, List, [], ◌∷◌, map}
use vibe_ai_router.Gateway.Errors.{router_error, context_exceeded, rate_limited}
use vibe_ai_router.Gateway.Json.{Json, num, obj, field, end}
use vibe_ai_router.Gateway.Envelope.{
  text_delta, tool_call_start, tool_call_delta, finish, tool_calls_made,
}
use vibe_ai_router.Adapters.OpenAi as OpenAi
use vibe_ai_router.Adapters.OpenAi.{ToolFrame, Frame}
use vibe_ai_router.Adapters.OpenAi.Starts.{StartsOnce, run-StartsOnce}
use vibe_ai_router.Adapters.Anthropic as Anthropic
use vibe_ai_router.Adapters.Anthropic.{
  RawUsage, StreamEvent, message_start, block_start, block_delta, block_stop, message_delta,
  message_stop, stream_error, started_text, started_tool, text_piece, json_piece, new_state, run,
  map_http_error, translate_response,
}
use vibe_ai_router.Adapters.Anthropic.Indices.{IsOrderly, run-IsOrderly}
use vibe_ai_router.Adapters.Anthropic.Agreement.{
  StreamedBlock, streamed_thinking, streamed_tool, whole_of, events, content_of, content_by,
  as_written, as_printed, run-translate_response,
}

-- Names the code that a translation runs.
unfoldable code : Unit {0}
unfolding Anthropic.normalize_stop_reason Anthropic.to_usage Anthropic.add_block
    Anthropic.add_blocks Anthropic.settle_finish translate_response Anthropic.code_for_type
    Anthropic.map_stream_error map_http_error Anthropic.tool_index Anthropic.start_block
    Anthropic.take_delta Anthropic.handle run
code = tt

-- A tool is called while a text is written.
abbrev mixed : List StreamEvent
mixed =
    block_start 0 started_text
    ∷ block_delta 0 (text_piece "hi")
    ∷ block_start 1 (started_tool "t1" "find")
    ∷ block_delta 1 (json_piece "{}")
    ∷ block_delta 7 (json_piece "lost")
    ∷ message_delta (some "tool_use") (some 5)
    ∷ message_stop
    ∷ []

translated : run mixed (new_state none) ≡ (
  text_delta "hi"
      ∷ tool_call_start 0 "t1" "find"
      ∷ tool_call_delta 0 "{}"
      ∷ finish tool_calls_made
      ∷ [],
  none,
)
unfolding code
translated = refl

cut_off :
    run (block_delta 0 (text_piece "a") ∷ stream_error "rate_limit_error" ∷ mixed) (new_state none)
    ≡ (text_delta "a" ∷ [], some (router_error rate_limited))
unfolding code
cut_off = refl

too_long : map_http_error 400 "request_too_large" false ≡ context_exceeded
unfolding code
too_long = refl

run-IsOrderly_example : IsOrderly 0 (run mixed (new_state none)).0
run-IsOrderly_example = run-IsOrderly mixed none

abbrev usage : RawUsage
usage = record {
  input_tokens = 1;
  output_tokens = 0;
  cache_creation_input_tokens = none;
  cache_read_input_tokens = none;
}

abbrev value : Json
value = obj (field "a" (num "1") end)

abbrev structured : List StreamedBlock
structured =
    streamed_thinking ("hm" ∷ [])
    ∷ streamed_tool "t1" "emit_s" (some value) ("{\"a\"" ∷ ": 1}" ∷ [])
    ∷ []

-- The model writes a blank that the platform does not print.
abbrev compact : Json → String
compact v = "{\"a\":1}"

run-translate_response_example :
    (content_of (run (message_start usage ∷ events 0 structured) (new_state (some "emit_s"))).0
      ≡ content_by as_written (some "emit_s") structured)
    × ((translate_response compact
          (map whole_of structured)
          (some "tool_use")
          (some "emit_s")).content
        ≡ content_by (as_printed compact) (some "emit_s") structured)
run-translate_response_example =
    run-translate_response compact usage structured (some "tool_use") (some "emit_s")

spelled :
    (content_by as_written (some "emit_s") structured ≡ "{\"a\": 1}")
    × (content_by (as_printed compact) (some "emit_s") structured ≡ "{\"a\":1}")
spelled = (refl, refl)

abbrev frame : List ToolFrame → Option String → Frame
frame calls reason = record {
  content = none;
  tool_calls = calls;
  finish_reason = reason;
  usage = none;
}

abbrev tool_frame : Option ℕ → Option String → Option String → ToolFrame
tool_frame index name arguments = record {
  index = index;
  id = some "c";
  name = name;
  arguments = arguments;
}

abbrev print : ℕ → String
print i = "n"

-- Without indices, arguments go to the call that was opened last.
abbrev bare : List Frame
bare =
    frame (tool_frame none (some "a") (some "1") ∷ []) none
    ∷ frame (tool_frame none none (some "2") ∷ []) none
    ∷ frame (tool_frame none (some "b") (some "3") ∷ []) (some "tool_calls")
    ∷ []

calls_in_order :
    OpenAi.run print bare OpenAi.new_state
    ≡ tool_call_start 0 "c" "a"
      ∷ tool_call_delta 0 "1"
      ∷ tool_call_delta 0 "2"
      ∷ tool_call_start 1 "c" "b"
      ∷ tool_call_delta 1 "3"
      ∷ finish tool_calls_made
      ∷ []
unfolding OpenAi.run OpenAi.handle OpenAi.take_calls OpenAi.take_call OpenAi.open_call
    OpenAi.resolve_index OpenAi.is_started OpenAi.usage_chunk OpenAi.is_usage_only
calls_in_order = refl

-- A call without an index behind one with the index 1 is taken for that call.
merged :
    OpenAi.run print
      (frame
          (tool_frame (some 1) (some "a") (some "1") ∷ tool_frame none (some "b") (some "2") ∷ [])
          none
        ∷ [])
      OpenAi.new_state
    ≡ tool_call_start 1 "c" "a" ∷ tool_call_delta 1 "1" ∷ tool_call_delta 1 "2" ∷ []
unfolding OpenAi.run OpenAi.handle OpenAi.take_calls OpenAi.take_call OpenAi.open_call
    OpenAi.resolve_index OpenAi.is_started OpenAi.usage_chunk OpenAi.is_usage_only
merged = refl

run-StartsOnce_example : StartsOnce [] (OpenAi.run print bare OpenAi.new_state)
run-StartsOnce_example = run-StartsOnce print bare
