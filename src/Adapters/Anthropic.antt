-- ===== src/Adapters/Anthropic.antt =====
-- src/adapters/anthropic/translate.ts: the answers of the Messages API, whole and as a stream, and its
-- errors. The parsing of its JSON is the platform's; an event is what the parser gives. `JSON.stringify`
-- of a value is the parameter `stringify`. The texts of
-- errors are left out, and of the usage that goes with a stream's end the state holds it.
pub mod Indices
pub mod Agreement
use vibe_ai_router.Common.{
  ℕ, zero, suc, ◌+◌, String, Bool, true, false, ◌&&◌, ◌||◌, Option, none, some, List, [], ◌∷◌, ◌++◌,
  str_eq, is_some, length, leb, ltb, ◌==◌, ◌or_else◌, if◌then◌else◌,
}
use Prim.Native.String.{◌++◌ as append}
use vibe_ai_router.Gateway.Errors.{
  ErrorCode, RouterError, router_error, Result, ok, err, auth_error, rate_limited,
  provider_unavailable, context_exceeded, invalid_request,
}
use vibe_ai_router.Gateway.Envelope.{
  FinishReason, stop, length_reached, tool_calls_made, content_filter, error, ToolCall, AiResponse,
  StreamChunk, text_delta, tool_call_start, tool_call_delta, finish,
}
use vibe_ai_router.Gateway.Json.{Json, obj, end}
use vibe_ai_router.Ledger.Cost.{AiUsage}

-- `STOP_REASONS`, `normalizeStopReason`
abbrev pub known_stop_reason : String → FinishReason
known_stop_reason raw =
    if str_eq raw "max_tokens"
    then length_reached
    else if str_eq raw "tool_use"
    then tool_calls_made
    else if str_eq raw "refusal"
    then content_filter
    else stop

unfoldable pub normalize_stop_reason : Option String → FinishReason
normalize_stop_reason none = stop
normalize_stop_reason (some raw) = known_stop_reason raw

pub record RawUsage : Type 0 where
  pub input_tokens : ℕ
  pub output_tokens : ℕ
  pub cache_creation_input_tokens : Option ℕ
  pub cache_read_input_tokens : Option ℕ

unfoldable pub to_usage : RawUsage → AiUsage
to_usage raw = record {
  prompt_tokens = raw.input_tokens;
  completion_tokens = raw.output_tokens;
  cached_read_tokens = raw.cache_read_input_tokens or_else 0;
  cache_write_tokens = raw.cache_creation_input_tokens or_else 0;
}

-- The content blocks of an answer. A tool's input may be missing.
pub data Block : Type 0 where
  text thinking : String → Block
  tool_use : (id : String) → (name : String) → (input : Option Json) → Block
  redacted_thinking : Block

-- `schemaTool && name === schemaTool`
abbrev pub is_schema_tool : Option String → String → Bool
is_schema_tool none name = false
is_schema_tool (some tool) name = str_eq name tool

-- What the loop over the blocks builds.
pub record Built : Type 0 where
  pub content : String
  pub thoughts : String
  pub tool_calls : List ToolCall

-- `JSON.stringify`, which gives `undefined` for a missing value
abbrev pub print_input : (Json → String) → Option Json → String
print_input stringify none = "undefined"
print_input stringify (some v) = stringify v

module _ (stringify : Json → String) where
  unfoldable pub add_block : Option String → Block → Built → Built
  add_block schema_tool (text t) b = record b { content = append b.content t }
  add_block schema_tool (thinking t) b = record b { thoughts = append b.thoughts t }
  add_block schema_tool (tool_use id name input) b =
      if is_schema_tool schema_tool name
      then record b { content = append b.content (print_input stringify input) }
      else record b {
        tool_calls =
            b.tool_calls
            ++ record { id = id; name = name; arguments = stringify (input or_else obj end) } ∷ [];
      }
  add_block schema_tool redacted_thinking b = b

  unfoldable pub add_blocks : Option String → List Block → Built → Built
  unfolding add_block
  add_blocks schema_tool [] b = b
  add_blocks schema_tool (block ∷ blocks) b =
      add_blocks schema_tool blocks (add_block schema_tool block b)

abbrev pub made_calls : FinishReason → Bool
made_calls tool_calls_made = true
made_calls _ = false

-- An answer that only the schema tool gave has come to its end.
unfoldable pub settle_finish : Bool → Bool → FinishReason → FinishReason
settle_finish schema_used no_calls f = if schema_used && (made_calls f && no_calls) then stop else f

-- `translateAnthropicResponse`, on an answer that the schema accepts
unfoldable pub translate_response :
    (Json → String) → List Block → Option String → Option String → AiResponse
unfolding add_blocks settle_finish normalize_stop_reason
translate_response stringify blocks stop_reason schema_tool =
    let b =
      add_blocks stringify schema_tool blocks
        (record { content = ""; thoughts = ""; tool_calls = [] }) in
    record {
      content = b.content;
      tool_calls = b.tool_calls;
      finish_reason =
          settle_finish (is_some schema_tool) (length b.tool_calls == 0)
            (normalize_stop_reason stop_reason);
    }

pub data StartedBlock : Type 0 where
  started_text started_thinking started_redacted : StartedBlock
  started_tool : (id : String) → (name : String) → StartedBlock

pub data Delta : Type 0 where
  text_piece json_piece thinking_piece : String → Delta
  signature : Delta

pub data StreamEvent : Type 0 where
  message_start : RawUsage → StreamEvent
  block_start : ℕ → StartedBlock → StreamEvent
  block_delta : ℕ → Delta → StreamEvent
  block_stop : ℕ → StreamEvent
  message_delta : Option String → Option ℕ → StreamEvent
  message_stop ping : StreamEvent
  stream_error : String → StreamEvent

-- `AnthropicStreamState`. The map of the blocks' types is written and never read, and left out.
pub record StreamState : Type 0 where
  pub usage : AiUsage
  pub stop_reason : FinishReason
  pub tool_index_by_block : List (ℕ × ℕ)
  pub next_tool_index : ℕ
  pub schema_tool : Option String
  pub schema_block : Option ℕ

abbrev pub new_state : Option String → StreamState
new_state schema_tool = record {
  usage = record {
    prompt_tokens = 0;
    completion_tokens = 0;
    cached_read_tokens = 0;
    cache_write_tokens = 0;
  };
  stop_reason = stop;
  tool_index_by_block = [];
  next_tool_index = 0;
  schema_tool = schema_tool;
  schema_block = none;
}

-- `codeForAnthropicType`
unfoldable pub code_for_type : String → ErrorCode
code_for_type type =
    if str_eq type "authentication_error" || str_eq type "permission_error"
    then auth_error
    else if str_eq type "rate_limit_error"
    then rate_limited
    else if str_eq type "request_too_large"
    then context_exceeded
    else provider_unavailable

unfoldable pub map_stream_error : String → RouterError
unfolding code_for_type
map_stream_error type = router_error (code_for_type type)

-- `mapAnthropicError` of an HTTP error: its status, the type in its body (empty if there is none), and
-- whether its message tells that the prompt is too long. 529 and the rest are the same code.
unfoldable pub map_http_error : ℕ → String → Bool → ErrorCode
unfolding code_for_type
map_http_error status type too_long =
    if str_eq type "invalid_request_error"
    then if too_long then context_exceeded else invalid_request
    else if str_eq type ""
    then if status == 401 || status == 403
      then auth_error
      else if status == 429
      then rate_limited
      else provider_unavailable
    else code_for_type type

-- A later entry of a block stands in front.
unfoldable pub tool_index : ℕ → List (ℕ × ℕ) → Option ℕ
tool_index block [] = none
tool_index block ((b, i) ∷ rest) =
    let found = tool_index block rest in if b == block then some i else found

abbrev pub is_block : Option ℕ → ℕ → Bool
is_block none block = false
is_block (some b) block = b == block

unfoldable pub start_block : ℕ → StartedBlock → StreamState → StreamState × List StreamChunk
start_block block (started_tool id name) s =
    if is_schema_tool s.schema_tool name then (record s { schema_block = some block }, []) else (
      record s {
        tool_index_by_block = (block, s.next_tool_index) ∷ s.tool_index_by_block;
        next_tool_index = suc s.next_tool_index;
      },
      tool_call_start s.next_tool_index id name ∷ [],
    )
start_block block _ s = (s, [])

unfoldable pub take_delta : ℕ → Delta → StreamState → List StreamChunk
unfolding tool_index
take_delta block (text_piece t) s = text_delta t ∷ []
take_delta block (json_piece t) s =
    if is_block s.schema_block block
    then text_delta t ∷ []
    else elim (tool_index block s.tool_index_by_block) [
      | none ↦ []
      | some i ↦ tool_call_delta i t ∷ []
    ]
take_delta block _ s = []

abbrev pub with_output : Option ℕ → AiUsage → AiUsage
with_output none u = u
with_output (some n) u = record u { completion_tokens = n }

-- An empty stop reason is none.
abbrev pub with_stop : Option String → FinishReason → FinishReason
with_stop none f = f
with_stop (some raw) f = if str_eq raw "" then f else known_stop_reason raw

unfoldable pub handle : StreamEvent → StreamState → Result (StreamState × List StreamChunk)
unfolding to_usage start_block take_delta settle_finish map_stream_error
handle (message_start raw) s = ok (record s { usage = to_usage raw }, [])
handle (block_start block started) s = ok (start_block block started s)
handle (block_delta block delta) s = ok (s, take_delta block delta s)
handle (message_delta reason output) s = ok (
  record s { stop_reason = with_stop reason s.stop_reason; usage = with_output output s.usage },
  [],
)
handle message_stop s =
    ok (
      s,
      finish (settle_finish (is_some s.schema_block) (s.next_tool_index == 0) s.stop_reason) ∷ [],
    )
handle (stream_error type) s = err (map_stream_error type)
handle _ s = ok (s, [])

-- The chunks of a stream of events, up to an error.
unfoldable pub run : List StreamEvent → StreamState → List StreamChunk × Option RouterError
run [] s = ([], none)
run (e ∷ es) s = elim (handle e s) [
  | err w ↦ ([], some w)
  | ok (s', cs) ↦ let rest = run es s' in (cs ++ rest.0, rest.1)
]
