-- ===== src/Adapters/OpenAi.antt =====
-- src/adapters/openai-compat/translate.ts: the answers of an OpenAI-compatible provider, whole and as
-- a stream, and its errors. The parsing of its JSON is the platform's; a frame is what the parser gives.
-- `number_text` prints an index. Of the usage of a stream the end alone is kept.
pub mod Starts
use Prim.Native.String.{◌++◌ as append}
use vibe_ai_router.Common.{
  ℕ, zero, suc, ◌+◌, ◌-◌, String, Bool, true, false, not, ◌&&◌, ◌||◌, Option, none, some, List, [],
  ◌∷◌, ◌++◌, any, str_eq, is_some, length, leb, ltb, ◌==◌, ◌or_else◌, if◌then◌else◌,
}
use vibe_ai_router.Gateway.Errors.{
  ErrorCode, Result, ok, err, router_error, auth_error, rate_limited, provider_unavailable,
  context_exceeded, content_filtered,
}
use vibe_ai_router.Gateway.Envelope.{
  FinishReason, stop, length_reached, tool_calls_made, content_filter, error, ToolCall, AiResponse,
  StreamChunk, text_delta, tool_call_start, tool_call_delta, finish,
}
use vibe_ai_router.Ledger.Cost.{AiUsage}

-- A text that is there and not empty.
abbrev pub given : Option String → Option String
given none = none
given (some t) = if str_eq t "" then none else some t

-- `FINISH_REASONS`
abbrev pub known_finish_reason : String → FinishReason
known_finish_reason raw =
    if str_eq raw "length" || str_eq raw "max_tokens"
    then length_reached
    else if str_eq raw "tool_calls" || str_eq raw "function_call"
    then tool_calls_made
    else if str_eq raw "content_filter"
    then content_filter
    else if str_eq raw "insufficient_system_resource"
    then error
    else stop

unfoldable pub normalize_finish_reason : Option String → FinishReason
normalize_finish_reason none = stop
normalize_finish_reason (some raw) = known_finish_reason raw

pub record RawUsage : Type 0 where
  pub prompt_tokens : Option ℕ
  pub completion_tokens : Option ℕ
  pub cached_tokens : Option ℕ
  pub prompt_cache_hit_tokens : Option ℕ

abbrev pub no_usage : AiUsage
no_usage = record {
  prompt_tokens = 0;
  completion_tokens = 0;
  cached_read_tokens = 0;
  cache_write_tokens = 0;
}

-- `a ?? b`
abbrev pub first_of : Option ℕ → Option ℕ → Option ℕ
first_of none b = b
first_of (some a) b = some a

abbrev pub cached_of : RawUsage → ℕ
cached_of raw = first_of raw.cached_tokens raw.prompt_cache_hit_tokens or_else 0

-- `extractUsage`: the usage, and whether it is to be estimated.
unfoldable pub extract_usage : Option RawUsage → AiUsage × Bool
extract_usage none = (no_usage, true)
extract_usage (some raw) =
    if is_some raw.prompt_tokens || is_some raw.completion_tokens
    then (
      record {
        prompt_tokens = (raw.prompt_tokens or_else 0) - cached_of raw;
        completion_tokens = raw.completion_tokens or_else 0;
        cached_read_tokens = cached_of raw;
        cache_write_tokens = 0;
      },
      false,
    )
    else (no_usage, true)

-- `mapProviderError` of an HTTP error: its status, and whether its body tells of the context's length
-- or of a content filter.
unfoldable pub map_http_error : ℕ → Bool → Bool → ErrorCode
map_http_error status too_long filtered =
    if status == 401 || status == 403
    then auth_error
    else if status == 429
    then rate_limited
    else if status == 400 && too_long
    then context_exceeded
    else if status == 400 && filtered
    then content_filtered
    else provider_unavailable

pub record ToolFrame : Type 0 where
  pub index : Option ℕ
  pub id : Option String
  pub name : Option String
  pub arguments : Option String

pub record Frame : Type 0 where
  pub content : Option String
  pub tool_calls : List ToolFrame
  pub finish_reason : Option String
  pub usage : Option RawUsage

-- `OpenAiStreamState`: the indices that were started, and the index for frames without one. The map of
-- indices takes each to itself, and is left out.
pub record StreamState : Type 0 where
  pub started : List ℕ
  pub next_implicit_index : ℕ

abbrev pub new_state : StreamState
new_state = record { started = []; next_implicit_index = 0 }

unfoldable pub is_started : ℕ → List ℕ → Bool
is_started i started = any (λ j. j == i) started

-- `resolveIndex`
unfoldable pub resolve_index : Option ℕ → Bool → StreamState → StreamState × ℕ
resolve_index (some i) is_start s = (s, i)
resolve_index none true s = (record s { next_implicit_index = length s.started }, length s.started)
resolve_index none false s = (s, s.next_implicit_index)

abbrev pub arguments_of : ℕ → Option String → List StreamChunk
arguments_of index none = []
arguments_of index (some t) = tool_call_delta index t ∷ []

abbrev pub stop_chunk : Option String → List StreamChunk
stop_chunk none = []
stop_chunk (some raw) = finish (known_finish_reason raw) ∷ []

abbrev pub text_chunk : Option String → List StreamChunk
text_chunk none = []
text_chunk (some t) = text_delta t ∷ []

abbrev pub reports_usage : Option RawUsage → Bool
reports_usage none = false
reports_usage (some raw) = is_some raw.prompt_tokens

-- `hasUsage && isUsageOnly`
unfoldable pub is_usage_only : Frame → Bool
is_usage_only f =
    reports_usage f.usage
    && (not (is_some (given f.content))
        && (not (is_some (given f.finish_reason)) && not (ltb 0 (length f.tool_calls))))

-- A frame that brings the usage alone is an end too.
unfoldable pub usage_chunk : Frame → List StreamChunk
usage_chunk f = if is_usage_only f then finish stop ∷ [] else []

module _ (number_text : ℕ → String) where
  -- The calls of a whole answer, from an index on.
  unfoldable pub translate_calls : ℕ → List ToolFrame → List ToolCall
  translate_calls i [] = []
  translate_calls i (tc ∷ tcs) =
      record {
        id = tc.id or_else append "call_" (number_text i);
        name = tc.name or_else "";
        arguments = tc.arguments or_else "";
      }
      ∷ translate_calls (suc i) tcs

  -- `translateResponse`, on the first choice of an answer that the schema accepts
  unfoldable pub translate_response : Frame → AiResponse
  unfolding translate_calls normalize_finish_reason
  translate_response choice = record {
    content = choice.content or_else "";
    tool_calls = translate_calls 0 choice.tool_calls;
    finish_reason =
        if ltb 0 (length choice.tool_calls) && not (is_some (given choice.finish_reason))
        then tool_calls_made
        else normalize_finish_reason (given choice.finish_reason);
  }

  unfoldable pub open_call :
      ℕ → Option String → Option String → StreamState → StreamState × List StreamChunk
  open_call index id none s = (s, [])
  open_call index id (some name) s = if is_started index s.started then (s, []) else (
    record s { started = index ∷ s.started },
    tool_call_start index (id or_else append "call_" (number_text index)) name ∷ [],
  )

  unfoldable pub take_call : ToolFrame → StreamState → StreamState × List StreamChunk
  take_call tc s =
      let (s1, index) = resolve_index tc.index (is_some tc.name) s in
      let (s2, opening) = open_call index tc.id tc.name s1 in
      (s2, opening ++ arguments_of index (given tc.arguments))

  unfoldable pub take_calls : List ToolFrame → StreamState → StreamState × List StreamChunk
  take_calls [] s = (s, [])
  take_calls (tc ∷ tcs) s =
      let first = take_call tc s in let rest = take_calls tcs first.0 in (rest.0, first.1 ++ rest.1)

  -- `handle`
  unfoldable pub handle : Frame → StreamState → StreamState × List StreamChunk
  handle f s =
      let calls = take_calls f.tool_calls s in
      (
        calls.0,
        text_chunk (given f.content)
            ++ (calls.1 ++ (stop_chunk (given f.finish_reason) ++ usage_chunk f)),
      )

  unfoldable pub run : List Frame → StreamState → List StreamChunk
  run [] s = []
  run (f ∷ fs) s = let r = handle f s in r.1 ++ run fs r.0
