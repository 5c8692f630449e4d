-- ===== src/Gateway/Verify/Response.antt =====
-- src/gateway/verify.ts: the verdict on one hop's response. `JSON.parse` is a parameter, and of a
-- finding the reason is modelled.
use Prim.Native.Char.{Char, code}
use Prim.Native.String.{[] as empty}
use mathlib.Core.List.{reverse}
use vibe_ai_router.Common.{
  ℕ, String, Bool, true, false, not, ◌&&◌, ◌||◌, Option, none, some, List, [], ◌∷◌, length, any,
  ltb, ◌==◌, is_some, if◌then◌else◌,
}
use vibe_ai_router.Common.Texts.{chars, text_of, codes_of, drop}
use vibe_ai_router.Protect.Pattern.{is_space}
use vibe_ai_router.Gateway.Json.{Json, SchemaValidationMode, strict}
use vibe_ai_router.Gateway.Envelope.{
  AiResponse, ToolCall, ResponseFormat, json_schema_format, json_object, FinishReason,
  length_reached, content_filter, error,
}
use vibe_ai_router.Gateway.Verify.{nothing_yet, Checked, validate}

unfoldable pub trim_start : List Char → List Char
trim_start [] = []
trim_start (c ∷ s) = let rest = trim_start s in if is_space (code c) then rest else c ∷ s

unfoldable pub trim_end : List Char → List Char
trim_end s = reverse (trim_start (reverse s))

unfoldable pub trim : List Char → List Char
trim s = trim_end (trim_start s)

-- Three backquotes at the head.
abbrev pub has_ticks : List ℕ → Bool
has_ticks (a ∷ b ∷ c ∷ s) = a == b'`' && (b == b'`' && c == b'`')
has_ticks _ = false

-- `json` at the head, in letters of either case.
abbrev pub has_json : List ℕ → Bool
has_json (j ∷ s ∷ o ∷ n ∷ rest) =
    (j == b'j' || j == b'J')
    && ((s == b's' || s == b'S') && ((o == b'o' || o == b'O') && (n == b'n' || n == b'N')))
has_json _ = false

abbrev pub skip_json : List Char → List Char
skip_json s = if has_json (codes_of s) then drop 4 s else s

unfoldable pub open_fence : List Char → List Char
open_fence s = if has_ticks (codes_of s) then trim_start (skip_json (drop 3 s)) else s

unfoldable pub close_fence : List Char → List Char
close_fence s =
    let back = reverse s in
    if has_ticks (codes_of back) then reverse (trim_start (drop 3 back)) else s

unfoldable pub strip_fence : List Char → List Char
strip_fence s = trim (close_fence (open_fence (trim s)))

unfoldable pub resolve_validation_mode :
    Option ResponseFormat → SchemaValidationMode → SchemaValidationMode
resolve_validation_mode (some (json_schema_format name schema hint (some mode))) default = mode
resolve_validation_mode (some (json_schema_format name schema (some true) none)) default = strict
resolve_validation_mode _ default = default

pub data InvalidResponseReason : Type 0 where
  empty_response provider_error_finish tool_arguments_not_json response_not_json :
      InvalidResponseReason
  json_truncated schema_violation : InvalidResponseReason

abbrev pub wants_json : Option ResponseFormat → Bool
wants_json (some (json_schema_format _ _ _ _)) = true
wants_json (some json_object) = true
wants_json _ = false

abbrev pub is_blank : String → Bool
is_blank s = elim (trim (chars s)) [ [] ↦ true | _ ∷ _ ↦ false ]

abbrev pub first_arguments : List ToolCall → String
first_arguments [] = empty
first_arguments (tc ∷ _) = tc.arguments

-- The content, or the arguments of the first tool call.
unfoldable pub json_source : AiResponse → String
json_source res = if is_blank res.content then first_arguments res.tool_calls else res.content

abbrev pub is_error_finish : FinishReason → Bool
is_error_finish error = true
is_error_finish _ = false

abbrev pub is_length_finish : FinishReason → Bool
is_length_finish length_reached = true
is_length_finish _ = false

abbrev pub is_filter_finish : FinishReason → Bool
is_filter_finish content_filter = true
is_filter_finish _ = false

unfoldable pub is_empty_response : AiResponse → Bool
is_empty_response res =
    is_blank res.content
    && (not (ltb 0 (length res.tool_calls)) && not (is_filter_finish res.finish_reason))

-- The soft findings are there whatever the verdict.
unfoldable pub verdict : Checked → Option InvalidResponseReason × List String
verdict (c, none) = (none, c.soft)
verdict (c, some v) = (some schema_violation, c.soft)

module _ (parse : String → Option Json) (is_integer : String → Bool)
    (index : String → ℕ → String) where
  unfoldable pub bad_arguments : List ToolCall → Bool
  bad_arguments calls = any (λ tc. not (is_some (parse tc.arguments))) calls

  unfoldable pub check_schema :
      Option ResponseFormat
      → SchemaValidationMode
      → Json
      → Option InvalidResponseReason × List String
  unfolding verdict
  check_schema (some (json_schema_format name schema hint mode)) default value = verdict (
      validate is_integer index schema
        (resolve_validation_mode (some (json_schema_format name schema hint mode)) default) value
        "$" nothing_yet)
  check_schema _ default value = (none, [])

  unfoldable pub check_json :
      Option ResponseFormat
      → SchemaValidationMode
      → Option Json
      → Option InvalidResponseReason × List String
  unfolding check_schema
  check_json format default none = (some response_not_json, [])
  check_json format default (some value) = check_schema format default value

  unfoldable pub check_forced :
      AiResponse
      → Option ResponseFormat
      → SchemaValidationMode
      → Option InvalidResponseReason × List String
  unfolding check_json
  check_forced res format default =
      if is_length_finish res.finish_reason
      then (some json_truncated, [])
      else check_json format default (parse (text_of (strip_fence (chars (json_source res)))))

  -- `verifyResponse`: the reason why the response is unusable, and the soft findings.
  unfoldable pub verify_response :
      AiResponse
      → Option ResponseFormat
      → SchemaValidationMode
      → Option InvalidResponseReason × List String
  unfolding bad_arguments check_forced
  verify_response res format default =
      if is_error_finish res.finish_reason
      then (some provider_error_finish, [])
      else if is_empty_response res
      then (some empty_response, [])
      else if bad_arguments res.tool_calls
      then (some tool_arguments_not_json, [])
      else if wants_json format
      then check_forced res format default
      else (none, [])
