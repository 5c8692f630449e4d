-- ===== src/Protect/Envelope.antt =====
-- src/protect/scrub.ts, the scrub of a whole request. A report is the list of the types that were
-- found; the source keeps the number of each, and of all.
pub mod Shape
pub mod Clean
use vibe_ai_router.Common.{ℕ, String, Option, some, List, [], ◌∷◌, ◌++◌, map, length}
use vibe_ai_router.Common.Texts.{chars, codes_of}
use vibe_ai_router.Gateway.Envelope.{
  ContentPart, text, image, Content, plain, parts, ToolCall, AiMessage, AiRequest,
}
use vibe_ai_router.Gateway.Stages.{Scrubber}
use vibe_ai_router.Protect.Scan.{MatchType, ScrubMatch, scan_text}
use vibe_ai_router.Protect.Redact.{scrub_string}

abbrev pub types_in : String → List MatchType
types_in s = map (λ (m : ScrubMatch). m.type) (scan_text (codes_of (chars s)))

abbrev pub part_types : List ContentPart → List MatchType
part_types [] = []
part_types (text s ∷ ps) = types_in s ++ part_types ps
part_types (image _ ∷ ps) = part_types ps

abbrev pub content_types : Content → List MatchType
content_types (plain s) = types_in s
content_types (parts ps) = part_types ps

abbrev pub call_types : List ToolCall → List MatchType
call_types [] = []
call_types (tc ∷ tcs) = types_in tc.arguments ++ call_types tcs

abbrev pub message_types : List AiMessage → List MatchType
message_types [] = []
message_types (m ∷ ms) = content_types m.content ++ (call_types m.tool_calls ++ message_types ms)

-- `scanEnvelope`, which reads what `textFields` yields
unfoldable pub scan_envelope : AiRequest → List MatchType
scan_envelope env = message_types env.messages

abbrev scrub_part : ContentPart → ContentPart
scrub_part (text s) = text (scrub_string s)
scrub_part (image url) = image url

abbrev scrub_content : Content → Content
scrub_content (plain s) = plain (scrub_string s)
scrub_content (parts ps) = parts (map scrub_part ps)

abbrev scrub_call : ToolCall → ToolCall
scrub_call tc = record tc { arguments = scrub_string tc.arguments }

abbrev scrub_message : AiMessage → AiMessage
scrub_message m = record m {
  content = scrub_content m.content;
  tool_calls = map scrub_call m.tool_calls;
}

-- `redactEnvelope`: the copy, and the report, which counts what `scanEnvelope` counts.
unfoldable pub redact_envelope : AiRequest → AiRequest × List MatchType
redact_envelope env =
    (record env { messages = map scrub_message env.messages }, message_types env.messages)

-- The scrubber as the pipeline uses it: it never throws.
abbrev pub scrubber : Scrubber
scrubber = record {
  scan_envelope = λ env. some (length (scan_envelope env));
  redact_envelope = λ env. some ((redact_envelope env).0, length (redact_envelope env).1);
}
