-- ===== src/Protect/Redact.antt =====
-- src/protect/scrub.ts, `redactText`.
pub mod Secrecy
use Prim.Native.Char.{Char}
use vibe_ai_router.Common.{ℕ, String, List, [], ◌∷◌, ◌++◌, ltb, if◌then◌else◌}
use vibe_ai_router.Common.Texts.{chars, text_of, codes_of, drop, slice}
use vibe_ai_router.Protect.Scan.{MatchType, ssn, ein, routing, account, card, ScrubMatch, scan_text}

-- `REDACTION`
abbrev pub redaction : MatchType → String
redaction ssn = "[SSN]"
redaction ein = "[EIN]"
redaction routing = "[ROUTING]"
redaction account = "[ACCOUNT]"
redaction card = "[CARD]"

unfoldable pub redact_from : List Char → List ScrubMatch → ℕ → List Char → List Char
redact_from text [] cursor out = out ++ drop cursor text
redact_from text (m ∷ ms) cursor out =
    redact_from text ms (if ltb m.start cursor then cursor else m.end) (
      if ltb m.start cursor
      then out
      else out ++ (slice cursor m.start text ++ chars (redaction m.type)))

unfoldable pub redact_text : List Char → List ScrubMatch → List Char
redact_text text matches = redact_from text matches 0 []

-- `scrubString`
unfoldable pub scrub_string : String → String
scrub_string s = elim (scan_text (codes_of (chars s))) [
  | [] ↦ s
  | m ∷ ms ↦ text_of (redact_text (chars s) (m ∷ ms))
]
