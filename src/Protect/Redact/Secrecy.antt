-- ===== src/Protect/Redact/Secrecy.antt =====
-- Nothing of what was matched is left in a redacted text.
use Prim.Native.Char.{Char}
use vibe_ai_router.Common.{
  ℕ, ◌≤◌, ◌<◌, ◌≡◌, refl, ap, Bool, false, ◌&&◌, List, [], ◌∷◌, ◌++◌, arith, any, leb, ltb,
}
use vibe_ai_router.Common.Texts.{chars, codes_of, get_elem?, slice, drop_ext, slice_ext}
use vibe_ai_router.Protect.Scan.{ScrubMatch, scan_text}
use vibe_ai_router.Protect.Scan.Order.{IsTidy, scan_text-IsTidy}
use vibe_ai_router.Protect.Redact.{redact_from, redact_text, redaction}

-- A position inside a match.
abbrev pub is_covered : List ScrubMatch → ℕ → Bool
is_covered ms i = any (λ (m : ScrubMatch). leb m.start i && ltb i m.end) ms

-- Two texts that differ inside the matches only, from a position on.
abbrev pub AgreeOutside : List ScrubMatch → ℕ → List Char → List Char → Type 0
AgreeOutside ms lo s t = (i : ℕ) → lo ≤ i → is_covered ms i ≡ false → get_elem? s i ≡ get_elem? t i

IsTidy-covers_later :
    (lo i : ℕ) (ms : List ScrubMatch) → IsTidy lo ms → i < lo → is_covered ms i ≡ false
IsTidy-covers_later lo i [] h lt = refl
IsTidy-covers_later lo i (m ∷ ms) (a, b, c) lt = ground (arith, IsTidy-covers_later m.end i ms c)

redact_from-eq :
    (ms : List ScrubMatch) (cursor : ℕ) (s t out : List Char)
    → IsTidy cursor ms
    → AgreeOutside ms cursor s t
    → redact_from s ms cursor out ≡ redact_from t ms cursor out
unfolding redact_from
redact_from-eq [] cursor s t out h same =
    ap (λ rest. out ++ rest) (drop_ext cursor s t (λ i le. same i le refl))
redact_from-eq (m ∷ ms) cursor s t out (a, b, c) same =
    let fresh : ltb m.start cursor ≡ false = ground arith in
    let gap : slice cursor m.start s ≡ slice cursor m.start t =
      slice_ext cursor m.start s t
        (λ i le lt. same i le (ground (arith, IsTidy-covers_later m.end i ms c))) in
    let label = chars (redaction m.type) in
    rw (fresh, gap)
      (redact_from-eq ms m.end s t (out ++ (slice cursor m.start t ++ label)) c
        (λ i le free. same i (omega arith) (ground arith)))

-- The redacted text does not depend on a character inside a match: another text that differs from it
-- there only is redacted, with the same matches, to the same text.
pub redact_text-hides :
    (s t : List Char)
    → AgreeOutside (scan_text (codes_of s)) 0 s t
    → redact_text s (scan_text (codes_of s)) ≡ redact_text t (scan_text (codes_of s))
unfolding redact_text
redact_text-hides s t same =
    redact_from-eq (scan_text (codes_of s)) 0 s t [] (scan_text-IsTidy (codes_of s)) same
