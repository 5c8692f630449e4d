-- ===== src/Gateway/Verify/Fence.antt =====
-- src/gateway/verify.ts: the fence around forced-JSON output.
use Prim.Native.Char.{Char, code}
use mathlib.Core.List.{reverse, reverse-append, reverse-reverse}
use vibe_ai_router.Common.{◌≡◌, refl, sym, ap, ◌∙◌, false, List, ◌∷◌, ◌++◌}
use vibe_ai_router.Common.Texts.{chars}
use vibe_ai_router.Protect.Pattern.{is_space}
use vibe_ai_router.Gateway.Verify.Response.{
  trim_start, trim_end, trim, open_fence, close_fence, strip_fence,
}

abbrev pub opening : List Char
opening = chars "```json\n"

abbrev pub closing : List Char
closing = chars "\n```"

-- A text in front of a closing fence ends with no space.
trim_end-closing : (s : List Char) → trim_end (s ++ closing) ≡ s ++ closing
unfolding trim_end trim_start
trim_end-closing s =
    rw (reverse-append s closing)
      (ap reverse (sym (reverse-append s closing)) ∙ reverse-reverse (s ++ closing))

close_fence-closing : (s : List Char) → close_fence (s ++ closing) ≡ trim_end s
unfolding close_fence trim_end trim_start
close_fence-closing s = rw (reverse-append s closing) refl

trim_start-solid :
    (c : Char) (s : List Char) → is_space (code c) ≡ false → trim_start (c ∷ s) ≡ c ∷ s
unfolding trim_start
trim_start-solid c s solid = rw solid refl

open_fence-opening :
    (c : Char) (s : List Char) → is_space (code c) ≡ false → open_fence (opening ++ c ∷ s) ≡ c ∷ s
unfolding open_fence trim_start
open_fence-opening c s solid = rw solid refl

trim-fenced :
    (c : Char) (s : List Char)
    → trim (opening ++ ((c ∷ s) ++ closing)) ≡ opening ++ ((c ∷ s) ++ closing)
unfolding trim trim_start
trim-fenced c s = trim_end-closing (opening ++ c ∷ s)

trim-tight :
    (c : Char) (s : List Char)
    → is_space (code c) ≡ false
    → trim_end (c ∷ s) ≡ c ∷ s
    → trim (c ∷ s) ≡ c ∷ s
unfolding trim
trim-tight c s solid tight = rw (trim_start-solid c s solid) tight

-- A text that neither starts nor ends with a space is what `stripFence` gives for it in a JSON fence.
pub strip_fence-fenced :
    (c : Char) (s : List Char)
    → is_space (code c) ≡ false
    → trim_end (c ∷ s) ≡ c ∷ s
    → strip_fence (opening ++ ((c ∷ s) ++ closing)) ≡ c ∷ s
unfolding strip_fence
strip_fence-fenced c s solid tight =
    rw
      (
        trim-fenced c s,
        open_fence-opening c (s ++ closing) solid,
        close_fence-closing (c ∷ s),
        tight,
      )
      (trim-tight c s solid tight)
