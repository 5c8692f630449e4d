-- ===== src/Resilience/Executor/Stream/Relay.antt =====
-- The relay of one provider's stream: all of it, or nothing.
use vibe_ai_router.Common.{
  ◌≡◌, refl, inl, inr, true, false, List, [], ◌∷◌, ◌++◌, any, if◌then◌else◌, arith, Bool-cases,
}
use mathlib.Core.List.{append_assoc}
use vibe_ai_router.Gateway.Envelope.{StreamChunk}
use vibe_ai_router.Resilience.Executor.Stream.{is_content, relay}

relay-seen : (pending cs : List StreamChunk) → relay true pending cs ≡ (true, cs)
unfolding relay
relay-seen pending [] = refl
relay-seen pending (c ∷ cs) = let ih = relay-seen pending cs in cc

relay-pending :
    (pending cs : List StreamChunk)
    → relay false pending cs ≡ (if any is_content cs then (true, pending ++ cs) else (false, []))
unfolding relay
relay-pending pending [] = refl
relay-pending pending (c ∷ cs) = elim (Bool-cases (is_content c)) [
  | inl e ↦ rw (e, relay, relay-seen [] cs) refl
  | inr e ↦
      let ih = relay-pending (pending ++ c ∷ []) cs in
      let assoc = append_assoc pending (c ∷ []) cs in rw (e, relay) (ground (arith, ih, assoc))
]

-- The consumer gets the chunks of a provider's stream, every one and in order, if one of them is
-- content, and nothing of it otherwise.
pub relay_lem :
    (cs : List StreamChunk)
    → relay false [] cs ≡ (if any is_content cs then (true, cs) else (false, []))
relay_lem cs = relay-pending [] cs
