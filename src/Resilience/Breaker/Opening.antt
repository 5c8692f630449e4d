-- ===== src/Resilience/Breaker/Opening.antt =====
-- When the circuit opens: only on a failure, and by the outcomes of the rolling window.
use vibe_ai_router.Common.{
  ℕ, ◌+◌, ◌*◌, ◌≤◌, ◌<◌, String, ◌≡◌, refl, ◌↔◌, Bool, true, false, List, [], ◌∷◌, ◌++◌, arith,
  eq_iff, All, All-append, length, filter, leb,
}
use vibe_ai_router.Resilience.Breaker.{
  BreakerState, BreakerOptions, closed, opened, half_open, Outcome, Window, CircuitBreaker, window,
  prune, count_failures, rate_reaches, record_in, record_outcome,
}
use vibe_ai_router.Resilience.Breaker.Admission.{window-store, window-transition}

-- Oldest first, none later than `now`.
abbrev pub IsChrono : ℕ → List Outcome → Type 0
IsChrono now [] = Unit
IsChrono now (o ∷ os) = (o.at ≤ now) × All (λ o'. o.at ≤ o'.at) os × IsChrono now os

abbrev pub in_window : ℕ → ℕ → Outcome → Bool
in_window window_ms now o = leb now (o.at + window_ms)

filter-All :
    (window_ms now lo : ℕ) (os : List Outcome)
    → now ≤ lo + window_ms
    → All (λ o. lo ≤ o.at) os
    → filter (in_window window_ms now) os ≡ os
filter-All window_ms now lo [] h k = refl
filter-All window_ms now lo (o ∷ os) h (k, ks) = ground (arith, filter-All window_ms now lo os h ks)

-- Dropping from the front keeps exactly the outcomes that lie in the window.
prune-eq-filter :
    (window_ms now : ℕ) (os : List Outcome)
    → IsChrono now os
    → prune window_ms now os ≡ filter (in_window window_ms now) os
unfolding prune
prune-eq-filter window_ms now [] h = refl
prune-eq-filter window_ms now (o ∷ os) (h, later, rest) =
    ground (arith, prune-eq-filter window_ms now os rest, filter-All window_ms now o.at os)

IsChrono-push :
    (now : ℕ) (ok : Bool) (os : List Outcome)
    → IsChrono now os
    → IsChrono now (os ++ record { ok = ok; at = now } ∷ [])
IsChrono-push now ok [] h = (omega arith, tt, tt)
IsChrono-push now ok (o ∷ os) (h, later, rest) =
    (h, All-append (λ o'. o.at ≤ o'.at) os _ later (h, tt), IsChrono-push now ok os rest)

-- The outcomes of the last `window_ms` milliseconds, with one that comes in now.
abbrev pub recent : BreakerOptions → ℕ → Bool → Window → List Outcome
recent opts now ok w =
    filter (in_window opts.window_ms now) (w.outcomes ++ record { ok = ok; at = now } ∷ [])

recent-pos :
    (window_ms now : ℕ) (ok : Bool) (os : List Outcome)
    → 0 < length (filter (in_window window_ms now) (os ++ record { ok = ok; at = now } ∷ []))
recent-pos window_ms now ok [] = ground arith
recent-pos window_ms now ok (o ∷ os) = ground (arith, recent-pos window_ms now ok os)

rate_reaches_iff :
    (opts : BreakerOptions) (os : List Outcome)
    → 0 < length os
    → (rate_reaches opts os ≡ true)
      ↔ (opts.threshold_num * length os ≤ count_failures os * opts.threshold_den)
unfolding rate_reaches
rate_reaches_iff opts [] h = absurd (omega arith)
rate_reaches_iff opts (o ∷ os) h = ground arith

-- The condition on which a closed circuit opens.
abbrev pub IsTripped : BreakerOptions → Bool → List Outcome → Type 0
IsTripped opts ok os =
    (ok ≡ false)
    × (opts.min_samples ≤ length os)
    × (opts.threshold_num * length os ≤ count_failures os * opts.threshold_den)

record_in-opens_iff :
    (s : BreakerState) (p : String) (ok : Bool) (now : ℕ) (w : Window) (b : CircuitBreaker)
    → s ≡ closed
    → w.state ≡ closed
    → 0 < length w.outcomes
    → ((window p (record_in s p ok now w b)).state ≡ opened) ↔ IsTripped b.options ok w.outcomes
unfolding record_in
record_in-opens_iff closed p true now w b c e h = ground (arith, window-store p p w b, eq_iff p p)
record_in-opens_iff closed p false now w b c e h = ground (
  arith,
  window-store p p w b,
  window-transition p p (record w { opened_at = now }) opened b,
  eq_iff p p,
  rate_reaches_iff b.options w.outcomes,
)
record_in-opens_iff opened p ok now w b c e h = absurd (cc)
record_in-opens_iff half_open p ok now w b c e h = absurd (cc)

-- A report opens a closed circuit exactly if it is a failure and, among the outcomes of the last
-- window with this one, there are enough samples and the share of failures reaches the threshold;
-- provided that the outcomes on record are in order of time and none is later than now.
pub record_outcome-opens_iff :
    (p : String) (ok : Bool) (now : ℕ) (b : CircuitBreaker)
    → (window p b).state ≡ closed
    → IsChrono now (window p b).outcomes
    → ((window p (record_outcome p ok now b)).state ≡ opened)
      ↔ IsTripped b.options ok (recent b.options now ok (window p b))
unfolding record_outcome
record_outcome-opens_iff p ok now b e h =
    rw (prune-eq-filter b.options.window_ms now _ (IsChrono-push now ok (window p b).outcomes h)) (
      record_in-opens_iff _ p ok now
        (record (window p b) { outcomes = recent b.options now ok (window p b) }) b e e
        (recent-pos b.options.window_ms now ok (window p b).outcomes))
