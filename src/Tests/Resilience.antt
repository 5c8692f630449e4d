-- ===== src/Tests/Resilience.antt =====
-- The resilience primitives and the response cache.
use vibe_ai_router.Common.{
  ℕ, ◌+◌, ◌-◌, ◌*◌, ◌≤◌, String, ◌≡◌, ◌≢◌, refl, ◌↔◌, true, false, none, some, List, [], ◌∷◌, ◌++◌,
  arith, All, length,
}
use vibe_ai_router.Common.Int.{pos, ◌+ℤ◌, ◌-ℤ◌}
use vibe_ai_router.Common.Dict
use vibe_ai_router.Resilience.Breaker.{
  Window, CircuitBreaker, default_options, new_breaker, closed, opened, half_open, window,
  record_outcome, allow, BreakerCall, ask, report, run,
}
use vibe_ai_router.Resilience.Breaker as Breaker
use vibe_ai_router.Resilience.Breaker.Machine.{IsSound, run-IsSound}
use vibe_ai_router.Resilience.Breaker.Opening.{IsTripped, recent, record_outcome-opens_iff}
use vibe_ai_router.Resilience.Breaker.Admission.{IsProbing, answers, IsProbing-refuses}
use vibe_ai_router.Resilience.Limiter.{
  RateLimiter, new_limiter, one_token, admitted, take, refilled, top_up,
}
use vibe_ai_router.Resilience.Limiter.Rate.{admitted-le}
use vibe_ai_router.Resilience.Shed.{
  LoadShedGuard, new_guard, flying, queue_of, acquire, release, hand_over,
}
use vibe_ai_router.Resilience.Shed.Balance.{
  Reach, Step, World, holding, gives, start, IsSafe, Reach-IsSafe,
}
use vibe_ai_router.Resilience.Shed.Fifo.{
  Call, arrives, leaves, releases, let_in, waited, releases-eq-take,
}
use vibe_ai_router.Resilience.Shed.Fifo as Fifo
use vibe_ai_router.Ops.Cache.{
  Entry, ResponseCache, new_cache, CacheCall, read, save, get, set, size,
}
use vibe_ai_router.Ops.Cache as Cache
use vibe_ai_router.Ops.Cache.Lookup.{last_saved, get-hit, set-drops_oldest}

abbrev strict : CircuitBreaker
strict = record (new_breaker default_options) {
  options = record default_options { min_samples = 2 };
  windows =
      (
        "up",
        record {
          outcomes = record { ok = false; at = 10 } ∷ [];
          state = closed;
          opened_at = 0;
          half_open_probe_in_flight = false;
        },
      )
      ∷ (
        "down",
        record {
          outcomes = [];
          state = opened;
          opened_at = 100;
          half_open_probe_in_flight = false;
        },
      )
      ∷ (
        "half",
        record {
          outcomes = [];
          state = half_open;
          opened_at = 100;
          half_open_probe_in_flight = true;
        },
      )
      ∷ [];
}

run-IsSound_example :
    IsSound (run (report "near" false 0 ∷ ask "near" 40000 ∷ []) (new_breaker default_options))
run-IsSound_example = run-IsSound default_options (report "near" false 0 ∷ ask "near" 40000 ∷ [])

record_outcome-opens_iff_example :
    ((window "up" (record_outcome "up" false 20 strict)).state ≡ opened)
    ↔ IsTripped strict.options false (recent strict.options 20 false (window "up" strict))
unfolding Breaker.code Dict.get Dict.put
record_outcome-opens_iff_example =
    record_outcome-opens_iff "up" false 20 strict refl (omega arith, tt, tt)

trips : (window "up" (record_outcome "up" false 20 strict)).state ≡ opened
unfolding Breaker.code Dict.get Dict.put
trips = refl

opened-ne_closed : opened ≢ closed
opened-ne_closed e = cc

IsProbing-refuses_example :
    All (λ a. a ≡ false) (answers "half" (ask "half" 99000 ∷ report "up" true 99001 ∷ []) strict)
    × IsProbing (window "half" (run (ask "half" 99000 ∷ report "up" true 99001 ∷ []) strict))
unfolding Breaker.code Dict.get Dict.put
IsProbing-refuses_example =
    IsProbing-refuses "half" (ask "half" 99000 ∷ report "up" true 99001 ∷ []) strict
      (record { half = refl; out = refl }) (refl, (refl, tt))

-- Twelve calls a minute, and a burst of five.
abbrev burst_calls : List (String × ℕ)
burst_calls =
    ("a", 0) ∷ ("a", 1) ∷ ("b", 1) ∷ ("a", 2) ∷ ("a", 3) ∷ ("a", 4) ∷ ("a", 5) ∷ ("a", 5005) ∷ []

admitted-le_example :
    admitted "a" burst_calls (new_limiter 12) * one_token ≤ 5 * one_token + (6000 - 0) * 12
admitted-le_example = admitted-le "a" 0 6000 burst_calls (new_limiter 12) (omega arith) (
  omega arith,
  (
    omega arith,
    (
      omega arith,
      (omega arith, (omega arith, (omega arith, (omega arith, (omega arith, omega arith))))),
    ),
  ),
)

admits : admitted "a" burst_calls (new_limiter 12) ≡ 6
unfolding admitted take refilled top_up ◌+ℤ◌ ◌-ℤ◌ Dict.get Dict.put
admits = refl

-- A key whose bucket is empty.
abbrev drained : RateLimiter
drained = record (new_limiter 12) {
  buckets = ("a", record { tokens = pos 0; updated_at = 1000 }) ∷ [];
}

-- One slot for four requests, and a request of another provider.
abbrev arrivals : List Call
arrivals =
    arrives "p" 1 ∷ arrives "p" 2 ∷ arrives "q" 9 ∷ arrives "p" 3 ∷ leaves "p" ∷ arrives "p" 4 ∷ []

abbrev fresh : LoadShedGuard
fresh = new_guard 1 4

abbrev one_in : World
one_in = record {
  guard = (acquire "p" 1 (start 1 4).guard).0;
  holders =
      holding "p" ((start 1 4).holders "p" + gives (acquire "p" 1 (start 1 4).guard).1)
        (start 1 4).holders;
}

abbrev two_in : World
two_in = record {
  guard = (acquire "p" 2 one_in.guard).0;
  holders = holding "p" (one_in.holders "p" + gives (acquire "p" 2 one_in.guard).1) one_in.holders;
}

Reach-IsSafe_example : IsSafe 1 4 two_in
Reach-IsSafe_example =
    Reach-IsSafe 1 4 (Reach.next (Reach.next Reach.here (Step.enter "p" 1)) (Step.enter "p" 2))

releases-eq-take_example :
    let_in "p" arrivals fresh ++ releases 2 "p" (Fifo.run arrivals fresh)
    ≡ Fifo.take (length (let_in "p" arrivals fresh) + 2) (waited "p" arrivals fresh)
unfolding acquire release hand_over flying queue_of ◌+ℤ◌ ◌-ℤ◌ Dict.get Dict.put
releases-eq-take_example = releases-eq-take 2 "p" 0 1 4 arrivals refl (omega arith) (omega arith)

lets_in :
    (let_in "p" arrivals fresh ≡ 2 ∷ [])
    × (releases 2 "p" (Fifo.run arrivals fresh) ≡ 3 ∷ 4 ∷ [])
    × (waited "p" arrivals fresh ≡ 2 ∷ 3 ∷ 4 ∷ [])
unfolding releases release hand_over acquire flying queue_of ◌+ℤ◌ ◌-ℤ◌ Dict.get Dict.put
lets_in = (refl, refl, refl)

abbrev uses : List (CacheCall String)
uses = save "k1" "one" 10 0 ∷ save "k2" "two" 10 5 ∷ read "k1" 6 ∷ save "k3" "three" 10 7 ∷ []

get-hit_example :
    (e : Entry String) × (last_saved "k1" uses none ≡ some e)
    × (e.response ≡ "one")
    × (8 ≤ e.expires_at)
unfolding Cache.run Cache.step get set Cache.get_entry Cache.evict Dict.get Dict.put Dict.remove
get-hit_example = get-hit 2 uses "k1" 8 "one" refl

abbrev two_entries : ResponseCache String
two_entries = new_cache 2

-- A full cache that holds the key that is saved.
abbrev full : ResponseCache String
full = record {
  max_entries = 2;
  entries =
      ("k1", record { response = "one"; expires_at = 9000 })
      ∷ ("k2", record { response = "two"; expires_at = 9000 })
      ∷ [];
}

set-drops_oldest_example : Dict.get "k1" (set "k2" "new" 10 0 full).entries ≡ none
set-drops_oldest_example =
    set-drops_oldest "k2" "k1" "new" (record { response = "one"; expires_at = 9000 }) 10 0
      (("k2", record { response = "two"; expires_at = 9000 }) ∷ []) full (omega arith) refl
      (omega arith) refl
