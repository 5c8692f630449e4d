-- ===== src/Resilience/Breaker.antt =====
-- src/resilience/breaker.ts, the per-provider circuit breaker. Times are milliseconds. The opening
-- threshold is the fraction threshold_num / threshold_den, so `errorRate >= openThreshold` is a
-- comparison of products; the calls of the `onTransition` hook are the list `transitions`.
pub mod Admission
pub mod Opening
pub mod Machine
use vibe_ai_router.Common.{
  ℕ, ◌+◌, ◌*◌, String, Bool, true, false, not, ◌&&◌, List, [], ◌∷◌, ◌++◌, leb, ltb, length, filter,
  ◌or_else◌, if◌then◌else◌,
}
use vibe_ai_router.Common.Dict
use vibe_ai_router.Common.Dict.{Dict}

pub data BreakerState : Type 0 where
  closed opened half_open : BreakerState

pub record Outcome : Type 0 where
  pub ok : Bool
  pub at : ℕ

pub record Window : Type 0 where
  pub outcomes : List Outcome
  pub state : BreakerState
  pub opened_at : ℕ
  pub half_open_probe_in_flight : Bool

pub record BreakerOptions : Type 0 where
  pub window_ms : ℕ
  pub min_samples : ℕ
  pub threshold_num : ℕ
  pub threshold_den : ℕ
  pub open_duration_ms : ℕ

abbrev pub default_options : BreakerOptions
default_options = record {
  window_ms = 30000;
  min_samples = 10;
  threshold_num = 1;
  threshold_den = 2;
  open_duration_ms = 30000;
}

-- One call of the hook. The rate that it gets is failures / samples, rounded.
pub record Transition : Type 0 where
  pub provider_id : String
  pub before : BreakerState
  pub after : BreakerState
  pub failures : ℕ
  pub samples : ℕ

pub record CircuitBreaker : Type 0 where
  pub options : BreakerOptions
  pub windows : Dict Window
  pub transitions : List Transition

abbrev pub new_breaker : BreakerOptions → CircuitBreaker
new_breaker opts = record { options = opts; windows = []; transitions = [] }

abbrev pub fresh_window : Window
fresh_window = record {
  outcomes = [];
  state = closed;
  opened_at = 0;
  half_open_probe_in_flight = false;
}

-- The window that `this.window(providerId)` finds or makes; `store` writes it back.
unfoldable pub window : String → CircuitBreaker → Window
window provider_id b = Dict.get provider_id b.windows or_else fresh_window

unfoldable pub store : String → Window → CircuitBreaker → CircuitBreaker
store provider_id w b = record b { windows = Dict.put provider_id w b.windows }

-- Drops outcomes from the front while they are older than the window.
unfoldable pub prune : ℕ → ℕ → List Outcome → List Outcome
prune window_ms now [] = []
prune window_ms now (o ∷ os) =
    let rest = prune window_ms now os in if ltb (o.at + window_ms) now then rest else o ∷ os

unfoldable pub count_failures : List Outcome → ℕ
count_failures os = length (filter (λ o. not o.ok) os)

-- `this.errorRate(w) >= this.openThreshold`; the rate of no outcome is 0.
unfoldable pub rate_reaches : BreakerOptions → List Outcome → Bool
rate_reaches opts [] = leb opts.threshold_num 0
rate_reaches opts (o ∷ os) =
    leb (opts.threshold_num * length (o ∷ os)) (count_failures (o ∷ os) * opts.threshold_den)

abbrev pub same_state : BreakerState → BreakerState → Bool
same_state closed closed = true
same_state opened opened = true
same_state half_open half_open = true
same_state _ _ = false

-- Moves the window to a state, tells the hook, and writes the window back.
unfoldable pub transition : String → Window → BreakerState → CircuitBreaker → CircuitBreaker
transition provider_id w target b =
    if same_state w.state target
    then store provider_id w b
    else store provider_id (record w { state = target })
        (record b {
          transitions =
              b.transitions
              ++ record {
                provider_id = provider_id;
                before = w.state;
                after = target;
                failures = count_failures w.outcomes;
                samples = length w.outcomes;
              }
                ∷ [];
        })

unfoldable pub allow_in :
    BreakerState → String → ℕ → Window → CircuitBreaker → CircuitBreaker × Bool
allow_in closed provider_id now w b = (store provider_id w b, true)
allow_in opened provider_id now w b =
    if leb (w.opened_at + b.options.open_duration_ms) now
    then (transition provider_id (record w { half_open_probe_in_flight = true }) half_open b, true)
    else (store provider_id w b, false)
allow_in half_open provider_id now w b =
    if not w.half_open_probe_in_flight
    then (store provider_id (record w { half_open_probe_in_flight = true }) b, true)
    else (store provider_id w b, false)

unfoldable pub allow : String → ℕ → CircuitBreaker → CircuitBreaker × Bool
allow provider_id now b = let w = window provider_id b in allow_in w.state provider_id now w b

-- `record` after the outcome was pushed and the window pruned.
unfoldable pub record_in :
    BreakerState → String → Bool → ℕ → Window → CircuitBreaker → CircuitBreaker
record_in half_open provider_id true now w b =
    transition provider_id
      (record w { outcomes = filter (λ o. o.ok) w.outcomes; half_open_probe_in_flight = false })
      closed b
record_in half_open provider_id false now w b =
    transition provider_id (record w { opened_at = now; half_open_probe_in_flight = false }) opened
      b
record_in closed provider_id false now w b =
    if leb b.options.min_samples (length w.outcomes) && rate_reaches b.options w.outcomes
    then transition provider_id (record w { opened_at = now }) opened b
    else store provider_id w b
record_in _ provider_id _ now w b = store provider_id w b

unfoldable pub record_outcome : String → Bool → ℕ → CircuitBreaker → CircuitBreaker
record_outcome provider_id ok now b =
    let w = window provider_id b in
    let os = prune b.options.window_ms now (w.outcomes ++ record { ok = ok; at = now } ∷ []) in
    record_in w.state provider_id ok now (record w { outcomes = os }) b

unfoldable pub state_of : String → CircuitBreaker → BreakerState
state_of provider_id b = (window provider_id b).state

-- `reset()`: all windows are forgotten.
unfoldable pub reset : CircuitBreaker → CircuitBreaker
reset b = record b { windows = [] }

-- A request's use of the breaker, and a run of such uses by any number of requests.
pub data BreakerCall : Type 0 where
  ask : String → ℕ → BreakerCall
  report : String → Bool → ℕ → BreakerCall

unfoldable pub step : BreakerCall → CircuitBreaker → CircuitBreaker
step (ask provider_id now) b = (allow provider_id now b).0
step (report provider_id ok now) b = record_outcome provider_id ok now b

unfoldable pub run : List BreakerCall → CircuitBreaker → CircuitBreaker
run [] b = b
run (c ∷ cs) b = run cs (step c b)

-- Names all of the code for proofs that compute with it.
unfoldable pub code : Unit {0}
unfolding window store prune count_failures rate_reaches transition allow_in allow record_in
    record_outcome state_of step run
code = tt
