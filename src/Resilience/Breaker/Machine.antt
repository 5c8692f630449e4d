-- ===== src/Resilience/Breaker/Machine.antt =====
-- The life of a circuit: what the hook is told, and the flag of the probe.
use vibe_ai_router.Common.{
  ℕ, String, ◌≡◌, refl, ◌↔◌, ap, ◌∙◌, Bool, true, false, Option, none, some, List, [], ◌∷◌, ◌++◌,
  arith, str_eq, eq_iff, Bool-cases, inl, inr, leb, ◌+◌, ◌&&◌, length, if◌then◌else◌,
}
use vibe_ai_router.Common.Dict
use vibe_ai_router.Resilience.Breaker.{
  BreakerState, BreakerOptions, closed, opened, half_open, Transition, Window, CircuitBreaker,
  new_breaker, count_failures, rate_reaches, same_state, window, store, transition, allow_in, allow,
  record_in, record_outcome, BreakerCall, ask, report, step, run,
}
use vibe_ai_router.Resilience.Breaker.Admission.{window-store, window-transition}

-- The moves of the state machine.
pub data Move : BreakerState → BreakerState → Type 0 where
  trip : Move closed opened
  probe : Move opened half_open
  recover : Move half_open closed
  relapse : Move half_open opened

abbrev is_move : BreakerState → BreakerState → Bool
is_move closed opened = true
is_move opened half_open = true
is_move half_open closed = true
is_move half_open opened = true
is_move _ _ = false

-- Follows a provider through the calls of the hook: each must start where the last one ended and
-- be a move of the machine.
abbrev pub follow : String → BreakerState → List Transition → Option BreakerState
follow p s [] = some s
follow p s (t ∷ ts) =
    let rest = follow p t.after ts in
    let skip = follow p s ts in
    if str_eq t.provider_id p
    then (if same_state t.before s then (if is_move s t.after then rest else none) else none)
    else skip

follow-append :
    (p : String) (s s' : BreakerState) (ts : List Transition) (t : Transition)
    → follow p s ts ≡ some s'
    → follow p s (ts ++ t ∷ []) ≡ follow p s' (t ∷ [])
follow-append p s s' [] t h = ground arith
follow-append p s s' (u ∷ ts) t h =
    ground (arith, follow-append p u.after s' ts t, follow-append p s s' ts t)

-- The hook's calls so far lead each provider from closed to the state that it has, and the probe
-- of a provider is out exactly while it is half-open.
pub record IsSound (b : CircuitBreaker) : Type 0 where
  pub told : (p : String) → follow p closed b.transitions ≡ some (window p b).state
  pub flag :
      (p : String)
      → ((window p b).half_open_probe_in_flight ≡ true) ↔ ((window p b).state ≡ half_open)

abbrev FlagFits : Bool → BreakerState → Type 0
FlagFits flag s = (flag ≡ true) ↔ (s ≡ half_open)

transitions-store :
    (p : String) (w : Window) (b : CircuitBreaker) → (store p w b).transitions ≡ b.transitions
unfolding store
transitions-store p w b = refl

store-IsSound :
    (p : String) (w : Window) (b : CircuitBreaker)
    → w.state ≡ (window p b).state
    → FlagFits w.half_open_probe_in_flight w.state
    → IsSound b
    → IsSound (store p w b)
store-IsSound p w b e f h = record {
  told = λ q. ground (arith, h.told q, window-store p q w b, eq_iff p q, transitions-store p w b);
  flag = λ q. ground (arith, h.flag q, window-store p q w b);
}

-- The call of the hook that a move makes.
abbrev event : String → Window → BreakerState → Transition
event p w target = record {
  provider_id = p;
  before = w.state;
  after = target;
  failures = count_failures w.outcomes;
  samples = length w.outcomes;
}

transitions-transition :
    (p : String) (w : Window) (target : BreakerState) (b : CircuitBreaker)
    → is_move w.state target ≡ true
    → (transition p w target b).transitions ≡ b.transitions ++ event p w target ∷ []
unfolding transition store
transitions-transition p w target b h = ground arith

transition-IsSound :
    (p : String) (w : Window) (target : BreakerState) (b : CircuitBreaker)
    → w.state ≡ (window p b).state
    → is_move w.state target ≡ true
    → FlagFits w.half_open_probe_in_flight target
    → IsSound b
    → IsSound (transition p w target b)
transition-IsSound p w target b e m f h = record {
  told = λ q.
      ap (follow q closed) (transitions-transition p w target b m)
      ∙ follow-append q closed (window q b).state b.transitions (event p w target) (h.told q)
      ∙ ground (arith, window-transition p q w target b, eq_iff p q);
  flag = λ q. ground (arith, h.flag q, window-transition p q w target b);
}

-- The clauses of `allow` and `record`, for a window that has the state of the provider's and its
-- flag right.
module _ (p : String) (now : ℕ) (w : Window) (b : CircuitBreaker)
    (same : w.state ≡ (window p b).state) (fit : FlagFits w.half_open_probe_in_flight w.state)
    (h : IsSound b) where
  allow_in-IsSound : (s : BreakerState) → w.state ≡ s → IsSound (allow_in s p now w b).0
  unfolding allow_in
  allow_in-IsSound closed e = store-IsSound p w b same fit h
  allow_in-IsSound opened e =
      elim (Bool-cases (leb (w.opened_at + b.options.open_duration_ms) now)) [
        | inl due ↦ rw due (
            transition-IsSound p (record w { half_open_probe_in_flight = true }) half_open b same
              (ground arith) (ground arith) h)
        | inr early ↦ rw early (store-IsSound p w b same fit h)
      ]
  allow_in-IsSound half_open e =
      rw (fit.1 e)
        (store-IsSound p (record w { half_open_probe_in_flight = true }) b same (ground arith) h)

  record_in-IsSound :
      (s : BreakerState) (ok : Bool) → w.state ≡ s → IsSound (record_in s p ok now w b)
  unfolding record_in
  record_in-IsSound half_open true e =
      transition-IsSound p _ closed b same (ground arith) (ground arith) h
  record_in-IsSound half_open false e =
      transition-IsSound p _ opened b same (ground arith) (ground arith) h
  record_in-IsSound closed false e =
      elim (Bool-cases
        (leb b.options.min_samples (length w.outcomes) && rate_reaches b.options w.outcomes)) [
          | inl tripped ↦ rw tripped (
              transition-IsSound p (record w { opened_at = now }) opened b same (ground arith)
                (ground arith) h)
          | inr calm ↦ rw calm (store-IsSound p w b same fit h)
        ]
  record_in-IsSound closed true e = store-IsSound p w b same fit h
  record_in-IsSound opened ok e = store-IsSound p w b same fit h

step-IsSound : (c : BreakerCall) (b : CircuitBreaker) → IsSound b → IsSound (step c b)
unfolding step allow record_outcome
step-IsSound (ask p now) b h =
    allow_in-IsSound p now (window p b) b refl (h.flag p) h (window p b).state refl
step-IsSound (report p ok now) b h =
    record_in-IsSound p now _ b refl (h.flag p) h (window p b).state ok refl

run-IsSound_keeps : (cs : List BreakerCall) (b : CircuitBreaker) → IsSound b → IsSound (run cs b)
unfolding run
run-IsSound_keeps [] b h = h
run-IsSound_keeps (c ∷ cs) b h = run-IsSound_keeps cs (step c b) (step-IsSound c b h)

new_breaker-IsSound : (opts : BreakerOptions) → IsSound (new_breaker opts)
unfolding window Dict.get
new_breaker-IsSound opts = record { told = λ p. refl; flag = λ p. ground arith }

-- In every run from a new breaker, the calls of the hook lead each provider by moves of the state
-- machine from closed to the state that it has, and a provider's probe is out exactly while the
-- provider is half-open.
pub run-IsSound :
    (opts : BreakerOptions) (cs : List BreakerCall) → IsSound (run cs (new_breaker opts))
run-IsSound opts cs = run-IsSound_keeps cs (new_breaker opts) (new_breaker-IsSound opts)
