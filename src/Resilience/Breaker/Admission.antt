-- ===== src/Resilience/Breaker/Admission.antt =====
-- Who is let through, and for how long a half-open circuit refuses.
use vibe_ai_router.Common.{
  ℕ, ◌+◌, ◌≤◌, String, ◌≡◌, ◌≢◌, refl, ◌↔◌, ◌⊎◌, ap, ◌∙◌, Bool, true, false, List, [], ◌∷◌, arith,
  str_eq, eq_iff, Bool-cases, inl, inr, All, if◌then◌else◌,
}
use vibe_ai_router.Common.Dict.{get-put}
use vibe_ai_router.Resilience.Breaker.{
  same_state, BreakerState, BreakerOptions, closed, opened, half_open, Window, CircuitBreaker,
  window, store, transition, allow_in, allow, record_in, record_outcome, BreakerCall, ask, report,
  step, run,
}

-- A provider's window after another provider's was written, or its own.
pub window-store :
    (p q : String) (w : Window) (b : CircuitBreaker)
    → window q (store p w b) ≡ (if str_eq p q then w else window q b)
unfolding window store
window-store p q w b = ground (arith, get-put p q w b.windows)

same_state-eq : (a b : BreakerState) → same_state a b ≡ true → a ≡ b
same_state-eq closed closed h = refl
same_state-eq opened opened h = refl
same_state-eq half_open half_open h = refl
same_state-eq closed opened h = cc
same_state-eq closed half_open h = cc
same_state-eq opened closed h = cc
same_state-eq opened half_open h = cc
same_state-eq half_open closed h = cc
same_state-eq half_open opened h = cc

abbrev pub moved : Window → BreakerState → Window
moved w target = record w { state = target }

pub window-transition :
    (p q : String) (w : Window) (s : BreakerState) (b : CircuitBreaker)
    → window q (transition p w s b) ≡ (if str_eq p q then moved w s else window q b)
unfolding window transition
window-transition p q w s b = elim (Bool-cases (same_state w.state s)) [
  | inl e ↦ rw e (
      window-store p q w b
      ∙ ap (λ v. if str_eq p q then v else window q b) (ap (moved w) (same_state-eq w.state s e)))
  | inr e ↦ rw e (window-store p q (moved w s) _)
]

pub ruleset window_laws = (window-store, window-transition)

-- Asking about one provider, or reporting on it, leaves every other provider's window alone.
window-allow_ne :
    (p q : String) (now : ℕ) (b : CircuitBreaker)
    → str_eq p q ≡ false
    → window q (allow p now b).0 ≡ window q b
unfolding allow_in allow
window-allow_ne p q now b h = grind (arith, window_laws)

window-record_outcome_ne :
    (p q : String) (ok : Bool) (now : ℕ) (b : CircuitBreaker)
    → str_eq p q ≡ false
    → window q (record_outcome p ok now b) ≡ window q b
unfolding record_in record_outcome
window-record_outcome_ne p q ok now b h = grind (arith, window_laws)

abbrev pub concerns : String → BreakerCall → Bool
concerns p (ask q now) = str_eq q p
concerns p (report q ok now) = str_eq q p

-- A call that concerns another provider leaves this provider's window as it was.
pub window-step_ne :
    (p : String) (c : BreakerCall) (b : CircuitBreaker)
    → concerns p c ≡ false
    → window p (step c b) ≡ window p b
unfolding step
window-step_ne p (ask q now) b h = window-allow_ne q p now b h
window-step_ne p (report q ok now) b h = window-record_outcome_ne q p ok now b h

-- The window of a provider as the requests find it: half-open with its probe out.
pub record IsProbing (w : Window) : Type 0 where
  pub half : w.state ≡ half_open
  pub out : w.half_open_probe_in_flight ≡ true

-- The answers to the requests for one provider, in a run.
unfoldable pub answers : String → List BreakerCall → CircuitBreaker → List Bool
answers p [] b = []
answers p (ask q now ∷ cs) b =
    let rest = answers p cs (allow q now b).0 in
    if str_eq q p then (allow q now b).1 ∷ rest else rest
answers p (report q ok now ∷ cs) b = answers p cs (record_outcome q ok now b)

abbrev reports_on : String → BreakerCall → Bool
reports_on p (ask q now) = false
reports_on p (report q ok now) = str_eq q p

-- No call of the run reports an outcome of the provider.
abbrev pub NoReport : String → List BreakerCall → Type 0
NoReport p cs = All (λ c. reports_on p c ≡ false) cs

allow_in-refuses :
    (s : BreakerState) (p : String) (now : ℕ) (w : Window) (b : CircuitBreaker)
    → s ≡ half_open
    → w.half_open_probe_in_flight ≡ true
    → allow_in s p now w b ≡ (store p w b, false)
unfolding allow_in
allow_in-refuses s p now w b h k = ground arith

allow-refuses :
    (p : String) (now : ℕ) (b : CircuitBreaker)
    → IsProbing (window p b)
    → allow p now b ≡ (store p (window p b) b, false)
unfolding allow
allow-refuses p now b h = allow_in-refuses _ p now (window p b) b h.half h.out

window-store_self :
    (p : String) (b : CircuitBreaker) → window p (store p (window p b) b) ≡ window p b
window-store_self p b = ground (arith, window-store p p (window p b) b)

window-ask_probing :
    (p q : String) (now : ℕ) (b : CircuitBreaker)
    → IsProbing (window p b)
    → window p (allow q now b).0 ≡ window p b
window-ask_probing p q now b h = elim (Bool-cases (str_eq q p)) [
  | inl e ↦
      let same : q ≡ p = (eq_iff q p).0 e in
      rw (same, allow-refuses p now b h) (window-store_self p b)
  | inr e ↦ window-allow_ne q p now b e
]

-- While a half-open provider's probe is out, a run that reports no outcome of it refuses every
-- request for it, at whatever time, and leaves it half-open with the probe out.
pub IsProbing-refuses :
    (p : String) (cs : List BreakerCall) (b : CircuitBreaker)
    → IsProbing (window p b)
    → NoReport p cs
    → All (λ a. a ≡ false) (answers p cs b) × IsProbing (window p (run cs b))
unfolding answers run step
IsProbing-refuses p [] b h _ = (tt, h)
IsProbing-refuses p (ask q now ∷ cs) b h (_, r) =
    let kept : IsProbing (window p (allow q now b).0) = rw (window-ask_probing p q now b h) h in
    let rest = IsProbing-refuses p cs (allow q now b).0 kept r in
    let refused : q ≡ p → (allow q now b).1 ≡ false = λ same. rw (same, allow-refuses p now b h) in
    (
      elim (Bool-cases (str_eq q p)) [
        | inl e ↦ rw e (refused ((eq_iff q p).0 e), rest.0)
        | inr e ↦ rw e rest.0
      ],
      rest.1,
    )
IsProbing-refuses p (report q ok now ∷ cs) b h (e, r) =
    IsProbing-refuses p cs (record_outcome q ok now b)
      (rw (window-record_outcome_ne q p ok now b e) h) r

-- The three ways to be let through.
abbrev pub IsAdmitted : BreakerOptions → ℕ → Window → Type 0
IsAdmitted opts now w =
    (w.state ≡ closed)
    ⊎ ((w.state ≡ opened) × (w.opened_at + opts.open_duration_ms ≤ now))
    ⊎ ((w.state ≡ half_open) × (w.half_open_probe_in_flight ≡ false))

allow_in-admits :
    (s : BreakerState) (p : String) (now : ℕ) (w : Window) (b : CircuitBreaker)
    → w.state ≡ s
    → ((allow_in s p now w b).1 ≡ true) ↔ IsAdmitted b.options now w
unfolding allow_in
allow_in-admits closed p now w b e = ground arith
allow_in-admits opened p now w b e = ground arith
allow_in-admits half_open p now w b e = ground arith

allow_in-probes :
    (s : BreakerState) (p : String) (now : ℕ) (w : Window) (b : CircuitBreaker)
    → w.state ≡ s
    → s ≢ closed
    → (allow_in s p now w b).1 ≡ true
    → IsProbing (window p (allow_in s p now w b).0)
unfolding allow_in
allow_in-probes closed p now w b e h k = absurd (h refl)
allow_in-probes opened p now w b e h k = ground (
  arith,
  window-transition p p (record w { half_open_probe_in_flight = true }) half_open b,
  eq_iff p p,
)
allow_in-probes half_open p now w b e h k =
    ground (arith, window-store p p (record w { half_open_probe_in_flight = true }) b, eq_iff p p)

-- A request is let through exactly if the circuit is closed, or open for at least its open
-- duration, or half-open with no probe out.
pub allow_iff :
    (p : String) (now : ℕ) (b : CircuitBreaker)
    → ((allow p now b).1 ≡ true) ↔ IsAdmitted b.options now (window p b)
unfolding allow
allow_iff p now b = allow_in-admits _ p now (window p b) b refl

-- A request that is let through a circuit which is not closed leaves it half-open with the probe
-- out.
pub allow-IsProbing :
    (p : String) (now : ℕ) (b : CircuitBreaker)
    → (window p b).state ≢ closed
    → (allow p now b).1 ≡ true
    → IsProbing (window p (allow p now b).0)
unfolding allow
allow-IsProbing p now b h e = allow_in-probes _ p now (window p b) b refl h e
