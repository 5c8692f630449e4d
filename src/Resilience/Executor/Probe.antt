-- ===== src/Resilience/Executor/Probe.antt =====
-- A half-open circuit's probe that never reaches the provider.
use vibe_ai_router.Common.{ℕ, String, ◌≡◌, ◌≢◌, refl, true, Bool}
use vibe_ai_router.Db.{ModelRow}
use vibe_ai_router.Gateway.Route.{RouteDecision, RouteDeps}
use vibe_ai_router.Resilience.Breaker.{closed, window, allow}
use vibe_ai_router.Resilience.Breaker.Admission.{IsProbing, allow-IsProbing}
use vibe_ai_router.Resilience.Shed.{acquire, shed}
use vibe_ai_router.Resilience.Executor.{
  Shared, Outside, Exec, gate_hop, admit_hop, acquire_hop, enter_hop, await,
}

-- A request that is let through a circuit which is not closed, and finds the provider's slots and
-- its queue full, leaves the circuit half-open with the probe out, though nothing was sent; provided
-- that no other request touches the provider's window meanwhile.
pub gate_hop-IsProbing :
    {A : Type 0} (deps : RouteDeps) (verify_responses : Bool) (out : Outside A) (model : ModelRow)
    (previous : String) (route : RouteDecision) (x : Exec)
    → ((t : ℕ) (s : Shared)
        → window route.provider.id (out.interfere t s).breaker ≡ window route.provider.id s.breaker)
    → (window route.provider.id x.shared.breaker).state ≢ closed
    → (allow route.provider.id (out.now x.tick) x.shared.breaker).1 ≡ true
    → (acquire route.provider.id x.tick x.shared.guard).1 ≡ shed
    → IsProbing (
        window route.provider.id
          (gate_hop deps verify_responses out model previous route x).0.shared.breaker)
      × ((gate_hop deps verify_responses out model previous route x).0.sent ≡ x.sent)
unfolding gate_hop admit_hop acquire_hop enter_hop await
gate_hop-IsProbing deps verify_responses out model previous route x quiet out_of let_in full =
    let p = route.provider.id in
    let probing = allow-IsProbing p (out.now x.tick) x.shared.breaker out_of let_in in
    rw (let_in, full) (rw (quiet _ _) probing, refl)
