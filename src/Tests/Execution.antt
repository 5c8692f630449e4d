-- ===== src/Tests/Execution.antt =====
-- The data boundary, routing and the limits of an execution.
use vibe_ai_router.Common.{
  suc, ◌+◌, ◌*◌, ◌≤◌, ◌≡◌, ◌≢◌, refl, true, false, none, some, [], ◌∷◌, All, length,
}
use vibe_ai_router.Common.Int.{pos, ◌+ℤ◌, ◌-ℤ◌}
use vibe_ai_router.Common.Dict
use vibe_ai_router.Db.{is_local_kind, local_only, cloud_allowed}
use vibe_ai_router.Catalog.{is_capped, effective_capabilities}
use vibe_ai_router.Ssrf as Ssrf
use vibe_ai_router.Gateway.Errors.{ok}
use vibe_ai_router.Gateway.Route.{RouteDecision, route_for_model, route_checked, check_provider}
use vibe_ai_router.Gateway.Route.Clearance.{IsCleared, IsUsable, route_for_model-ok}
use vibe_ai_router.Policy.Violation as Violation
use vibe_ai_router.Policy.Select as Select
use vibe_ai_router.Policy.Limits.{clamp_to_model}
use vibe_ai_router.Resilience.Breaker as Breaker
use vibe_ai_router.Resilience.Breaker.{default_options, new_breaker, opened, closed, window}
use vibe_ai_router.Resilience.Breaker.Admission.{IsProbing}
use vibe_ai_router.Resilience.Shed as Shed
use vibe_ai_router.Resilience.Shed.{new_guard}
use vibe_ai_router.Resilience.Executor as Executor
use vibe_ai_router.Resilience.Executor.{Exec, execute_resilient, gate_hop}
use vibe_ai_router.Resilience.Executor.Boundary.{
  IsCandidate, execute_resilient-IsProper, execute_resilient-local_only,
}
use vibe_ai_router.Resilience.Executor.Clean.{IsProper}
use vibe_ai_router.Resilience.Executor.Attempts.{calls-execute_resilient-le}
use vibe_ai_router.Resilience.Executor.Probe.{gate_hop-IsProbing}
use vibe_ai_router.Tests.Sample.{gpt, context, request, deps, out, begin, far_provider}

-- Names the code that a whole execution runs.
unfoldable pub code : Unit {0}
unfolding Breaker.code Dict.get Dict.put ◌+ℤ◌ ◌-ℤ◌ is_capped effective_capabilities
    Ssrf.is_metadata_ip Ssrf.is_loopback_ip Ssrf.is_private_ip Ssrf.is_linklocal_ip Ssrf.classify_v4
    Ssrf.classify_ip Ssrf.classify_host Ssrf.check_url Ssrf.check_base_url route_for_model
    route_checked check_provider Violation.request_requires Violation.required_capabilities
    Violation.missing_capabilities Violation.model_banned Violation.model_violation Select.values
    Select.requested_match Select.distinct Select.rows_of Select.configured Select.ordered
    Select.narrow Select.finish Select.scan Select.serve_default Select.serve_requested
    Select.select_model clamp_to_model Shed.flying Shed.queue_of Shed.acquire Shed.hand_over
    Shed.release Executor.prefer_error Executor.hop_envelope Executor.await Executor.report
    Executor.judge Executor.check_answer Executor.attempt Executor.blame Executor.gives_up
    Executor.retry_loop Executor.conclude Executor.serve_hop Executor.enter_hop Executor.acquire_hop
    Executor.admit_hop Executor.gate_hop Executor.take_route Executor.hop Executor.exhaust
    Executor.chain Executor.candidate_models Executor.run_candidates Executor.execute_resilient
code = tt

abbrev free : Exec
free = begin (context cloud_allowed (some (request "ssn [SSN]")) false)

abbrev confined : Exec
confined = begin (context local_only none false)

abbrev barred : Exec
barred = begin (context cloud_allowed none true)

-- The local model fails three times, then the cloud model gets the redacted copy and answers.
falls_back :
    ((execute_resilient deps true out free).1 ≡ ok "done")
    × (length (execute_resilient deps true out free).0.sent ≡ 4)
unfolding code
falls_back = (refl, refl)

stays_near : length (execute_resilient deps true out confined).0.sent ≡ 3
unfolding code
stays_near = refl

execute_resilient-IsProper_example :
    All
      (IsProper deps true out free.ctx (IsCandidate deps true out free.ctx))
      (execute_resilient deps true out free).0.sent
execute_resilient-IsProper_example = execute_resilient-IsProper deps true out free refl

execute_resilient-local_only_example :
    All
      (λ s. is_local_kind s.model.provider_kind ≡ true)
      (execute_resilient deps true out confined).0.sent
execute_resilient-local_only_example = execute_resilient-local_only deps true out confined refl refl

calls-execute_resilient-le_example :
    length (execute_resilient deps true out free).0.sent
    ≤ length free.sent + 3 * suc (length free.ctx.effective.policy.fallback_chain)
calls-execute_resilient-le_example = calls-execute_resilient-le deps true out free

abbrev far_route : RouteDecision
far_route = record { provider = far_provider; model = gpt }

route_for_model-ok_example :
    (far_route.model ≡ gpt)
    × IsCleared deps free.ctx far_route.model
    × IsUsable deps free.ctx far_route
unfolding code
route_for_model-ok_example = route_for_model-ok deps gpt free.ctx far_route refl

-- An open circuit whose time has come, in front of a provider that can take no more.
abbrev crowded : Exec
crowded = record free {
  shared = record {
    breaker = record (new_breaker default_options) {
      windows =
          (
            "far",
            record {
              outcomes = [];
              state = opened;
              opened_at = 0;
              half_open_probe_in_flight = false;
            },
          )
          ∷ [];
    };
    guard = record (new_guard 1 0) { in_flight = ("far", pos 1) ∷ [] };
  };
  tick = 30000;
}

opened-ne_closed : opened ≢ closed
opened-ne_closed e = cc

gate_hop-IsProbing_example :
    IsProbing (window "far" (gate_hop deps true out gpt "" far_route crowded).0.shared.breaker)
    × ((gate_hop deps true out gpt "" far_route crowded).0.sent ≡ [])
unfolding code
gate_hop-IsProbing_example =
    gate_hop-IsProbing deps true out gpt "" far_route crowded (λ t s. refl) opened-ne_closed refl
      refl
