-- ===== src/Resilience/Executor.antt =====
-- src/resilience/executor.ts, the non-streaming execution of a request across the fallback chain.
-- At every `await` other requests run: `interfere` changes the breaker and the guard as they please,
-- and the number of the await, `tick`, chooses what the clock, the abort signal, the adapter and the
-- verification answer there.
pub mod Clean
pub mod Boundary
pub mod Attempts
pub mod Probe
pub mod Stream
pub mod Verified
use vibe_ai_router.Common.{
  ℕ, zero, suc, ◌+◌, String, Bool, true, false, not, ◌&&◌, ◌||◌, Option, none, some, List, [], ◌∷◌,
  ◌++◌, filter, str_eq, ltb, leb, ◌or_else◌, if◌then◌else◌,
}
use vibe_ai_router.Common.Dict
use vibe_ai_router.Db.{is_local_kind, ModelRow}
use vibe_ai_router.Gateway.Errors.{
  ErrorCode, RouterError, router_error, Result, ok, err, is_retryable, invalid_response,
  capability_missing, policy_blocked, provider_unavailable, rate_limited, unknown,
}
use vibe_ai_router.Gateway.Envelope.{AiRequest}
use vibe_ai_router.Gateway.Route.{
  RouteDecision, PipelineCtx, audit, fallback_hop, max_tokens_clamped, response_rejected,
  response_soft_finding, RouteDeps, route_for_model,
}
use vibe_ai_router.Policy.Select.{select_model}
use vibe_ai_router.Policy.Limits.{clamp_to_model}
use vibe_ai_router.Resilience.Backoff.{max_retries}
use vibe_ai_router.Resilience.Breaker.{CircuitBreaker, allow, record_outcome}
use vibe_ai_router.Resilience.Shed.{
  LoadShedGuard, Admission, granted, waiting, shed, acquire, release,
}

-- What all requests share.
pub record Shared : Type 0 where
  pub breaker : CircuitBreaker
  pub guard : LoadShedGuard

-- The verdict on a response: the reason why it is unusable, and the number of soft findings.
pub record Verdict : Type 0 where
  pub finding : Option String
  pub soft : ℕ

-- The world around one request. A response is any type.
pub record Outside (A : Type 0) : Type 0 where
  pub now : ℕ → ℕ
  pub aborted : ℕ → Bool
  pub timed_out : ℕ → Bool
  pub execute : ℕ → RouteDecision → AiRequest → Result A
  pub verify : A → AiRequest → Verdict
  pub slot_given : ℕ → Bool
  pub interfere : ℕ → Shared → Shared

-- One envelope that was handed to an adapter.
pub record Sent : Type 0 where
  pub model : ModelRow
  pub envelope : AiRequest

pub record Exec : Type 0 where
  pub ctx : PipelineCtx
  pub shared : Shared
  pub tick : ℕ
  pub sent : List Sent

-- `policySide`
abbrev policy_side : ErrorCode → Bool
policy_side capability_missing = true
policy_side policy_blocked = true
policy_side _ = false

unfoldable pub prefer_error : Option RouterError → RouterError → RouterError
prefer_error none e = e
prefer_error (some prev) e = if policy_side e.code && not (policy_side prev.code) then prev else e

abbrev base_envelope : Bool → Option AiRequest → AiRequest → AiRequest
base_envelope true cloud env = env
base_envelope false none env = env
base_envelope false (some cloud) env = cloud

-- The envelope for one hop: cloud hops get the redacted copy, if there is one.
unfoldable pub hop_envelope : ModelRow → PipelineCtx → AiRequest
hop_envelope model ctx =
    clamp_to_model
      (base_envelope (is_local_kind model.provider_kind) ctx.cloud_envelope ctx.envelope) model

abbrev clamp_event : String → Option ℕ → Option ℕ → PipelineCtx → PipelineCtx
clamp_event model none limit ctx = ctx
clamp_event model (some requested) none ctx = ctx
clamp_event model (some requested) (some limit) ctx =
    if leb requested limit then ctx else audit (max_tokens_clamped model requested limit) ctx

abbrev audit_clamp : ModelRow → PipelineCtx → PipelineCtx
audit_clamp model ctx = clamp_event model.canonical_id ctx.envelope.max_tokens model.max_output ctx

-- Audited only behind another model.
abbrev audit_hop : String → String → PipelineCtx → PipelineCtx
audit_hop previous model ctx =
    if str_eq previous "" then ctx else audit (fallback_hop previous model) ctx

abbrev with_ctx : PipelineCtx → Exec → Exec
with_ctx c x = record x { ctx = c }

abbrev with_breaker : CircuitBreaker → Exec → Exec
with_breaker b x = record x { shared = record x.shared { breaker = b } }

abbrev with_guard : LoadShedGuard → Exec → Exec
with_guard g x = record x { shared = record x.shared { guard = g } }

abbrev is_truncated : Option String → Bool
is_truncated none = false
is_truncated (some reason) = str_eq reason "json_truncated"

abbrev is_invalid : ErrorCode → Bool
is_invalid invalid_response = true
is_invalid _ = false

-- The errors after which a hop is not tried again.
abbrev is_final : RouterError → Bool
is_final e = (is_invalid e.code && is_truncated e.reason) || not (is_retryable e.code)

abbrev unusable : String → RouterError
unusable reason = record {
  code = invalid_response;
  reason = some reason;
  retry_after_seconds = none;
}

abbrev limit_reached : RouterError
limit_reached = record { code = rate_limited; reason = none; retry_after_seconds = some 1 }

-- What a hop leaves to the chain.
pub data Hop (A : Type 0) : Type 0 where
  serve : A → Hop A
  next : Option RouterError → String → Hop A
  stop : Option RouterError → Hop A

module _ {A : Type 0} (deps : RouteDeps) (verify_responses : Bool) (out : Outside A) where
  open out use {now, aborted, timed_out, execute, verify, slot_given, interfere}

  unfoldable pub await : Exec → Exec
  await x = record x { tick = suc x.tick; shared = interfere x.tick x.shared }

  -- `cfg.breaker.record`
  unfoldable pub report : RouteDecision → Bool → Exec → Exec
  report route success x =
      with_breaker (record_outcome route.provider.id success (now x.tick) x.shared.breaker) x

  unfoldable pub judge : RouteDecision → A → Verdict → Exec → Exec × Result A
  judge route answer v x = elim v.finding [
    | some reason ↦ (
      with_ctx (audit (response_rejected route.model.canonical_id reason) x.ctx) x,
      err (unusable reason),
    )
    | none ↦ (
      if leb 1 v.soft
          then with_ctx (audit (response_soft_finding route.model.canonical_id v.soft) x.ctx) x
          else x,
      ok answer,
    )
  ]

  unfoldable pub check_answer : RouteDecision → AiRequest → Result A → Exec → Exec × Result A
  check_answer route env (err e) x = (x, err e)
  check_answer route env (ok answer) x =
      if verify_responses then judge route answer (verify answer env) x else (x, ok answer)

  -- One call of the adapter, and the verification of its result.
  unfoldable pub attempt : RouteDecision → Exec → Exec × Result A
  attempt route x =
      let env = hop_envelope route.model x.ctx in
      check_answer route env (execute x.tick route env)
        (await (record x { sent = x.sent ++ record { model = route.model; envelope = env } ∷ [] }))

  -- A failure is held against the provider unless the request was aborted.
  unfoldable pub blame : RouteDecision → Exec → Exec
  blame route x = if aborted x.tick then x else report route false x

  -- Whether the loop ends with a failure, with so many retries left.
  unfoldable pub gives_up : ℕ → RouterError → Exec → Bool
  gives_up zero e x = true
  gives_up (suc left) e x = is_final e || aborted x.tick

  -- The loop of `executeHopWithRetries`, by the retries left. An abort during the sleep rejects
  -- it, and the failure is thrown.
  unfoldable pub retry_loop : ℕ → Option RouterError → RouteDecision → Exec → Exec × Result A
  retry_loop zero last route x =
      if aborted x.tick
      then (x, err (last or_else router_error unknown))
      else elim (attempt route x).1 [
        | ok answer ↦ (report route true (attempt route x).0, ok answer)
        | err e ↦ (blame route (attempt route x).0, err e)
      ]
  retry_loop (suc left) last route x = elim (aborted x.tick) [
    | true ↦ (x, err (last or_else router_error unknown))
    | false ↦ elim (attempt route x).1 [
      | ok answer ↦ (report route true (attempt route x).0, ok answer)
      | err e ↦ elim (gives_up (suc left) e (attempt route x).0) [
        | true ↦ (blame route (attempt route x).0, err e)
        | false ↦ retry_loop left (some e) route (await (blame route (attempt route x).0))
      ]
    ]
  ]

  -- After a hop's slot was given: the retries, then the release of the slot.
  unfoldable pub conclude : ModelRow → RouteDecision → Exec × Result A → Exec × Hop A
  conclude model route (x, ok answer) =
      (with_guard (release route.provider.id x.shared.guard).0 x, serve answer)
  conclude model route (x, err e) = (
    with_guard (release route.provider.id x.shared.guard).0 x,
    if aborted x.tick then stop (some e) else next (some e) model.canonical_id,
  )

  unfoldable pub serve_hop : ModelRow → String → RouteDecision → Exec → Exec × Hop A
  serve_hop model previous route x =
      let c = audit_clamp route.model (audit_hop previous model.canonical_id x.ctx) in
      conclude model route
        (retry_loop max_retries none route (with_ctx (record c { route = some route }) x))

  -- Waits for a slot of the provider.
  unfoldable pub enter_hop : Admission → ModelRow → String → RouteDecision → Exec → Exec × Hop A
  enter_hop granted model previous route x = serve_hop model previous route (await x)
  enter_hop shed model previous route x = (await x, next (some limit_reached) model.canonical_id)
  enter_hop waiting model previous route x =
      if slot_given x.tick
      then serve_hop model previous route (await x)
      else (await x, next (some limit_reached) model.canonical_id)

  unfoldable pub acquire_hop : ModelRow → String → RouteDecision → Exec → Exec × Hop A
  acquire_hop model previous route x =
      let a = acquire route.provider.id x.tick x.shared.guard in
      enter_hop a.1 model previous route (with_guard a.0 x)

  unfoldable pub admit_hop : Bool → ModelRow → String → RouteDecision → Exec → Exec × Hop A
  admit_hop true model previous route x = acquire_hop model previous route x
  admit_hop false model previous route x = (
    with_ctx
        (audit
          (fallback_hop (if str_eq previous "" then model.canonical_id else previous)
            model.canonical_id)
          x.ctx)
        x,
    next (some (router_error provider_unavailable)) model.canonical_id,
  )

  -- The breaker's answer, then the slot.
  unfoldable pub gate_hop : ModelRow → String → RouteDecision → Exec → Exec × Hop A
  gate_hop model previous route x =
      let a = allow route.provider.id (now x.tick) x.shared.breaker in
      admit_hop a.1 model previous route (with_breaker a.0 x)

  unfoldable pub take_route :
      ModelRow → Option RouterError → String → Result RouteDecision → Exec → Exec × Hop A
  take_route model last previous (err e) x = (
    with_ctx (audit_hop previous model.canonical_id x.ctx) x,
    next (some (prefer_error last e)) model.canonical_id,
  )
  take_route model last previous (ok route) x = gate_hop model previous route x

  -- One round of the loop over the candidates, on a model that was found.
  unfoldable pub hop : ModelRow → Option RouterError → String → Exec → Exec × Hop A
  hop model last previous x =
      let r = route_for_model deps model x.ctx in
      take_route model last previous r.1 (await (with_ctx r.0 x))

  -- The end of the loop. A total timeout is a provider's.
  unfoldable pub exhaust : Option RouterError → Exec → Exec × Result A
  exhaust last x = (
    x,
    if timed_out x.tick
        then err (record {
          code = provider_unavailable;
          reason = some "total_timeout";
          retry_after_seconds = none;
        })
        else err (last or_else router_error provider_unavailable),
  )

  unfoldable pub chain : List String → Option RouterError → String → Exec → Exec × Result A
  chain [] last previous x = exhaust last x
  chain (id ∷ ids) last previous x = elim (aborted x.tick) [
    | true ↦ exhaust last x
    | false ↦ elim (Dict.get id x.ctx.effective.models_by_id) [
      | none ↦ chain ids last previous x
      | some model ↦ elim (hop model last previous x).1 [
        | serve answer ↦ ((hop model last previous x).0, ok answer)
        | stop e ↦ exhaust e (hop model last previous x).0
        | next e name ↦ chain ids e name (hop model last previous x).0
      ]
    ]
  ]

  -- `candidateModels`: the selected model, then the fallback chain without it.
  unfoldable pub candidate_models : PipelineCtx → Result (List String)
  candidate_models ctx = elim (select_model deps.pattern_test ctx.effective ctx.envelope) [
    | err e ↦ err e
    | ok s ↦
        ok (
          s.model.id
          ∷ filter (λ id. not (str_eq id s.model.id)) ctx.effective.policy.fallback_chain)
  ]

  unfoldable pub run_candidates : Result (List String) → Exec → Exec × Result A
  run_candidates (err e) x = (x, err e)
  run_candidates (ok ids) x = chain ids none "" x

  unfoldable pub execute_resilient : Exec → Exec × Result A
  execute_resilient x = run_candidates (candidate_models x.ctx) x
