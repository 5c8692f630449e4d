-- ===== src/Resilience/Executor/Stream.antt =====
-- src/resilience/executor.ts, the streaming execution across the fallback chain. A provider's stream
-- is what its adapter gave up to its end: the chunks, the error that ended it, if one did, and whether
-- the idle timer had fired. The consumer reads to the end.
pub mod Relay
pub mod Whole
pub mod Clean
use vibe_ai_router.Common.{
  ℕ, suc, String, Bool, true, false, not, ◌&&◌, ◌||◌, Option, none, some, List, [], ◌∷◌, ◌++◌,
  str_eq, ◌or_else◌, if◌then◌else◌,
}
use vibe_ai_router.Common.Dict
use vibe_ai_router.Db.{ModelRow}
use vibe_ai_router.Gateway.Errors.{RouterError, router_error, Result, ok, err, provider_unavailable}
use vibe_ai_router.Gateway.Envelope.{
  StreamChunk, text_delta, tool_call_start, tool_call_delta, finish,
}
use vibe_ai_router.Gateway.Route.{
  RouteDecision, PipelineCtx, audit, fallback_hop, response_rejected, RouteDeps, route_for_model,
}
use vibe_ai_router.Resilience.Breaker.{allow}
use vibe_ai_router.Resilience.Shed.{Admission, granted, waiting, shed, acquire, release}
use vibe_ai_router.Resilience.Executor.{
  Outside, Sent, Exec, prefer_error, hop_envelope, audit_clamp, audit_hop, with_ctx, with_breaker,
  with_guard, is_invalid, unusable, limit_reached, await, report, candidate_models,
}

pub record Streamed : Type 0 where
  pub chunks : List StreamChunk
  pub failure : Option RouterError
  pub idle_fired : Bool

-- A stream that fails before its first chunk.
abbrev pub streamed_of : Result Streamed → Streamed
streamed_of (ok s) = s
streamed_of (err e) = record { chunks = []; failure = some e; idle_fired = false }

abbrev pub is_content : StreamChunk → Bool
is_content (finish _) = false
is_content _ = true

-- The loop over the chunks, by `contentSeen` and `pending`: whether content was seen, and what the
-- consumer got.
unfoldable pub relay : Bool → List StreamChunk → List StreamChunk → Bool × List StreamChunk
relay seen pending [] = (seen, [])
relay true pending (c ∷ cs) = let r = relay true pending cs in (r.0, c ∷ r.1)
relay false pending (c ∷ cs) = elim (is_content c) [
  | true ↦ let r = relay true [] cs in (r.0, pending ++ c ∷ r.1)
  | false ↦ relay false (pending ++ c ∷ []) cs
]

abbrev idle_timeout : RouterError
idle_timeout = record {
  code = provider_unavailable;
  reason = some "stream_idle_timeout";
  retry_after_seconds = none;
}

abbrev total_timeout : RouterError
total_timeout = record {
  code = provider_unavailable;
  reason = some "total_timeout";
  retry_after_seconds = none;
}

-- How the stream of a hop ends for the loop.
abbrev pub ending : Bool → Streamed → Option RouterError
ending true s = s.failure
ending false s = some (s.failure or_else unusable "empty_response")

-- What a hop leaves to the chain, and to the consumer.
pub data StreamHop : Type 0 where
  finished : List StreamChunk → StreamHop
  broken : List StreamChunk → RouterError → StreamHop
  skipped : List StreamChunk → RouterError → String → StreamHop

abbrev pub StreamResult : Type 0
StreamResult = List StreamChunk × Option RouterError

-- What the consumer had got already comes first.
abbrev pub deliver : List StreamChunk → Exec × StreamResult → Exec × StreamResult
deliver got r = (r.0, (got ++ r.1.0, r.1.1))

module _ (deps : RouteDeps) (verify_responses : Bool) (out : Outside Streamed) where
  open out use {now, aborted, timed_out, execute, slot_given}

  abbrev wait : Exec → Exec
  wait x = await deps verify_responses out x

  -- The `catch`: the breaker is told unless the request was aborted or the idle timer fired.
  unfoldable pub blame_stream : RouteDecision → Bool → RouterError → Exec → Exec
  blame_stream route idle e x =
      let told =
        if aborted x.tick || idle then x else report deps verify_responses out route false x in
      if is_invalid e.code
      then with_ctx (audit (response_rejected route.model.canonical_id "empty_response") told.ctx)
          told
      else told

  abbrev free : RouteDecision → Exec → Exec
  free route x = with_guard (release route.provider.id x.shared.guard).0 x

  -- Behind content, an abort or the idle timer no other provider takes over.
  unfoldable pub fail_stream :
      ModelRow
      → RouteDecision
      → Bool × List StreamChunk
      → Bool
      → RouterError
      → Exec
      → Exec × StreamHop
  fail_stream model route (seen, got) idle e x = (
    free route (blame_stream route idle e x),
    if seen || (aborted x.tick || idle) then broken got e else skipped got e model.canonical_id,
  )

  unfoldable pub end_stream :
      ModelRow → RouteDecision → Bool × List StreamChunk → Streamed → Exec → Exec × StreamHop
  end_stream model route r s x = elim (ending r.0 s) [
    | none ↦ (free route (report deps verify_responses out route true x), finished r.1)
    | some e ↦ fail_stream model route r s.idle_fired (if s.idle_fired then idle_timeout else e) x
  ]

  -- The adapter's stream for this hop.
  unfoldable pub stream_of : RouteDecision → Exec → Streamed
  stream_of route x = streamed_of (execute x.tick route (hop_envelope route.model x.ctx))

  abbrev pub opened : ModelRow → String → RouteDecision → Exec → Exec
  opened model previous route x =
      let c = audit_clamp route.model (audit_hop previous model.canonical_id x.ctx) in
      with_ctx (record c { route = some route }) x

  unfoldable pub sending : RouteDecision → Exec → Exec
  sending route x = record x {
    sent = x.sent ++ record { model = route.model; envelope = hop_envelope route.model x.ctx } ∷ [];
  }

  unfoldable pub serve_stream : ModelRow → String → RouteDecision → Exec → Exec × StreamHop
  serve_stream model previous route x =
      let y = opened model previous route x in
      let s = stream_of route y in
      end_stream model route (relay false [] s.chunks) s (wait (sending route y))

  unfoldable pub enter_stream :
      Admission → ModelRow → String → RouteDecision → Exec → Exec × StreamHop
  enter_stream granted model previous route x = serve_stream model previous route (wait x)
  enter_stream shed model previous route x = (wait x, skipped [] limit_reached model.canonical_id)
  enter_stream waiting model previous route x =
      if slot_given x.tick
      then serve_stream model previous route (wait x)
      else (wait x, skipped [] limit_reached model.canonical_id)

  unfoldable pub admit_stream : Bool → ModelRow → String → RouteDecision → Exec → Exec × StreamHop
  admit_stream true model previous route x =
      let a = acquire route.provider.id x.tick x.shared.guard in
      enter_stream a.1 model previous route (with_guard a.0 x)
  admit_stream false model previous route x = (
    with_ctx
        (audit
          (fallback_hop (if str_eq previous "" then model.canonical_id else previous)
            model.canonical_id)
          x.ctx)
        x,
    skipped [] (router_error provider_unavailable) model.canonical_id,
  )

  -- A candidate without a route is passed over; the breaker answers for one with a route.
  unfoldable pub route_stream :
      ModelRow → Option RouterError → String → Result RouteDecision → Exec → Exec × StreamHop
  route_stream model last previous (err e) x =
      (x, skipped [] (prefer_error last e) model.canonical_id)
  route_stream model last previous (ok route) x =
      let a = allow route.provider.id (now x.tick) x.shared.breaker in
      admit_stream a.1 model previous route (with_breaker a.0 x)

  unfoldable pub hop_stream : ModelRow → Option RouterError → String → Exec → Exec × StreamHop
  hop_stream model last previous x =
      let r = route_for_model deps model x.ctx in
      route_stream model last previous r.1 (wait (with_ctx r.0 x))

  unfoldable pub exhaust_stream : Option RouterError → Exec → Exec × StreamResult
  exhaust_stream last x =
      let e =
        if timed_out x.tick
        then total_timeout
        else last or_else router_error provider_unavailable in
      (x, ([], some e))

  -- What the consumer got, and the error that ended the stream.
  unfoldable pub chain_stream :
      List String → Option RouterError → String → Exec → Exec × StreamResult
  chain_stream [] last previous x = exhaust_stream last x
  chain_stream (id ∷ ids) last previous x = elim (aborted x.tick) [
    | true ↦ exhaust_stream last x
    | false ↦ elim (Dict.get id x.ctx.effective.models_by_id) [
      | none ↦ chain_stream ids last previous x
      | some model ↦ elim (hop_stream model last previous x).1 [
        | finished got ↦ ((hop_stream model last previous x).0, (got, none))
        | broken got e ↦ ((hop_stream model last previous x).0, (got, some e))
        | skipped got e name ↦
            deliver got (chain_stream ids (some e) name (hop_stream model last previous x).0)
      ]
    ]
  ]

  unfoldable pub stream_candidates : Result (List String) → Exec → Exec × StreamResult
  stream_candidates (err e) x = (x, ([], some e))
  stream_candidates (ok ids) x = chain_stream ids none "" x

  unfoldable pub execute_resilient_stream : Exec → Exec × StreamResult
  execute_resilient_stream x =
      stream_candidates (candidate_models deps verify_responses out x.ctx) x
