-- ===== src/Resilience/Executor/Stream/Clean.antt =====
-- The data boundary of the streaming execution.
use vibe_ai_router.Common.{
  String, ◌≡◌, refl, sym, subst, inl, inr, Bool, true, false, Option, none, some, List, [], ◌∷◌,
  arith, All, All-append, Bool-cases, Option-cases,
}
use vibe_ai_router.Common.Dict
use vibe_ai_router.Db.{ModelRow}
use vibe_ai_router.Gateway.Errors.{RouterError, Result, ok, err}
use vibe_ai_router.Gateway.Envelope.{StreamChunk}
use vibe_ai_router.Gateway.Route.{RouteDecision, PipelineCtx, RouteDeps, route_for_model}
use vibe_ai_router.Gateway.Route.Clearance.{route_for_model-SameRequest, route_for_model-ok}
use vibe_ai_router.Resilience.Shed.{Admission, granted, waiting, shed}
use vibe_ai_router.Resilience.Executor.{Outside, Exec, hop_envelope, report, candidate_models}
use vibe_ai_router.Resilience.Executor.Clean.{
  IsProper, IsAllowed, IsClean, IsClean-await, IsClean-ctx, IsCleared-same, SameRequest-audits,
  IsClean-start, IsListing, tail-IsListing, head-IsListing,
}
use vibe_ai_router.Resilience.Executor.Boundary.{IsCandidate}
use vibe_ai_router.Resilience.Executor.Stream.{
  Streamed, ending, blame_stream, fail_stream, end_stream, sending, serve_stream, enter_stream,
  admit_stream, route_stream, hop_stream, exhaust_stream, chain_stream, stream_candidates,
  execute_resilient_stream,
}
use vibe_ai_router.Resilience.Executor.Stream.Whole.{StreamHop-cases}

module _ (deps : RouteDeps) (verify_responses : Bool) (out : Outside Streamed) (start : PipelineCtx)
    (Q : ModelRow → Type 0) where
  abbrev Clean : Exec → Type 0
  Clean x = IsClean deps verify_responses out start Q x

  abbrev Allowed : ModelRow → Type 0
  Allowed model = IsAllowed deps verify_responses out start Q model

  Clean-blame_stream :
      (route : RouteDecision) (idle : Bool) (e : RouterError) (x : Exec)
      → Clean x
      → Clean (blame_stream deps verify_responses out route idle e x)
  unfolding blame_stream report
  Clean-blame_stream route idle e x h = record { same = ground arith; proper = ground arith }

  Clean-end_stream :
      (model : ModelRow) (route : RouteDecision) (r : Bool × List StreamChunk) (s : Streamed)
      (x : Exec)
      → Clean x
      → Clean (end_stream deps verify_responses out model route r s x).0
  unfolding end_stream fail_stream report
  Clean-end_stream model route r s x h = elim (Option-cases (ending r.0 s)) [
    | inl over ↦ rw (over, end_stream) record { same = h.same; proper = h.proper }
    | inr (e, failed) ↦
        let after = Clean-blame_stream route s.idle_fired _ x h in
        rw (failed, end_stream) record { same = after.same; proper = after.proper }
  ]

  Clean-sending :
      (route : RouteDecision) (x : Exec)
      → Allowed route.model
      → Clean x
      → Clean (sending deps verify_responses out route x)
  unfolding sending
  Clean-sending route x c h =
      let copied : hop_envelope route.model x.ctx ≡ hop_envelope route.model start =
        unfold hop_envelope in cc (h.same.envelope, h.same.cloud_envelope) in
      record {
        same = h.same;
        proper =
            All-append _ x.sent _ h.proper
              (record { cleared = c.0; listed = c.1; copy = copied }, tt);
      }

  Clean-serve_stream :
      (model : ModelRow) (previous : String) (route : RouteDecision) (x : Exec)
      → Allowed route.model
      → Clean x
      → Clean (serve_stream deps verify_responses out model previous route x).0
  unfolding serve_stream
  Clean-serve_stream model previous route x c h =
      let audits =
        SameRequest-audits deps verify_responses out start Q route.model previous model.canonical_id
          route x.ctx in
      Clean-end_stream model route _ _ _ (
        IsClean-await deps verify_responses out start Q _
          (Clean-sending route _ c (IsClean-ctx deps verify_responses out start Q _ x audits h)))

  Clean-enter_stream :
      (a : Admission) (model : ModelRow) (previous : String) (route : RouteDecision) (x : Exec)
      → Allowed route.model
      → Clean x
      → Clean (enter_stream deps verify_responses out a model previous route x).0
  unfolding enter_stream
  Clean-enter_stream granted model previous route x c h =
      Clean-serve_stream model previous route _ c
        (IsClean-await deps verify_responses out start Q x h)
  Clean-enter_stream shed model previous route x c h =
      IsClean-await deps verify_responses out start Q x h
  Clean-enter_stream waiting model previous route x c h =
      let waited = IsClean-await deps verify_responses out start Q x h in
      elim (Bool-cases (out.slot_given x.tick)) [
        | inl given ↦ rw given (Clean-serve_stream model previous route _ c waited)
        | inr lost ↦ rw lost waited
      ]

  Clean-admit_stream :
      (admitted : Bool) (model : ModelRow) (previous : String) (route : RouteDecision) (x : Exec)
      → Allowed route.model
      → Clean x
      → Clean (admit_stream deps verify_responses out admitted model previous route x).0
  unfolding admit_stream
  Clean-admit_stream true model previous route x c h =
      Clean-enter_stream _ model previous route _ c (record { same = h.same; proper = h.proper })
  Clean-admit_stream false model previous route x c h = record {
    same = ground arith;
    proper = h.proper;
  }

  Clean-route_stream :
      (model : ModelRow) (last : Option RouterError) (previous : String) (r : Result RouteDecision)
      (x : Exec)
      → ((route : RouteDecision) → r ≡ ok route → Allowed route.model)
      → Clean x
      → Clean (route_stream deps verify_responses out model last previous r x).0
  unfolding route_stream
  Clean-route_stream model last previous (err e) x c h = h
  Clean-route_stream model last previous (ok route) x c h =
      Clean-admit_stream _ model previous route _ (c route refl)
        (record { same = h.same; proper = h.proper })

  Clean-hop_stream :
      (model : ModelRow) (last : Option RouterError) (previous : String) (x : Exec)
      → Q model
      → Clean x
      → Clean (hop_stream deps verify_responses out model last previous x).0
  unfolding hop_stream
  Clean-hop_stream model last previous x q h =
      let routed = (route_for_model deps model x.ctx).0 in
      Clean-route_stream model last previous (route_for_model deps model x.ctx).1 _
        (λ route e.
          let (same, cleared, usable) = route_for_model-ok deps model x.ctx route e in
          (
            IsCleared-same deps verify_responses out start Q x.ctx route.model h.same cleared,
            subst Q (sym same) q,
          ))
        (IsClean-await deps verify_responses out start Q _ (
          IsClean-ctx deps verify_responses out start Q routed x
            (route_for_model-SameRequest deps model x.ctx) h))

  Clean-chain_stream :
      (ids : List String) (last : Option RouterError) (previous : String) (x : Exec)
      → IsListing deps verify_responses out start Q ids
      → Clean x
      → Clean (chain_stream deps verify_responses out ids last previous x).0
  unfolding chain_stream exhaust_stream
  Clean-chain_stream [] last previous x l h = h
  Clean-chain_stream (id ∷ ids) last previous x l h =
      let rest = tail-IsListing deps verify_responses out start Q id ids l in
      elim (Bool-cases (out.aborted x.tick)) [
        | inl gone ↦ rw (gone, chain_stream) h
        | inr live ↦ elim (Option-cases (Dict.get id x.ctx.effective.models_by_id)) [
          | inl missing ↦
              rw (live, chain_stream, missing) (Clean-chain_stream ids last previous x rest h)
          | inr (model, found) ↦
              let listed =
                head-IsListing deps verify_responses out start Q id ids model l
                  (rw h.same.effective found) in
              let after = Clean-hop_stream model last previous x listed h in
              elim (StreamHop-cases
                (hop_stream deps verify_responses out model last previous x).1) [
                  | inl (got, e) ↦ rw (live, chain_stream, found, e) after
                  | inr (inl (got, w, e)) ↦ rw (live, chain_stream, found, e) after
                  | inr (inr (got, w, name, e)) ↦
                      rw (live, chain_stream, found, e)
                        (Clean-chain_stream ids (some w) name _ rest after)
                ]
        ]
      ]

  Clean-stream_candidates :
      (r : Result (List String)) (x : Exec)
      → ((ids : List String) → r ≡ ok ids → IsListing deps verify_responses out start Q ids)
      → Clean x
      → Clean (stream_candidates deps verify_responses out r x).0
  unfolding stream_candidates
  Clean-stream_candidates (err e) x l h = h
  Clean-stream_candidates (ok ids) x l h = Clean-chain_stream ids none "" x (l ids refl) h

-- Every envelope that a streaming execution hands to an adapter goes to the row of a candidate, the
-- selected model or one of the fallback chain, that is fit to serve the request and local unless the
-- scrubber has not barred the cloud, and is the hop's copy of the request: whatever fails, whatever
-- the providers give, and whatever other requests do.
pub execute_resilient_stream-IsProper :
    (deps : RouteDeps) (verify_responses : Bool) (out : Outside Streamed) (x : Exec)
    → x.sent ≡ []
    → All
        (IsProper deps verify_responses out x.ctx (IsCandidate deps verify_responses out x.ctx))
        (execute_resilient_stream deps verify_responses out x).0.sent
unfolding execute_resilient_stream
execute_resilient_stream-IsProper deps verify_responses out x nothing_sent =
    let candidate = IsCandidate deps verify_responses out x.ctx in
    let ids = candidate_models deps verify_responses out x.ctx in
    (Clean-stream_candidates deps verify_responses out x.ctx candidate ids x
      (λ l e id m h f. (l, e, id, h, f))
      (IsClean-start deps verify_responses out candidate x nothing_sent)).proper
