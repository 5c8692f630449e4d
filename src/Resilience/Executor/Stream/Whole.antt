-- ===== src/Resilience/Executor/Stream/Whole.antt =====
-- What reaches the consumer of a streamed answer comes from one provider.
use vibe_ai_router.Common.{
  String, ◌≡◌, ◌≢◌, refl, subst, ◌∙◌, ◌⊎◌, inl, inr, Bool, true, false, Option, none, some, List,
  [], ◌∷◌, any, is_some, if◌then◌else◌, arith, Bool-cases, Option-cases,
}
use vibe_ai_router.Common.Dict
use vibe_ai_router.Db.{ModelRow}
use vibe_ai_router.Gateway.Errors.{RouterError, Result, ok, err}
use vibe_ai_router.Gateway.Envelope.{StreamChunk}
use vibe_ai_router.Gateway.Route.{RouteDecision, RouteDeps}
use vibe_ai_router.Resilience.Shed.{Admission, granted, waiting, shed}
use vibe_ai_router.Resilience.Executor.{Outside, Exec, await, report, candidate_models}
use vibe_ai_router.Resilience.Executor.Stream.{
  Streamed, is_content, relay, StreamHop, finished, broken, skipped, blame_stream, fail_stream,
  end_stream, stream_of, opened, sending, serve_stream, enter_stream, admit_stream, route_stream,
  hop_stream, StreamResult, deliver, exhaust_stream, chain_stream, stream_candidates,
  execute_resilient_stream,
}
use vibe_ai_router.Resilience.Executor.Stream.Relay.{relay_lem}

pub StreamHop-cases :
    (h : StreamHop)
    → ((got : List StreamChunk) × (h ≡ finished got))
      ⊎ (((got : List StreamChunk) × (e : RouterError) × (h ≡ broken got e))
          ⊎ ((got : List StreamChunk) × (e : RouterError) × (name : String) × (h
                ≡ skipped got e name)))
StreamHop-cases (finished got) = inl (got, refl)
StreamHop-cases (broken got e) = inr (inl (got, e, refl))
StreamHop-cases (skipped got e name) = inr (inr (got, e, name, refl))

module _ (deps : RouteDeps) (verify_responses : Bool) (out : Outside Streamed) where
  -- All that one provider gave, content among it, to which nothing was sent later. The error is
  -- there exactly if the provider's stream failed.
  pub record IsWhole (after : Exec) (got : List StreamChunk) (e : Option RouterError) : Type 0 where
    pub route : RouteDecision
    pub asked : Exec
    pub whole : got ≡ (stream_of deps verify_responses out route asked).chunks
    pub content : any is_content got ≡ true
    pub last : after.sent ≡ (sending deps verify_responses out route asked).sent
    pub failure : is_some e ≡ is_some (stream_of deps verify_responses out route asked).failure

  abbrev IsHop : Exec × StreamHop → Type 0
  IsHop (x, finished got) = IsWhole x got none
  IsHop (x, broken got e) = (got ≡ []) ⊎ IsWhole x got (some e)
  IsHop (x, skipped got e name) = got ≡ []

  blame_stream-sent :
      (route : RouteDecision) (idle : Bool) (e : RouterError) (x : Exec)
      → (blame_stream deps verify_responses out route idle e x).sent ≡ x.sent
  unfolding blame_stream report
  blame_stream-sent route idle e x = ground arith

  -- A hop without content leaves nothing to the consumer.
  nothing-IsHop :
      (x : Exec) (b : Bool) (e : RouterError) (name : String)
      → IsHop (x, if b then broken [] e else skipped [] e name)
  nothing-IsHop x true e name = inl refl
  nothing-IsHop x false e name = refl

  module _ (model : ModelRow) (route : RouteDecision) (y x : Exec)
      (same : x.sent ≡ (sending deps verify_responses out route y).sent) where
    content-IsHop :
        any is_content (stream_of deps verify_responses out route y).chunks ≡ true
        → IsHop (
            end_stream deps verify_responses out model route
              (true, (stream_of deps verify_responses out route y).chunks)
              (stream_of deps verify_responses out route y)
              x)
    unfolding end_stream fail_stream report
    content-IsHop seen =
        let s = stream_of deps verify_responses out route y in
        elim (Option-cases s.failure) [
          | inl none_left ↦ rw none_left record {
            route = route;
            asked = y;
            whole = refl;
            content = seen;
            last = same;
            failure = rw none_left refl;
          }
          | inr (e, failed) ↦ rw failed (
              inr record {
                route = route;
                asked = y;
                whole = refl;
                content = seen;
                last = blame_stream-sent route s.idle_fired _ x ∙ same;
                failure = rw failed refl;
              })
        ]

    end_stream-IsHop : IsHop (
        end_stream deps verify_responses out model route
          (relay false [] (stream_of deps verify_responses out route y).chunks)
          (stream_of deps verify_responses out route y)
          x)
    end_stream-IsHop =
        let s = stream_of deps verify_responses out route y in
        elim (Bool-cases (any is_content s.chunks)) [
          | inl seen ↦ rw (relay_lem s.chunks, seen) (content-IsHop seen)
          | inr unseen ↦
              rw (relay_lem s.chunks, unseen)
                (unfold end_stream fail_stream in nothing-IsHop _ _ _ _)
        ]

  serve_stream-IsHop :
      (model : ModelRow) (previous : String) (route : RouteDecision) (x : Exec)
      → IsHop (serve_stream deps verify_responses out model previous route x)
  unfolding serve_stream await
  serve_stream-IsHop model previous route x =
      end_stream-IsHop model route (opened deps verify_responses out model previous route x) _ refl

  enter_stream-IsHop :
      (a : Admission) (model : ModelRow) (previous : String) (route : RouteDecision) (x : Exec)
      → IsHop (enter_stream deps verify_responses out a model previous route x)
  unfolding enter_stream
  enter_stream-IsHop granted model previous route x = serve_stream-IsHop model previous route _
  enter_stream-IsHop shed model previous route x = refl
  enter_stream-IsHop waiting model previous route x = elim (Bool-cases (out.slot_given x.tick)) [
    | inl given ↦ rw given (serve_stream-IsHop model previous route _)
    | inr lost ↦ rw lost refl
  ]

  admit_stream-IsHop :
      (admitted : Bool) (model : ModelRow) (previous : String) (route : RouteDecision) (x : Exec)
      → IsHop (admit_stream deps verify_responses out admitted model previous route x)
  unfolding admit_stream
  admit_stream-IsHop true model previous route x = enter_stream-IsHop _ model previous route _
  admit_stream-IsHop false model previous route x = refl

  route_stream-IsHop :
      (model : ModelRow) (last : Option RouterError) (previous : String) (r : Result RouteDecision)
      (x : Exec)
      → IsHop (route_stream deps verify_responses out model last previous r x)
  unfolding route_stream
  route_stream-IsHop model last previous (err e) x = refl
  route_stream-IsHop model last previous (ok route) x = admit_stream-IsHop _ model previous route _

  hop_stream-IsHop :
      (model : ModelRow) (last : Option RouterError) (previous : String) (x : Exec)
      → IsHop (hop_stream deps verify_responses out model last previous x)
  unfolding hop_stream
  hop_stream-IsHop model last previous x = route_stream-IsHop model last previous _ _

  subst-IsHop : (x : Exec) (h k : StreamHop) → h ≡ k → IsHop (x, h) → IsHop (x, k)
  subst-IsHop x h k e p = subst (λ z. IsHop (x, z)) e p

  -- Nothing but an error, or one provider's stream.
  abbrev pub IsOutcome : Exec × StreamResult → Type 0
  IsOutcome (x, (got, e)) = ((got ≡ []) × (e ≢ none)) ⊎ IsWhole x got e

  broken-IsOutcome :
      (x : Exec) (got : List StreamChunk) (e : RouterError)
      → IsHop (x, broken got e)
      → IsOutcome (x, (got, some e))
  broken-IsOutcome x got e (inl nothing) = inl (nothing, λ h. cc)
  broken-IsOutcome x got e (inr whole) = inr whole

  deliver-IsOutcome :
      (got : List StreamChunk) (r : Exec × StreamResult)
      → got ≡ []
      → IsOutcome r
      → IsOutcome (deliver got r)
  deliver-IsOutcome got r nothing h = rw nothing h

  exhaust_stream-IsOutcome :
      (last : Option RouterError) (x : Exec)
      → IsOutcome (exhaust_stream deps verify_responses out last x)
  unfolding exhaust_stream
  exhaust_stream-IsOutcome last x = inl (refl, λ h. cc)

  chain_stream-IsOutcome :
      (ids : List String) (last : Option RouterError) (previous : String) (x : Exec)
      → IsOutcome (chain_stream deps verify_responses out ids last previous x)
  unfolding chain_stream
  chain_stream-IsOutcome [] last previous x = exhaust_stream-IsOutcome last x
  chain_stream-IsOutcome (id ∷ ids) last previous x = elim (Bool-cases (out.aborted x.tick)) [
    | inl gone ↦ rw (gone, chain_stream) (exhaust_stream-IsOutcome last x)
    | inr live ↦ elim (Option-cases (Dict.get id x.ctx.effective.models_by_id)) [
      | inl missing ↦ rw (live, chain_stream, missing) (chain_stream-IsOutcome ids last previous x)
      | inr (model, found) ↦
          let (x', h) = hop_stream deps verify_responses out model last previous x in
          let one : IsHop (x', h) = hop_stream-IsHop model last previous x in
          elim (StreamHop-cases h) [
            | inl (got, e) ↦
                rw (live, chain_stream, found, e) (inr (subst-IsHop x' h (finished got) e one))
            | inr (inl (got, w, e)) ↦
                rw (live, chain_stream, found, e)
                  (broken-IsOutcome x' got w (subst-IsHop x' h (broken got w) e one))
            | inr (inr (got, w, name, e)) ↦
                rw (live, chain_stream, found, e)
                  (deliver-IsOutcome got _ (subst-IsHop x' h (skipped got w name) e one)
                    (chain_stream-IsOutcome ids (some w) name x'))
          ]
    ]
  ]

  candidates-IsOutcome :
      (r : Result (List String)) (x : Exec)
      → IsOutcome (stream_candidates deps verify_responses out r x)
  unfolding stream_candidates
  candidates-IsOutcome (err e) x = inl (refl, λ h. cc)
  candidates-IsOutcome (ok ids) x = chain_stream-IsOutcome ids none "" x

  -- A streamed answer is one provider's stream as it is, every chunk in order and content among them,
  -- and nothing is sent to another provider behind it; or the consumer gets nothing but an error. So
  -- two providers' answers are never spliced, and no answer without content passes for a success,
  -- whatever the providers give, and whatever other requests do.
  pub execute_resilient_stream-IsOutcome :
      (x : Exec) → IsOutcome (execute_resilient_stream deps verify_responses out x)
  unfolding execute_resilient_stream
  execute_resilient_stream-IsOutcome x =
      candidates-IsOutcome (candidate_models deps verify_responses out x.ctx) x
