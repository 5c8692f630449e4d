-- ===== src/Resilience/Executor/Verified.antt =====
-- What an execution serves, where responses are verified.
use vibe_ai_router.Common.{
  ℕ, zero, suc, String, ◌≡◌, subst, Bool, true, false, Option, none, some, List, [], ◌∷◌, ◌++◌,
  refl, inl, inr, arith, if◌then◌else◌, Bool-cases, Option-cases,
}
use vibe_ai_router.Common.Dict
use vibe_ai_router.Db.{ModelRow}
use vibe_ai_router.Gateway.Envelope.{AiRequest}
use vibe_ai_router.Gateway.Errors.{RouterError, Result, ok, err, Result-cases}
use vibe_ai_router.Gateway.Route.{RouteDecision, RouteDeps}
use vibe_ai_router.Resilience.Backoff.{max_retries}
use vibe_ai_router.Resilience.Shed.{Admission, granted, waiting, shed}
use vibe_ai_router.Resilience.Executor.{
  Outside, Verdict, Sent, Exec, Hop, serve, next, stop, await, report, judge, check_answer, attempt,
  gives_up, hop_envelope, retry_loop, conclude, serve_hop, enter_hop, acquire_hop, admit_hop,
  gate_hop, take_route, hop, exhaust, chain, candidate_models, run_candidates, execute_resilient,
}
use vibe_ai_router.Resilience.Executor.Clean.{Hop-cases}

module _ {A : Type 0} (deps : RouteDeps) (out : Outside A) where
  -- The answer to the last of the envelopes that were sent, and acceptable for it.
  pub record IsVerified (sent : List Sent) (answer : A) : Type 0 where
    pub before : List Sent
    pub route : RouteDecision
    pub envelope : AiRequest
    pub asked_at : ℕ
    pub last_sent : sent ≡ before ++ record { model = route.model; envelope = envelope } ∷ []
    pub given : out.execute asked_at route envelope ≡ ok answer
    pub accepted : (out.verify answer envelope).finding ≡ none

  abbrev pub IsServed : List Sent → Result A → Type 0
  IsServed sent (ok answer) = IsVerified sent answer
  IsServed sent (err e) = Unit {0}

  abbrev Serves : List Sent → Hop A → Type 0
  Serves sent (serve answer) = IsVerified sent answer
  Serves sent _ = Unit {0}

  judge-sent :
      (route : RouteDecision) (answer : A) (v : Verdict) (x : Exec)
      → (judge deps true out route answer v x).0.sent ≡ x.sent
  unfolding judge
  judge-sent route answer v x = ground arith

  attempt-IsServed :
      (route : RouteDecision) (x : Exec)
      → let (x', r) = attempt deps true out route x in IsServed x'.sent r
  unfolding attempt await check_answer
  attempt-IsServed route x =
      let env = hop_envelope route.model x.ctx in
      elim (Result-cases (out.execute x.tick route env)) [
        | inl (answer, good) ↦ elim (Option-cases (out.verify answer env).finding) [
          | inl fine ↦
              rw (good, check_answer, judge-sent route answer (out.verify answer env) _)
                (unfold judge in
                  rw fine record {
                    before = x.sent;
                    route = route;
                    envelope = env;
                    asked_at = x.tick;
                    last_sent = refl;
                    given = good;
                    accepted = fine;
                  })
          | inr (reason, bad) ↦ rw (good, check_answer) (unfold judge in rw bad tt)
        ]
        | inr (e, bad) ↦ rw (bad, check_answer) tt
      ]

  of_result :
      (sent : List Sent) (r : Result A) (answer : A)
      → r ≡ ok answer
      → IsServed sent r
      → IsVerified sent answer
  of_result sent (ok a) answer e h = subst (λ z. IsServed sent z) e h
  of_result sent (err w) answer e h = absurd (cc)

  retry_loop-IsServed :
      (left : ℕ) (last : Option RouterError) (route : RouteDecision) (x : Exec)
      → let (x', r) = retry_loop deps true out left last route x in IsServed x'.sent r
  unfolding retry_loop report
  retry_loop-IsServed zero last route x =
      let (x', r) = attempt deps true out route x in
      elim (Bool-cases (out.aborted x.tick)) [
        | inl gone ↦ rw gone tt
        | inr live ↦ elim (Result-cases r) [
          | inl (answer, good) ↦
              rw (live, good) (of_result x'.sent r answer good (attempt-IsServed route x))
          | inr (e, bad) ↦ rw (live, bad) tt
        ]
      ]
  retry_loop-IsServed (suc left) last route x =
      let (x', r) = attempt deps true out route x in
      elim (Bool-cases (out.aborted x.tick)) [
        | inl gone ↦ rw (gone, retry_loop) tt
        | inr live ↦ elim (Result-cases r) [
          | inl (answer, good) ↦
              rw (live, retry_loop, good)
                (of_result x'.sent r answer good (attempt-IsServed route x))
          | inr (e, bad) ↦ elim (Bool-cases (gives_up deps true out (suc left) e x')) [
            | inl over ↦ rw (live, retry_loop, bad, over) tt
            | inr more ↦
                rw (live, retry_loop, bad, more) (retry_loop-IsServed left (some e) route _)
          ]
        ]
      ]

  stops-Serves :
      (sent : List Sent) (b : Bool) (e : RouterError) (name : String)
      → Serves sent (if b then stop (some e) else next (some e) name)
  stops-Serves sent true e name = tt
  stops-Serves sent false e name = tt

  conclude-Serves :
      (model : ModelRow) (route : RouteDecision) (r : Exec × Result A)
      → IsServed r.0.sent r.1
      → let (x', h) = conclude deps true out model route r in Serves x'.sent h
  unfolding conclude
  conclude-Serves model route (x, ok answer) h = h
  conclude-Serves model route (x, err e) h = stops-Serves x.sent _ e model.canonical_id

  serve_hop-Serves :
      (model : ModelRow) (previous : String) (route : RouteDecision) (x : Exec)
      → let (x', h) = serve_hop deps true out model previous route x in Serves x'.sent h
  unfolding serve_hop
  serve_hop-Serves model previous route x =
      conclude-Serves model route _ (retry_loop-IsServed max_retries none route _)

  enter_hop-Serves :
      (a : Admission) (model : ModelRow) (previous : String) (route : RouteDecision) (x : Exec)
      → let (x', h) = enter_hop deps true out a model previous route x in Serves x'.sent h
  unfolding enter_hop
  enter_hop-Serves granted model previous route x = serve_hop-Serves model previous route _
  enter_hop-Serves shed model previous route x = tt
  enter_hop-Serves waiting model previous route x = elim (Bool-cases (out.slot_given x.tick)) [
    | inl given ↦ rw given (serve_hop-Serves model previous route _)
    | inr lost ↦ rw lost tt
  ]

  admit_hop-Serves :
      (admitted : Bool) (model : ModelRow) (previous : String) (route : RouteDecision) (x : Exec)
      → let (x', h) = admit_hop deps true out admitted model previous route x in Serves x'.sent h
  unfolding admit_hop acquire_hop
  admit_hop-Serves true model previous route x = enter_hop-Serves _ model previous route _
  admit_hop-Serves false model previous route x = tt

  take_route-Serves :
      (model : ModelRow) (last : Option RouterError) (previous : String) (r : Result RouteDecision)
      (x : Exec)
      → let (x', h) = take_route deps true out model last previous r x in Serves x'.sent h
  unfolding take_route gate_hop
  take_route-Serves model last previous (err e) x = tt
  take_route-Serves model last previous (ok route) x = admit_hop-Serves _ model previous route _

  hop-Serves :
      (model : ModelRow) (last : Option RouterError) (previous : String) (x : Exec)
      → let (x', h) = hop deps true out model last previous x in Serves x'.sent h
  unfolding hop
  hop-Serves model last previous x = take_route-Serves model last previous _ _

  exhaust-IsServed :
      (last : Option RouterError) (x : Exec)
      → let (x', r) = exhaust deps true out last x in IsServed x'.sent r
  unfolding exhaust
  exhaust-IsServed last x = elim (Bool-cases (out.timed_out x.tick)) [
    | inl late ↦ rw late tt
    | inr soon ↦ rw soon tt
  ]

  chain-IsServed :
      (ids : List String) (last : Option RouterError) (previous : String) (x : Exec)
      → let (x', r) = chain deps true out ids last previous x in IsServed x'.sent r
  unfolding chain
  chain-IsServed [] last previous x = exhaust-IsServed last x
  chain-IsServed (id ∷ ids) last previous x = elim (Bool-cases (out.aborted x.tick)) [
    | inl gone ↦ rw (gone, chain) (exhaust-IsServed last x)
    | inr live ↦ elim (Option-cases (Dict.get id x.ctx.effective.models_by_id)) [
      | inl missing ↦ rw (live, chain, missing) (chain-IsServed ids last previous x)
      | inr (model, found) ↦
          let (x', h) = hop deps true out model last previous x in
          let one : Serves x'.sent h = hop-Serves model last previous x in
          elim (Hop-cases h) [
            | inl (answer, e) ↦ rw (live, chain, found, e) (subst (λ z. Serves x'.sent z) e one)
            | inr (inl (w, e)) ↦ rw (live, chain, found, e) (exhaust-IsServed w x')
            | inr (inr (w, name, e)) ↦ rw (live, chain, found, e) (chain-IsServed ids w name x')
          ]
    ]
  ]

  -- Where responses are verified, every answer that an execution serves was given to the last
  -- envelope that was sent, and the verification has no finding on it against that envelope.
  pub execute_resilient-IsServed :
      (x : Exec) → let (x', r) = execute_resilient deps true out x in IsServed x'.sent r
  unfolding execute_resilient run_candidates
  execute_resilient-IsServed x = elim (Result-cases (candidate_models deps true out x.ctx)) [
    | inl (ids, found) ↦ rw (found, run_candidates) (chain-IsServed ids none "" x)
    | inr (e, bad) ↦ rw (bad, run_candidates) tt
  ]
