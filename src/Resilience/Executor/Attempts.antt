-- ===== src/Resilience/Executor/Attempts.antt =====
-- How often an execution calls the adapters.
use vibe_ai_router.Common.{
  ℕ, zero, suc, ◌+◌, ◌*◌, ◌≤◌, String, ◌≡◌, refl, ap, ◌∙◌, Bool, true, false, Option, none, some,
  List, [], ◌∷◌, arith, length, length-append, length-filter-le, Bool-cases, Option-cases, inl, inr,
  filter, str_eq, not,
}
use vibe_ai_router.Common.Dict
use vibe_ai_router.Db.{ModelRow}
use vibe_ai_router.Gateway.Errors.{RouterError, Result, ok, err, Result-cases}
use vibe_ai_router.Gateway.Envelope.{AiRequest}
use vibe_ai_router.Gateway.Route.{RouteDecision, RouteDeps, route_for_model}
use vibe_ai_router.Policy.Select.{select_model, Selection}
use vibe_ai_router.Resilience.Backoff.{max_retries}
use vibe_ai_router.Resilience.Shed.{Admission, granted, waiting, shed}
use vibe_ai_router.Resilience.Executor.{
  Outside, Exec, await, report, judge, check_answer, attempt, blame, gives_up, retry_loop, conclude,
  serve_hop, enter_hop, acquire_hop, admit_hop, gate_hop, take_route, hop, exhaust, chain,
  candidate_models, run_candidates, execute_resilient,
}
use vibe_ai_router.Resilience.Executor.Clean.{Hop-cases}

module _ {A : Type 0} (deps : RouteDeps) (verify_responses : Bool) (out : Outside A) where
  sent-check_answer :
      (route : RouteDecision) (env : AiRequest) (r : Result A) (x : Exec)
      → (check_answer deps verify_responses out route env r x).0.sent ≡ x.sent
  unfolding check_answer judge
  sent-check_answer route env (err e) x = refl
  sent-check_answer route env (ok answer) x = ground arith

  calls-attempt :
      (route : RouteDecision) (x : Exec)
      → length (attempt deps verify_responses out route x).0.sent ≡ suc (length x.sent)
  unfolding attempt await
  calls-attempt route x = rw sent-check_answer (omega (arith, length-append x.sent))

  sent-report :
      (route : RouteDecision) (success : Bool) (x : Exec)
      → (report deps verify_responses out route success x).sent ≡ x.sent
  unfolding report
  sent-report route success x = refl

  sent-blame :
      (route : RouteDecision) (x : Exec) → (blame deps verify_responses out route x).sent ≡ x.sent
  unfolding blame report
  sent-blame route x = ground arith

  sent-await : (x : Exec) → (await deps verify_responses out x).sent ≡ x.sent
  unfolding await
  sent-await x = refl

  -- The loop calls the adapter once more than it has retries left, at most.
  calls-retry_loop-le :
      (left : ℕ) (last : Option RouterError) (route : RouteDecision) (x : Exec)
      → length (retry_loop deps verify_responses out left last route x).0.sent
        ≤ length x.sent + suc left
  unfolding retry_loop
  calls-retry_loop-le zero last route x =
      let (x', r) = attempt deps verify_responses out route x in
      let tried = calls-attempt route x in
      elim (Bool-cases (out.aborted x.tick)) [
        | inl gone ↦ rw gone (omega arith)
        | inr live ↦ elim (Result-cases r) [
          | inl (answer, good) ↦ rw (live, good, sent-report) (omega (arith, tried))
          | inr (e, bad) ↦ rw (live, bad, sent-blame) (omega (arith, tried))
        ]
      ]
  calls-retry_loop-le (suc left) last route x =
      let (x', r) = attempt deps verify_responses out route x in
      let tried = calls-attempt route x in
      elim (Bool-cases (out.aborted x.tick)) [
        | inl gone ↦ rw (gone, retry_loop) (omega arith)
        | inr live ↦ elim (Result-cases r) [
          | inl (answer, good) ↦ rw (live, retry_loop, good, sent-report) (omega (arith, tried))
          | inr (e, bad) ↦ elim (Bool-cases (gives_up deps verify_responses out (suc left) e x')) [
            | inl over ↦ rw (live, retry_loop, bad, over, sent-blame) (omega (arith, tried))
            | inr more ↦
                let b = blame deps verify_responses out route x' in
                let again =
                  calls-retry_loop-le left (some e) route (await deps verify_responses out b) in
                let kept : length (await deps verify_responses out b).sent ≡ suc (length x.sent) =
                  ap length (sent-await b ∙ sent-blame route x') ∙ tried in
                rw (live, retry_loop, bad, more) (omega (arith, again, kept))
          ]
        ]
      ]

  sent-conclude :
      (model : ModelRow) (route : RouteDecision) (r : Exec × Result A)
      → (conclude deps verify_responses out model route r).0.sent ≡ r.0.sent
  unfolding conclude
  sent-conclude model route (x, ok answer) = refl
  sent-conclude model route (x, err e) = refl

  -- A round calls the adapter three times, at most.
  calls-serve_hop-le :
      (model : ModelRow) (previous : String) (route : RouteDecision) (x : Exec)
      → length (serve_hop deps verify_responses out model previous route x).0.sent
        ≤ length x.sent + 3
  unfolding serve_hop
  calls-serve_hop-le model previous route x =
      rw sent-conclude (calls-retry_loop-le max_retries none route _)

  calls-enter_hop-le :
      (a : Admission) (model : ModelRow) (previous : String) (route : RouteDecision) (x : Exec)
      → length (enter_hop deps verify_responses out a model previous route x).0.sent
        ≤ length x.sent + 3
  unfolding enter_hop await
  calls-enter_hop-le granted model previous route x = calls-serve_hop-le model previous route _
  calls-enter_hop-le shed model previous route x = omega arith
  calls-enter_hop-le waiting model previous route x = elim (Bool-cases (out.slot_given x.tick)) [
    | inl given ↦ rw given (calls-serve_hop-le model previous route _)
    | inr lost ↦ rw lost (omega arith)
  ]

  calls-admit_hop-le :
      (admitted : Bool) (model : ModelRow) (previous : String) (route : RouteDecision) (x : Exec)
      → length (admit_hop deps verify_responses out admitted model previous route x).0.sent
        ≤ length x.sent + 3
  unfolding admit_hop acquire_hop
  calls-admit_hop-le true model previous route x = calls-enter_hop-le _ model previous route _
  calls-admit_hop-le false model previous route x = omega arith

  calls-take_route-le :
      (model : ModelRow) (last : Option RouterError) (previous : String) (r : Result RouteDecision)
      (x : Exec)
      → length (take_route deps verify_responses out model last previous r x).0.sent
        ≤ length x.sent + 3
  unfolding take_route gate_hop
  calls-take_route-le model last previous (err e) x = omega arith
  calls-take_route-le model last previous (ok route) x = calls-admit_hop-le _ model previous route _

  calls-hop-le :
      (model : ModelRow) (last : Option RouterError) (previous : String) (x : Exec)
      → length (hop deps verify_responses out model last previous x).0.sent ≤ length x.sent + 3
  unfolding hop await
  calls-hop-le model last previous x =
      calls-take_route-le model last previous (route_for_model deps model x.ctx).1 _

  calls-chain-le :
      (ids : List String) (last : Option RouterError) (previous : String) (x : Exec)
      → length (chain deps verify_responses out ids last previous x).0.sent
        ≤ length x.sent + 3 * length ids
  unfolding chain exhaust
  calls-chain-le [] last previous x = omega arith
  calls-chain-le (id ∷ ids) last previous x = elim (Bool-cases (out.aborted x.tick)) [
    | inl gone ↦ rw (gone, chain) (omega arith)
    | inr live ↦ elim (Option-cases (Dict.get id x.ctx.effective.models_by_id)) [
      | inl missing ↦ rw (live, chain, missing) (omega (arith, calls-chain-le ids last previous x))
      | inr (model, found) ↦
          let after = calls-hop-le model last previous x in
          let x' = (hop deps verify_responses out model last previous x).0 in
          elim (Hop-cases (hop deps verify_responses out model last previous x).1) [
            | inl (answer, e) ↦ rw (live, chain, found, e) (omega (arith, after))
            | inr (inl (l, e)) ↦ rw (live, chain, found, e) (omega (arith, after))
            | inr (inr (l, name, e)) ↦
                let rest = calls-chain-le ids l name x' in
                rw (live, chain, found, e) (omega (arith, after, rest))
          ]
    ]
  ]

  calls-run_candidates-le :
      (n : ℕ) (r : Result (List String)) (x : Exec)
      → ((ids : List String) → r ≡ ok ids → length ids ≤ n)
      → length (run_candidates deps verify_responses out r x).0.sent ≤ length x.sent + 3 * n
  unfolding run_candidates
  calls-run_candidates-le n (err e) x h = omega arith
  calls-run_candidates-le n (ok ids) x h = omega (arith, calls-chain-le ids none "" x, h ids refl)

  -- An execution calls the adapters at most three times for the selected model and three times for
  -- each model of the fallback chain, however they answer.
  pub calls-execute_resilient-le :
      (x : Exec)
      → length (execute_resilient deps verify_responses out x).0.sent
        ≤ length x.sent + 3 * suc (length x.ctx.effective.policy.fallback_chain)
  unfolding execute_resilient candidate_models
  calls-execute_resilient-le x =
      calls-run_candidates-le _ (candidate_models deps verify_responses out x.ctx) x
        (λ ids e. counted (select_model deps.pattern_test x.ctx.effective x.ctx.envelope) ids e)
    where
      counted :
          (r : Result Selection) (ids : List String)
          → elim r [
            | err e ↦ err e
            | ok s ↦ ok (
                s.model.id
                ∷ filter (λ id. not (str_eq id s.model.id)) x.ctx.effective.policy.fallback_chain)
          ]
            ≡ ok ids
          → length ids ≤ suc (length x.ctx.effective.policy.fallback_chain)
      counted (err e) ids h = absurd (cc)
      counted (ok s) ids h = ground (
        arith,
        length-filter-le (λ id. not (str_eq id s.model.id)) x.ctx.effective.policy.fallback_chain,
      )
