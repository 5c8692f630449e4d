-- ===== src/Resilience/Executor/Clean.antt =====
-- What every step of an execution keeps: the request is the same, and what was sent may be sent.
use vibe_ai_router.Common.{
  ℕ, zero, suc, String, ◌≡◌, ◌⊎◌, refl, sym, subst, ◌∙◌, Bool, true, false, Option, none, some,
  List, [], ◌∷◌, ◌++◌, arith, All, All-append, Bool-cases, Option-cases, inl, inr,
}
use vibe_ai_router.Common.Dict
use vibe_ai_router.Db.{ModelRow}
use vibe_ai_router.Gateway.Errors.{RouterError, Result, ok, err, Result-cases}
use vibe_ai_router.Gateway.Envelope.{AiRequest}
use vibe_ai_router.Gateway.Route.{RouteDecision, PipelineCtx, RouteDeps, route_for_model}
use vibe_ai_router.Gateway.Route.Clearance.{
  SameRequest, IsCleared, route_for_model-SameRequest, route_for_model-ok,
}
use vibe_ai_router.Policy.Select.{includes}
use text.Mathlib.TextPositions.{eq_refl}
use vibe_ai_router.Resilience.Backoff.{max_retries}
use vibe_ai_router.Resilience.Shed.{Admission, granted, waiting, shed}
use vibe_ai_router.Resilience.Executor.{
  Outside, Sent, Exec, Hop, serve, next, stop, hop_envelope, audit_clamp, audit_hop, with_ctx,
  await, report, judge, check_answer, attempt, blame, gives_up, retry_loop, conclude, serve_hop,
  enter_hop, acquire_hop, admit_hop, gate_hop, take_route, hop, exhaust, chain, run_candidates,
}

SameRequest-trans : (a b c : PipelineCtx) → SameRequest a b → SameRequest b c → SameRequest a c
SameRequest-trans a b c h k = record {
  effective = h.effective ∙ k.effective;
  envelope = h.envelope ∙ k.envelope;
  cloud_envelope = h.cloud_envelope ∙ k.cloud_envelope;
  cloud_blocked = h.cloud_blocked ∙ k.cloud_blocked;
}

pub Hop-cases :
    {A : Type 0} (h : Hop A)
    → ((a : A) × (h ≡ serve a))
      ⊎ ((e : Option RouterError) × (h ≡ stop e))
      ⊎ ((e : Option RouterError) × (name : String) × (h ≡ next e name))
Hop-cases (serve a) = inl (a, refl)
Hop-cases (stop e) = inr (inl (e, refl))
Hop-cases (next e name) = inr (inr (e, name, refl))

module _ {A : Type 0} (deps : RouteDeps) (verify_responses : Bool) (out : Outside A)
    (start : PipelineCtx) (Q : ModelRow → Type 0) where
  -- An envelope that the request of `start` may be sent as.
  pub record IsProper (s : Sent) : Type 0 where
    pub cleared : IsCleared deps start s.model
    pub listed : Q s.model
    pub copy : s.envelope ≡ hop_envelope s.model start

  -- A model that the request may be sent to.
  abbrev pub IsAllowed : ModelRow → Type 0
  IsAllowed model = IsCleared deps start model × Q model

  pub record IsClean (x : Exec) : Type 0 where
    pub same : SameRequest start x.ctx
    pub proper : All IsProper x.sent

  pub IsClean-await : (x : Exec) → IsClean x → IsClean (await deps verify_responses out x)
  unfolding await
  IsClean-await x h = record { same = h.same; proper = h.proper }

  pub IsClean-ctx :
      (c : PipelineCtx) (x : Exec) → SameRequest x.ctx c → IsClean x → IsClean (with_ctx c x)
  IsClean-ctx c x s h = record {
    same = SameRequest-trans start x.ctx c h.same s;
    proper = h.proper;
  }

  IsClean-check_answer :
      (route : RouteDecision) (env : AiRequest) (r : Result A) (x : Exec)
      → IsClean x
      → IsClean (check_answer deps verify_responses out route env r x).0
  unfolding check_answer judge
  IsClean-check_answer route env (err e) x h = h
  IsClean-check_answer route env (ok answer) x h = record {
    same = ground arith;
    proper = ground arith;
  }

  IsClean-attempt :
      (route : RouteDecision) (x : Exec)
      → IsAllowed route.model
      → IsClean x
      → IsClean (attempt deps verify_responses out route x).0
  unfolding attempt
  IsClean-attempt route x c h =
      let env = hop_envelope route.model x.ctx in
      let copied : env ≡ hop_envelope route.model start =
        unfold hop_envelope in cc (h.same.envelope, h.same.cloud_envelope) in
      let logged : Exec = record x {
        sent = x.sent ++ record { model = route.model; envelope = env } ∷ [];
      } in
      let proper : IsClean logged = record {
        same = h.same;
        proper =
            All-append IsProper x.sent _ h.proper
              (record { cleared = c.0; listed = c.1; copy = copied }, tt);
      } in
      IsClean-check_answer route env (out.execute x.tick route env) _ (IsClean-await logged proper)

  pub IsClean-report :
      (route : RouteDecision) (success : Bool) (x : Exec)
      → IsClean x
      → IsClean (report deps verify_responses out route success x)
  unfolding report
  IsClean-report route success x h = record { same = h.same; proper = h.proper }

  IsClean-blame :
      (route : RouteDecision) (x : Exec)
      → IsClean x
      → IsClean (blame deps verify_responses out route x)
  unfolding blame
  IsClean-blame route x h = elim (Bool-cases (out.aborted x.tick)) [
    | inl gone ↦ rw gone h
    | inr live ↦ rw live (IsClean-report route false x h)
  ]

  IsClean-retry_loop :
      (left : ℕ) (last : Option RouterError) (route : RouteDecision) (x : Exec)
      → IsAllowed route.model
      → IsClean x
      → IsClean (retry_loop deps verify_responses out left last route x).0
  unfolding retry_loop
  IsClean-retry_loop zero last route x c h =
      let (x', r) = attempt deps verify_responses out route x in
      let tried : IsClean x' = IsClean-attempt route x c h in
      elim (Bool-cases (out.aborted x.tick)) [
        | inl gone ↦ rw gone h
        | inr live ↦ elim (Result-cases r) [
          | inl (answer, good) ↦ rw (live, good) (IsClean-report route true x' tried)
          | inr (e, bad) ↦ rw (live, bad) (IsClean-blame route x' tried)
        ]
      ]
  IsClean-retry_loop (suc left) last route x c h =
      let (x', r) = attempt deps verify_responses out route x in
      let tried : IsClean x' = IsClean-attempt route x c h in
      elim (Bool-cases (out.aborted x.tick)) [
        | inl gone ↦ rw (gone, retry_loop) h
        | inr live ↦ elim (Result-cases r) [
          | inl (answer, good) ↦ rw (live, retry_loop, good) (IsClean-report route true x' tried)
          | inr (e, bad) ↦
              let blamed = IsClean-blame route x' tried in
              elim (Bool-cases (gives_up deps verify_responses out (suc left) e x')) [
                | inl over ↦ rw (live, retry_loop, bad, over) blamed
                | inr more ↦
                    rw (live, retry_loop, bad, more)
                      (IsClean-retry_loop left (some e) route _ c (IsClean-await _ blamed))
              ]
        ]
      ]

  IsClean-conclude :
      (model : ModelRow) (route : RouteDecision) (r : Exec × Result A)
      → IsClean r.0
      → IsClean (conclude deps verify_responses out model route r).0
  unfolding conclude
  IsClean-conclude model route (x, ok answer) h = record { same = h.same; proper = h.proper }
  IsClean-conclude model route (x, err e) h = record { same = h.same; proper = h.proper }

  pub SameRequest-audits :
      (model : ModelRow) (previous name : String) (route : RouteDecision) (c : PipelineCtx)
      → SameRequest c
          (record (audit_clamp model (audit_hop previous name c)) { route = some route })
  SameRequest-audits model previous name route c = ground arith

  IsClean-serve_hop :
      (model : ModelRow) (previous : String) (route : RouteDecision) (x : Exec)
      → IsAllowed route.model
      → IsClean x
      → IsClean (serve_hop deps verify_responses out model previous route x).0
  unfolding serve_hop
  IsClean-serve_hop model previous route x c h = IsClean-conclude model route _ (
      IsClean-retry_loop max_retries none route _ c (
        IsClean-ctx _ x (SameRequest-audits route.model previous model.canonical_id route x.ctx) h))

  IsClean-enter_hop :
      (a : Admission) (model : ModelRow) (previous : String) (route : RouteDecision) (x : Exec)
      → IsAllowed route.model
      → IsClean x
      → IsClean (enter_hop deps verify_responses out a model previous route x).0
  unfolding enter_hop
  IsClean-enter_hop granted model previous route x c h =
      IsClean-serve_hop model previous route _ c (IsClean-await x h)
  IsClean-enter_hop shed model previous route x c h = IsClean-await x h
  IsClean-enter_hop waiting model previous route x c h = elim (Bool-cases (out.slot_given x.tick)) [
    | inl given ↦ rw given (IsClean-serve_hop model previous route _ c (IsClean-await x h))
    | inr lost ↦ rw lost (IsClean-await x h)
  ]

  IsClean-admit_hop :
      (admitted : Bool) (model : ModelRow) (previous : String) (route : RouteDecision) (x : Exec)
      → IsAllowed route.model
      → IsClean x
      → IsClean (admit_hop deps verify_responses out admitted model previous route x).0
  unfolding admit_hop acquire_hop
  IsClean-admit_hop true model previous route x c h =
      IsClean-enter_hop _ model previous route _ c (record { same = h.same; proper = h.proper })
  IsClean-admit_hop false model previous route x c h = record {
    same = ground arith;
    proper = h.proper;
  }

  pub IsCleared-same :
      (ctx : PipelineCtx) (model : ModelRow)
      → SameRequest start ctx
      → IsCleared deps ctx model
      → IsCleared deps start model
  IsCleared-same ctx model s h = record {
    fit = rw (s.effective, s.envelope) h.fit;
    boundary = rw s.cloud_blocked h.boundary;
  }

  IsClean-take_route :
      (model : ModelRow) (last : Option RouterError) (previous : String) (r : Result RouteDecision)
      (x : Exec)
      → ((route : RouteDecision) → r ≡ ok route → IsAllowed route.model)
      → IsClean x
      → IsClean (take_route deps verify_responses out model last previous r x).0
  unfolding take_route gate_hop
  IsClean-take_route model last previous (err e) x c h = IsClean-ctx _ x (ground arith) h
  IsClean-take_route model last previous (ok route) x c h =
      IsClean-admit_hop _ model previous route _ (c route refl)
        (record { same = h.same; proper = h.proper })

  IsClean-hop :
      (model : ModelRow) (last : Option RouterError) (previous : String) (x : Exec)
      → Q model
      → IsClean x
      → IsClean (hop deps verify_responses out model last previous x).0
  unfolding hop
  IsClean-hop model last previous x q h =
      let routed = (route_for_model deps model x.ctx).0 in
      IsClean-take_route model last previous (route_for_model deps model x.ctx).1 _
        (λ route e.
          let (same, cleared, usable) = route_for_model-ok deps model x.ctx route e in
          (IsCleared-same x.ctx route.model h.same cleared, subst Q (sym same) q))
        (IsClean-await _ (IsClean-ctx routed x (route_for_model-SameRequest deps model x.ctx) h))

  -- The rows of these identifiers may be sent to.
  abbrev pub IsListing : List String → Type 0
  IsListing ids =
      (id : String) (m : ModelRow)
      → includes id ids ≡ true
      → Dict.get id start.effective.models_by_id ≡ some m
      → Q m

  pub tail-IsListing : (id : String) (ids : List String) → IsListing (id ∷ ids) → IsListing ids
  tail-IsListing id ids l j m h f = l j m (ground arith) f

  pub head-IsListing :
      (id : String) (ids : List String) (m : ModelRow)
      → IsListing (id ∷ ids)
      → Dict.get id start.effective.models_by_id ≡ some m
      → Q m
  head-IsListing id ids m l f = l id m (ground (arith, eq_refl id)) f

  IsClean-chain :
      (ids : List String) (last : Option RouterError) (previous : String) (x : Exec)
      → IsListing ids
      → IsClean x
      → IsClean (chain deps verify_responses out ids last previous x).0
  unfolding chain exhaust
  IsClean-chain [] last previous x l h = h
  IsClean-chain (id ∷ ids) last previous x l h = elim (Bool-cases (out.aborted x.tick)) [
    | inl gone ↦ rw (gone, chain) h
    | inr live ↦ elim (Option-cases (Dict.get id x.ctx.effective.models_by_id)) [
      | inl missing ↦
          rw (live, chain, missing) (IsClean-chain ids last previous x (tail-IsListing id ids l) h)
      | inr (model, found) ↦
          let after =
            IsClean-hop model last previous x
              (head-IsListing id ids model l (rw (h.same.effective) found)) h in
          elim (Hop-cases (hop deps verify_responses out model last previous x).1) [
            | inl (answer, e) ↦ rw (live, chain, found, e) after
            | inr (inl (w, e)) ↦ rw (live, chain, found, e) after
            | inr (inr (e, name, eq)) ↦
                rw (live, chain, found, eq)
                  (IsClean-chain ids e name _ (tail-IsListing id ids l) after)
          ]
    ]
  ]

  pub IsClean-run_candidates :
      (r : Result (List String)) (x : Exec)
      → ((ids : List String) → r ≡ ok ids → IsListing ids)
      → IsClean x
      → IsClean (run_candidates deps verify_responses out r x).0
  unfolding run_candidates
  IsClean-run_candidates (err e) x l h = h
  IsClean-run_candidates (ok ids) x l h = IsClean-chain ids none "" x (l ids refl) h

-- An execution starts clean.
pub IsClean-start :
    {A : Type 0} (deps : RouteDeps) (verify_responses : Bool) (out : Outside A)
    (Q : ModelRow → Type 0) (x : Exec)
    → x.sent ≡ []
    → IsClean deps verify_responses out x.ctx Q x
IsClean-start deps verify_responses out Q x nothing_sent = record {
  same = record { effective = refl; envelope = refl; cloud_envelope = refl; cloud_blocked = refl };
  proper = rw nothing_sent tt;
}
