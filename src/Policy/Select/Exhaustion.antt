-- ===== src/Policy/Select/Exhaustion.antt =====
-- When no model is selected, and what an upgrade passes over.
use vibe_ai_router.Common.{
  String, ◌≡◌, ◌≢◌, refl, inl, inr, Bool, true, false, not, Option, none, some, List, [], ◌∷◌, ◌++◌,
  arith, filter, All, All-weaken, Option-cases,
}
use vibe_ai_router.Db.{CapabilityKey, ModelRow}
use vibe_ai_router.Gateway.Errors.{RouterError, ok, err, policy_blocked}
use vibe_ai_router.Gateway.Envelope.{AiRequest}
use vibe_ai_router.Policy.Violation.{
  EffectivePolicy, required_capabilities, Violation, blocked, lacks, model_violation,
}
use vibe_ai_router.Policy.Violation.Checks.{IsFit, model_violation-eq-none_iff}
use vibe_ai_router.Policy.Select.{
  requested_match, configured, is_local, ordered, Scan, served, exhausted, narrow, Selection,
  finish, scan, serve_default, serve_requested, select_model,
}

All-of_append {ℓ κ} :
    {A : Type ℓ} (P : A → Type κ) (xs ys : List A) → All P (xs ++ ys) → All P xs × All P ys
All-of_append P [] ys h = (tt, h)
All-of_append P (x ∷ xs) ys (hx, h) = let (hs, hy) = All-of_append P xs ys h in ((hx, hs), hy)

-- What holds of both halves of a partition holds of the whole.
All-of_filters {ℓ κ} :
    {A : Type ℓ} (P : A → Type κ) (p : A → Bool) (xs : List A)
    → All P (filter p xs)
    → All P (filter (λ x. not (p x)) xs)
    → All P xs
All-of_filters P p [] h k = tt
All-of_filters P p (x ∷ xs) h k = ground (arith, All-of_filters P p xs)

All-filter_holds {ℓ} :
    {A : Type ℓ} (p : A → Bool) (xs : List A) → All (λ x. p x ≡ true) (filter p xs)
All-filter_holds p [] = tt
All-filter_holds p (x ∷ xs) = ground (arith, All-filter_holds p xs)

module _ (pattern_test : String → String → Bool) (effective : EffectivePolicy)
    (needs : List CapabilityKey) where
  abbrev Fails : ModelRow → Type 0
  Fails m = model_violation pattern_test m effective needs ≢ none

  scan-exhausted :
      (ms : List ModelRow) (u u' : List CapabilityKey)
      → scan pattern_test effective needs ms u ≡ exhausted u'
      → All Fails ms
  unfolding scan
  scan-exhausted [] u u' e = tt
  scan-exhausted (m ∷ ms) u u' e =
      elim (Option-cases (model_violation pattern_test m effective needs)) [
        | inl fit ↦ absurd (ground arith)
        | inr (v, bad) ↦ (
          λ fit. cc,
          scan-exhausted ms (narrow (model_violation pattern_test m effective needs) u) u'
              (ground arith),
        )
      ]

  -- A cloud model is served only after every local candidate has failed.
  scan-passes_over :
      (xs ys : List ModelRow) (u : List CapabilityKey) (m : ModelRow)
      → All (λ x. is_local x ≡ true) xs
      → scan pattern_test effective needs (xs ++ ys) u ≡ served m
      → is_local m ≡ false
      → All Fails xs
  unfolding scan
  scan-passes_over [] ys u m h e far = tt
  scan-passes_over (x ∷ xs) ys u m (hx, h) e far =
      elim (Option-cases (model_violation pattern_test x effective needs)) [
        | inl fit ↦ let same : x ≡ m = ground arith in absurd (cc)
        | inr (v, bad) ↦ (
          λ fit. cc,
          scan-passes_over xs ys (narrow (model_violation pattern_test x effective needs) u) m h
              (ground arith) far,
        )
      ]

  finish-err :
      (missing : List CapabilityKey) (r : Scan) (e : RouterError)
      → finish missing r ≡ err e
      → (u : List CapabilityKey) × (r ≡ exhausted u)
  unfolding finish
  finish-err missing (served m) e h = absurd (cc)
  finish-err missing (exhausted u) e h = (u, refl)

  serve_default-err :
      (v : Option Violation) (e : RouterError)
      → serve_default pattern_test effective needs v ≡ err e
      → (v ≢ none) × (e.code ≢ policy_blocked → All Fails (ordered effective))
  unfolding serve_default
  serve_default-err none e h = absurd (cc)
  serve_default-err (some blocked) e h =
      (λ x. cc, λ other. let same : e.code ≡ policy_blocked = ground arith in absurd (other same))
  serve_default-err (some (lacks missing)) e h =
      let (u, done) = finish-err missing _ e h in
      (λ x. cc, λ other. scan-exhausted (ordered effective) missing u done)

  serve_requested-err :
      (o : Option ModelRow) (e : RouterError)
      → serve_requested pattern_test effective needs o ≡ err e
      → Fails effective.default_model × (e.code ≢ policy_blocked → All Fails (ordered effective))
  unfolding serve_requested
  serve_requested-err none e h = serve_default-err _ e h
  serve_requested-err (some m) e h =
      elim (Option-cases (model_violation pattern_test m effective needs)) [
        | inl fit ↦ absurd (ground arith)
        | inr (v, bad) ↦ serve_default-err _ e (ground arith)
      ]

  finish-ok :
      (missing : List CapabilityKey) (r : Scan) (s : Selection)
      → finish missing r ≡ ok s
      → r ≡ served s.model
  unfolding finish
  finish-ok missing (served m) s e = ground arith
  finish-ok missing (exhausted u) s e = absurd (ground arith)

  serve_default-upgrade :
      (v : Option Violation) (s : Selection)
      → serve_default pattern_test effective needs v ≡ ok s
      → s.upgraded ≢ none
      → is_local s.model ≡ false
      → All Fails (filter is_local (configured effective))
  unfolding serve_default ordered
  serve_default-upgrade none s e up far =
      let same : s.upgraded ≡ none = ground arith in absurd (up same)
  serve_default-upgrade (some blocked) s e up far = absurd (cc)
  serve_default-upgrade (some (lacks missing)) s e up far =
      scan-passes_over (filter is_local (configured effective))
        (filter (λ m. not (is_local m)) (configured effective)) missing s.model
        (All-filter_holds is_local (configured effective)) (finish-ok missing _ s e) far

  serve_requested-upgrade :
      (o : Option ModelRow) (s : Selection)
      → serve_requested pattern_test effective needs o ≡ ok s
      → s.upgraded ≢ none
      → is_local s.model ≡ false
      → All Fails (filter is_local (configured effective))
  unfolding serve_requested
  serve_requested-upgrade none s e up far = serve_default-upgrade _ s e up far
  serve_requested-upgrade (some m) s e up far =
      elim (Option-cases (model_violation pattern_test m effective needs)) [
        | inl fit ↦ let same : s.upgraded ≡ none = ground arith in absurd (up same)
        | inr (v, bad) ↦
            serve_default-upgrade
              (model_violation pattern_test effective.default_model effective needs) s
              (ground arith) up far
      ]

  unfit : (m : ModelRow) → Fails m → ¬ IsFit pattern_test m effective needs
  unfit m fails fit = fails ((model_violation-eq-none_iff pattern_test m effective needs).1 fit)

module _ (pattern_test : String → String → Bool) (effective : EffectivePolicy)
    (env : AiRequest) where
  abbrev pub Serves : ModelRow → Type 0
  Serves m = IsFit pattern_test m effective (required_capabilities effective env)

  -- If no model is selected, the default cannot serve the request.
  pub select_model-err :
      (e : RouterError)
      → select_model pattern_test effective env ≡ err e
      → ¬ Serves effective.default_model
  unfolding select_model
  select_model-err e h =
      let needs = required_capabilities effective env in
      unfit pattern_test effective needs effective.default_model
        (serve_requested-err pattern_test effective needs
          (requested_match effective env.model_requested) e h).0

  -- If no model is selected, by an error other than `policy_blocked`, no configured candidate can
  -- serve the request.
  pub select_model-err-All :
      (e : RouterError)
      → select_model pattern_test effective env ≡ err e
      → e.code ≢ policy_blocked
      → All (λ m. ¬ Serves m) (configured effective)
  unfolding select_model ordered
  select_model-err-All e h other =
      let needs = required_capabilities effective env in
      let (bad, all_bad) =
        serve_requested-err pattern_test effective needs
          (requested_match effective env.model_requested) e h in
      let (near, far) =
        All-of_append _ (filter is_local (configured effective)) _ (all_bad other) in
      All-weaken _ (configured effective) (unfit pattern_test effective needs)
        (All-of_filters _ is_local (configured effective) near far)

  -- An upgrade to a model outside the local tier is made only if no configured candidate of the
  -- local tier can serve the request.
  pub select_model-upgrade :
      (s : Selection)
      → select_model pattern_test effective env ≡ ok s
      → s.upgraded ≢ none
      → is_local s.model ≡ false
      → All (λ m. ¬ Serves m) (filter is_local (configured effective))
  unfolding select_model
  select_model-upgrade s e up far =
      let needs = required_capabilities effective env in
      All-weaken _ (filter is_local (configured effective)) (unfit pattern_test effective needs) (
        serve_requested-upgrade pattern_test effective needs
          (requested_match effective env.model_requested) s e up far)
