-- ===== src/Policy/Violation/Checks.antt =====
-- What it means that a model passes the checks.
use vibe_ai_router.Common.{
  String, ◌≡◌, ◌≢◌, refl, ◌↔◌, ◌⊎◌, Bool, true, false, none, List, [], ◌∷◌, arith, any, All,
}
use vibe_ai_router.Db.{is_local_kind, kind_eq, CapabilityKey, sunset, ModelRow, local_only}
use vibe_ai_router.Catalog.{effective_capabilities}
use vibe_ai_router.Policy.Violation.{
  FirmSettings, EffectivePolicy, missing_capabilities, lacking, model_banned, model_violation,
}

any-eq-false_iff {ℓ} :
    {A : Type ℓ} (p : A → Bool) (xs : List A) → (any p xs ≡ false) ↔ All (λ x. p x ≡ false) xs
any-eq-false_iff p [] = (λ h. tt, λ h. refl)
any-eq-false_iff p (x ∷ xs) = ground (arith, any-eq-false_iff p xs)

lacking-eq-none_iff :
    (model : ModelRow) (needs : List CapabilityKey)
    → (lacking (missing_capabilities model needs) ≡ none)
      ↔ All (λ n. effective_capabilities model n ≡ true) needs
unfolding missing_capabilities
lacking-eq-none_iff model [] = (λ h. tt, λ h. refl)
lacking-eq-none_iff model (n ∷ needs) = ground (arith, lacking-eq-none_iff model needs)

module _ (pattern_test : String → String → Bool) where
  pub record IsPermitted (model : ModelRow) (settings : FirmSettings) : Type 0 where
    pub kinds : All (λ k. kind_eq model.provider_kind k ≡ false) settings.banned_provider_kinds
    pub patterns :
        All (λ p. pattern_test p model.canonical_id ≡ false) settings.banned_model_patterns

  -- A model that may serve: it is not sunset, stays in the local tier for local-only work, is not
  -- banned by its kind or its name, and has every capability that is needed.
  pub record IsFit (model : ModelRow) (effective : EffectivePolicy) (needs : List CapabilityKey)
      : Type 0 where
    pub current : model.status ≢ sunset
    pub stays_local :
        (effective.task_class.sensitivity ≢ local_only) ⊎ (is_local_kind model.provider_kind ≡ true)
    pub permitted : IsPermitted model effective.firm_settings
    pub capable : All (λ n. effective_capabilities model n ≡ true) needs

  model_banned_iff :
      (model : ModelRow) (settings : FirmSettings)
      → (model_banned pattern_test model settings ≡ false) ↔ IsPermitted model settings
  unfolding model_banned
  model_banned_iff model settings = ground (
    arith,
    any-eq-false_iff (kind_eq model.provider_kind) settings.banned_provider_kinds,
    any-eq-false_iff (λ p. pattern_test p model.canonical_id) settings.banned_model_patterns,
  )

  -- The checks find nothing against a model exactly if it is fit to serve.
  pub model_violation-eq-none_iff :
      (model : ModelRow) (effective : EffectivePolicy) (needs : List CapabilityKey)
      → (model_violation pattern_test model effective needs ≡ none) ↔ IsFit model effective needs
  unfolding model_violation
  model_violation-eq-none_iff model effective needs =
      ground
        (arith, model_banned_iff model effective.firm_settings, lacking-eq-none_iff model needs)
