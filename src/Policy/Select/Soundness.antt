-- ===== src/Policy/Select/Soundness.antt =====
-- A model that is selected is fit to serve and was configured.
use text.Mathlib.TextPositions.{eq_refl}
use vibe_ai_router.Common.{
  String, ◌≡◌, refl, subst, inl, inr, Bool, true, Option, none, some, List, [], ◌∷◌, ◌++◌, arith,
  find, All, All-append, All-filter, sym, eq_iff, Option-cases, Bool-cases,
}
use vibe_ai_router.Common.Dict
use vibe_ai_router.Common.Dict.{Dict}
use vibe_ai_router.Db.{CapabilityKey, ModelRow}
use vibe_ai_router.Gateway.Errors.{ok}
use vibe_ai_router.Gateway.Envelope.{AiRequest}
use vibe_ai_router.Policy.Violation.{
  EffectivePolicy, required_capabilities, Violation, blocked, lacks, model_violation,
}
use vibe_ai_router.Policy.Violation.Checks.{IsFit, model_violation-eq-none_iff}
use vibe_ai_router.Policy.Select.{
  includes, values, is_requested, requested_match, distinct, rows_of, configured, ordered, Scan,
  served, exhausted, narrow, Selection, finish, scan, serve_default, serve_requested, select_model,
}

-- Keys are the rows' own identifiers, as `resolve` builds the map.
abbrev pub IsKeyed : Dict ModelRow → Type 0
IsKeyed m = All (λ e. e.0 ≡ e.1.id) m

abbrev pub configured_ids : EffectivePolicy → List String
configured_ids effective =
    effective.policy.default_model_id
    ∷ (effective.policy.allowed_model_ids ++ effective.policy.fallback_chain)

-- No key stands twice.
abbrev pub IsMap : Dict ModelRow → Type 0
IsMap [] = Unit
IsMap ((k, row) ∷ m) = (Dict.get k m ≡ none) × IsMap m

-- What `resolve` gives: the default is the row of its identifier.
pub record IsResolved (effective : EffectivePolicy) : Type 0 where
  pub keyed : IsKeyed effective.models_by_id
  pub map : IsMap effective.models_by_id
  pub default_row :
      Dict.get effective.policy.default_model_id effective.models_by_id
      ≡ some effective.default_model
  pub default_id : effective.default_model.id ≡ effective.policy.default_model_id

All-Unit {ℓ} : {A : Type ℓ} (xs : List A) → All (λ _. Unit {0}) xs
All-Unit [] = tt
All-Unit (x ∷ xs) = (tt, All-Unit xs)

module _ (pattern_test : String → String → Bool) (effective : EffectivePolicy) where
  abbrev pub Passes : List CapabilityKey → ModelRow → Type 0
  Passes needs m = model_violation pattern_test m effective needs ≡ none

  -- A scan that serves a model found nothing against it, and it is one of the candidates.
  scan-served {ℓ} :
      (P : ModelRow → Type ℓ) (needs : List CapabilityKey) (ms : List ModelRow)
      (u : List CapabilityKey) (m : ModelRow)
      → scan pattern_test effective needs ms u ≡ served m
      → All P ms
      → Passes needs m × P m
  unfolding scan
  scan-served P needs [] u m e h = absurd (cc)
  scan-served P needs (x ∷ ms) u m e (px, h) =
      elim (Option-cases (model_violation pattern_test x effective needs)) [
        | inl fit ↦
            let same : x ≡ m = ground arith in subst (λ y. Passes needs y × P y) same (fit, px)
        | inr (v, bad) ↦
            scan-served P needs ms (narrow (model_violation pattern_test x effective needs) u) m
              (ground arith) h
      ]

  module _ {ℓ} (P : ModelRow → Type ℓ) (needs : List CapabilityKey) where
    finish_sound :
        (missing : List CapabilityKey) (r : Scan) (s : Selection)
        → finish missing r ≡ ok s
        → ((m : ModelRow) → r ≡ served m → Passes needs m × P m)
        → Passes needs s.model × P s.model
    unfolding finish
    finish_sound missing (served m) s e h =
        let same : m ≡ s.model = ground arith in subst (λ y. Passes needs y × P y) same (h m refl)
    finish_sound missing (exhausted u) s e h = absurd (ground arith)

    serve_default_sound :
        (v : Option Violation) (s : Selection)
        → serve_default pattern_test effective needs v ≡ ok s
        → (v ≡ none → Passes needs effective.default_model)
        → P effective.default_model
        → All P (ordered effective)
        → Passes needs s.model × P s.model
    unfolding serve_default
    serve_default_sound none s e fit d h =
        let same : effective.default_model ≡ s.model = ground arith in
        subst (λ y. Passes needs y × P y) same (fit refl, d)
    serve_default_sound (some blocked) s e fit d h = absurd (cc)
    serve_default_sound (some (lacks missing)) s e fit d h =
        finish_sound missing (scan pattern_test effective needs (ordered effective) missing) s e
          (λ m e'. scan-served P needs (ordered effective) missing m e' h)

    pub serve_requested_sound :
        (o : Option ModelRow) (s : Selection)
        → serve_requested pattern_test effective needs o ≡ ok s
        → ((m : ModelRow) → o ≡ some m → P m)
        → P effective.default_model
        → All P (ordered effective)
        → Passes needs s.model × P s.model
    unfolding serve_requested
    serve_requested_sound none s e r d h = serve_default_sound _ s e (λ fit. fit) d h
    serve_requested_sound (some m) s e r d h =
        elim (Option-cases (model_violation pattern_test m effective needs)) [
          | inl fit ↦
              let same : m ≡ s.model = ground arith in
              subst (λ y. Passes needs y × P y) same (fit, r m refl)
          | inr (v, bad) ↦ serve_default_sound _ s (ground arith) (λ fit. fit) d h
        ]

  -- Whatever model is selected, it is fit to serve the request.
  pub select_model-IsFit :
      (env : AiRequest) (s : Selection)
      → select_model pattern_test effective env ≡ ok s
      → IsFit pattern_test s.model effective (required_capabilities effective env)
  unfolding select_model
  select_model-IsFit env s e =
      let needs = required_capabilities effective env in
      let sound =
        serve_requested_sound (λ _. Unit {0}) needs (requested_match effective env.model_requested)
          s e (λ m f. tt) tt (All-Unit (ordered effective)) in
      (model_violation-eq-none_iff pattern_test s.model effective needs).0 sound.0

pub get-IsKeyed :
    (m : Dict ModelRow) (id : String) (row : ModelRow)
    → IsKeyed m
    → Dict.get id m ≡ some row
    → row.id ≡ id
unfolding Dict.get
get-IsKeyed [] id row h e = ground arith
get-IsKeyed ((k, r) ∷ m) id row (here, h) e = ground (arith, eq_iff k id, get-IsKeyed m id row h)

rows_of-All {ℓ} :
    (P : String → Type ℓ) (m : Dict ModelRow) (ids : List String)
    → IsKeyed m
    → All P ids
    → All (λ row. P row.id) (rows_of m ids)
unfolding rows_of
rows_of-All P m [] k h = tt
rows_of-All P m (id ∷ ids) k (hx, hs) = elim (Option-cases (Dict.get id m)) [
  | inl gone ↦ rw (gone, rows_of) (rows_of-All P m ids k hs)
  | inr (row, found) ↦
      rw (found, rows_of)
        (subst P (sym (get-IsKeyed m id row k found)) hx, rows_of-All P m ids k hs)
]

distinct-All {ℓ} :
    (P : String → Type ℓ) (seen ids : List String) → All P ids → All P (distinct seen ids)
unfolding distinct
distinct-All P seen [] h = tt
distinct-All P seen (id ∷ ids) (hx, hs) = elim (Bool-cases (includes id seen)) [
  | inl old ↦ rw old (distinct-All P (id ∷ seen) ids hs)
  | inr new ↦ rw new (hx, distinct-All P (id ∷ seen) ids hs)
]

ordered-All {ℓ} :
    (P : String → Type ℓ) (effective : EffectivePolicy)
    → IsKeyed effective.models_by_id
    → All P (effective.policy.allowed_model_ids ++ effective.policy.fallback_chain)
    → All (λ row. P row.id) (ordered effective)
unfolding ordered configured
ordered-All P effective k h =
    let rows =
      rows_of-All P effective.models_by_id _ k (All-filter P _ _ (distinct-All P [] _ h)) in
    All-append (λ (row : ModelRow). P row.id) _ _ (All-filter _ _ _ rows) (All-filter _ _ _ rows)

-- Every list includes what is in it.
includes-All :
    (xs ys : List String)
    → ((x : String) → includes x xs ≡ true → includes x ys ≡ true)
    → All (λ x. includes x ys ≡ true) xs
includes-All [] ys h = tt
includes-All (x ∷ xs) ys h =
    (h x (ground (arith, eq_iff x x)), includes-All xs ys (λ z e. h z (ground arith)))

includes-append :
    (x : String) (xs ys : List String) → includes x xs ≡ true → includes x (xs ++ ys) ≡ true
includes-append x [] ys h = cc
includes-append x (y ∷ xs) ys h = ground (arith, includes-append x xs ys)

find-holds {ℓ} : {A : Type ℓ} (p : A → Bool) (xs : List A) (a : A) → find p xs ≡ some a → p a ≡ true
find-holds p [] a e = ground arith
find-holds p (x ∷ xs) a e = ground (arith, find-holds p xs a)

requested_match-includes :
    (effective : EffectivePolicy) (o : Option String) (m : ModelRow)
    → requested_match effective o ≡ some m
    → includes m.id (effective.policy.default_model_id ∷ effective.policy.allowed_model_ids) ≡ true
unfolding requested_match
requested_match-includes effective none m e = ground arith
requested_match-includes effective (some name) m e =
    ground
      (arith, find-holds (is_requested name effective.policy) (values effective.models_by_id) m)

-- Whatever model is selected, it is the policy's default, in its allowed set or in its fallback
-- chain; provided that the policy was resolved.
pub select_model-configured :
    (pattern_test : String → String → Bool) (effective : EffectivePolicy) (env : AiRequest)
    (s : Selection)
    → IsResolved effective
    → select_model pattern_test effective env ≡ ok s
    → includes s.model.id (configured_ids effective) ≡ true
unfolding select_model
select_model-configured pattern_test effective env s r e =
    let ids = effective.policy.allowed_model_ids ++ effective.policy.fallback_chain in
    (serve_requested_sound pattern_test effective
      (λ m. includes m.id (configured_ids effective) ≡ true) (required_capabilities effective env)
      (requested_match effective env.model_requested) s e
      (λ m f.
        includes-append m.id
          (effective.policy.default_model_id ∷ effective.policy.allowed_model_ids)
          effective.policy.fallback_chain
          (requested_match-includes effective env.model_requested m f))
      (rw (r.default_id, eq_refl effective.policy.default_model_id))
      (ordered-All (λ id. includes id (configured_ids effective) ≡ true) effective r.keyed
        (includes-All ids (configured_ids effective) (λ x h. ground arith)))).1
