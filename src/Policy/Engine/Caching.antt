-- ===== src/Policy/Engine/Caching.antt =====
-- What a resolved policy is, and that an invalidation is seen.
use text.Mathlib.TextLemmas.{cons-append}
use Prim.Native.String.{String, ◌++◌ as append}
use Prim.Native.String as Text
use vibe_ai_router.Common.{
  ℕ, ◌+◌, ◌≡◌, refl, sym, ◌∙◌, subst, ◌⊎◌, inl, inr, true, false, Option, none, some, List, [], ◌∷◌,
  ◌++◌, arith, str_eq, eq_iff, All, Bool-cases, Option-cases,
}
use vibe_ai_router.Common.Dict
use vibe_ai_router.Common.Dict.{Dict, All-put, All-get, get-put}
use vibe_ai_router.Db.{ModelRow, TaskClassRow, PolicyRow}
use vibe_ai_router.Gateway.Errors.{Result, ok, err}
use vibe_ai_router.Policy.Violation.{FirmSettings, EffectivePolicy}
use vibe_ai_router.Policy.Select.{distinct}
use vibe_ai_router.Policy.Select.Soundness.{IsKeyed, IsMap, IsResolved, get-IsKeyed}
use vibe_ai_router.Ssrf.{codes, starts_with}
use vibe_ai_router.Policy.Engine.{
  Database, Cached, PolicyEngine, firm_prefix, drop_firm, invalidate, live, by_id, of_policy, keep,
  of_task_class, fetch, cache_key, resolve, with_default,
}

put-IsKeyed : (row : ModelRow) (m : Dict ModelRow) → IsKeyed m → IsKeyed (Dict.put row.id row m)
unfolding Dict.put
put-IsKeyed row [] h = (refl, tt)
put-IsKeyed row ((k, r) ∷ m) (here, h) = ground (arith, put-IsKeyed row m h, eq_iff k row.id)

put-IsMap : (k : String) (row : ModelRow) (m : Dict ModelRow) → IsMap m → IsMap (Dict.put k row m)
unfolding Dict.put Dict.get
put-IsMap k row [] h = (refl, tt)
put-IsMap k row ((j, r) ∷ m) (fresh, h) =
    ground (arith, put-IsMap k row m h, get-put k j row m, eq_iff j k, eq_iff k j)

by_id-IsMap : (rows : List ModelRow) (m : Dict ModelRow) → IsMap m → IsMap (by_id rows m)
unfolding by_id
by_id-IsMap [] m h = h
by_id-IsMap (row ∷ rows) m h = by_id-IsMap rows (Dict.put row.id row m) (put-IsMap row.id row m h)

by_id-IsKeyed : (rows : List ModelRow) (m : Dict ModelRow) → IsKeyed m → IsKeyed (by_id rows m)
unfolding by_id
by_id-IsKeyed [] m h = h
by_id-IsKeyed (row ∷ rows) m h = by_id-IsKeyed rows (Dict.put row.id row m) (put-IsKeyed row m h)

module _ (db : Database) where
  with_default-IsResolved :
      (tc : TaskClassRow) (policy : PolicyRow) (settings : FirmSettings) (models : Dict ModelRow)
      (o : Option ModelRow) (v : EffectivePolicy)
      → IsKeyed models
      → IsMap models
      → Dict.get policy.default_model_id models ≡ o
      → with_default db tc policy settings models o ≡ ok v
      → IsResolved v
  with_default-IsResolved tc policy settings models none v k u f h = absurd (cc)
  with_default-IsResolved tc policy settings models (some d) v k u f h =
      let resolved : EffectivePolicy = record {
        task_class = tc;
        policy = policy;
        default_model = d;
        models_by_id = models;
        role_rules = db.find_roles policy.id;
        firm_settings = settings;
      } in
      let same : resolved ≡ v = ground arith in
      let good : IsResolved resolved = record {
        keyed = k;
        map = u;
        default_row = f;
        default_id = get-IsKeyed models policy.default_model_id d k f;
      } in
      subst IsResolved same good

  of_policy-IsResolved :
      (tc : TaskClassRow) (settings : FirmSettings) (o : Option PolicyRow) (v : EffectivePolicy)
      → of_policy db tc settings o ≡ ok v
      → IsResolved v
  unfolding of_policy
  of_policy-IsResolved tc settings none v h = absurd (cc)
  of_policy-IsResolved tc settings (some policy) v h = elim (Bool-cases policy.enabled) [
    | inl on ↦
        let models =
          by_id
            (db.find_models (
              distinct []
                (policy.default_model_id ∷ (policy.allowed_model_ids ++ policy.fallback_chain))))
            [] in
        let row = Dict.get policy.default_model_id models in
        let given : with_default db tc policy settings models row ≡ ok v = ground arith in
        with_default-IsResolved tc policy settings models row v (by_id-IsKeyed _ [] tt)
          (by_id-IsMap _ [] tt) refl given
    | inr off ↦ absurd (ground arith)
  ]

  of_task_class-IsResolved :
      (firm_id : String) (settings : FirmSettings) (o : Option TaskClassRow) (v : EffectivePolicy)
      → of_task_class db firm_id settings o ≡ ok v
      → IsResolved v
  unfolding of_task_class
  of_task_class-IsResolved firm_id settings none v h = absurd (cc)
  of_task_class-IsResolved firm_id settings (some tc) v h = of_policy-IsResolved tc settings _ v h

  fetch-IsResolved :
      (firm_id key : String) (settings : FirmSettings) (v : EffectivePolicy)
      → fetch db firm_id key settings ≡ ok v
      → IsResolved v
  unfolding fetch
  fetch-IsResolved firm_id key settings v h =
      of_task_class-IsResolved firm_id settings (db.find_task_class key) v h

  -- Every policy in the cache was resolved.
  abbrev pub AllResolved : PolicyEngine → Type 0
  AllResolved e = All (λ entry. IsResolved entry.1.value) e.cache

  keep-IsResolved :
      (key : String) (now : ℕ) (e : PolicyEngine) (r : Result EffectivePolicy)
      → ((v : EffectivePolicy) → r ≡ ok v → IsResolved v)
      → AllResolved e
      → AllResolved (keep db key now e r).0
  keep-IsResolved key now e (err x) f h = h
  keep-IsResolved key now e (ok v) f h =
      All-put (λ (c : Cached EffectivePolicy). IsResolved c.value) key
        (record { value = v; expires = now + e.ttl_ms }) e.cache (f v refl) h

  keep-eq :
      (key : String) (now : ℕ) (e : PolicyEngine) (r : Result EffectivePolicy)
      → (keep db key now e r).1 ≡ r
  keep-eq key now e (err x) = refl
  keep-eq key now e (ok v) = refl

  live-IsResolved :
      (now : ℕ) (o : Option (Cached EffectivePolicy)) (v : EffectivePolicy)
      → ((c : Cached EffectivePolicy) → o ≡ some c → IsResolved c.value)
      → live now o ≡ some v
      → IsResolved v
  unfolding live
  live-IsResolved now none v f h = absurd (cc)
  live-IsResolved now (some c) v f h =
      let same : c.value ≡ v = ground arith in subst IsResolved same (f c refl)

  resolve_sound :
      (firm_id key : String) (settings : FirmSettings) (now : ℕ) (e : PolicyEngine)
      → AllResolved e
      → AllResolved (resolve db firm_id key settings now e).0
        × ((v : EffectivePolicy) → (resolve db firm_id key settings now e).1 ≡ ok v → IsResolved v)
  unfolding resolve
  resolve_sound firm_id key settings now e h =
      let k = cache_key db firm_id key in
      let fetched = fetch db firm_id key settings in
      let sound = fetch-IsResolved firm_id key settings in
      elim (Option-cases (live now (Dict.get k e.cache))) [
        | inl cold ↦
            rw (cold, resolve)
              (
                keep-IsResolved k now e fetched sound h,
                λ v g. sound v (sym (keep-eq k now e fetched) ∙ g),
              )
        | inr (cached, hit) ↦
            let held : IsResolved cached =
              live-IsResolved now (Dict.get k e.cache) cached
                (λ c f.
                  All-get (λ (x : Cached EffectivePolicy). IsResolved x.value) k e.cache c h f)
                hit in
            rw (hit, resolve)
              (h, λ v g. let same : cached ≡ v = ground arith in subst IsResolved same held)
      ]

  -- A policy that is resolved has its models each once and under their own identifiers, and its
  -- default model under the identifier that the policy names, and so has every policy in the cache
  -- after; provided that every policy in the cache before had.
  pub resolve-IsResolved :
      (firm_id key : String) (settings : FirmSettings) (now : ℕ) (e : PolicyEngine)
      (v : EffectivePolicy)
      → AllResolved e
      → (resolve db firm_id key settings now e).1 ≡ ok v
      → IsResolved v × AllResolved (resolve db firm_id key settings now e).0
  resolve-IsResolved firm_id key settings now e v h given =
      let (kept, sound) = resolve_sound firm_id key settings now e h in (sound v given, kept)

starts_with-append : (s t : String) → starts_with (codes (append s t)) (codes s) ≡ true
starts_with-append Text.[] t = elim (codes (append Text.[] t)) [ [] ↦ refl | c ∷ cs ↦ refl ]
starts_with-append (Text.◌∷◌ c s) t =
    rw (cons-append c s t) (ground (arith, starts_with-append s t))

get-drop_firm :
    (firm_id key : String) (m : Dict (Cached EffectivePolicy))
    → starts_with (codes key) (codes (firm_prefix firm_id)) ≡ true
    → Dict.get key (drop_firm firm_id m) ≡ none
unfolding Dict.get drop_firm
get-drop_firm firm_id key [] h = refl
get-drop_firm firm_id key ((k, v) ∷ m) h =
    let rest = get-drop_firm firm_id key m h in
    elim (Bool-cases (starts_with (codes k) (codes (firm_prefix firm_id)))) [
      | inl mine ↦ rw mine rest
      | inr other ↦ elim (Bool-cases (str_eq k key)) [
        | inl same ↦
            let eq : k ≡ key = (eq_iff k key).0 same in
            let no : true ≡ false =
              sym h
              ∙ subst (λ z. starts_with (codes z) (codes (firm_prefix firm_id)) ≡ false) eq other in
            absurd (cc)
        | inr differ ↦ rw (other, differ) rest
      ]
    ]

-- After the caches are invalidated, for all firms or for this one, a resolution answers with what the
-- database has now.
pub resolve-invalidate :
    (db : Database) (firm_id key : String) (settings : FirmSettings) (now : ℕ)
    (whose : Option String) (e : PolicyEngine)
    → (whose ≡ none) ⊎ (whose ≡ some firm_id)
    → (resolve db firm_id key settings now (invalidate whose e)).1 ≡ fetch db firm_id key settings
unfolding resolve invalidate live
resolve-invalidate db firm_id key settings now none e h =
    unfold Dict.get in keep-eq db (cache_key db firm_id key) now _ (fetch db firm_id key settings)
resolve-invalidate db firm_id key settings now (some other) e (inl h) = absurd (cc)
resolve-invalidate db firm_id key settings now (some other) e (inr h) =
    let same : other ≡ firm_id = ground arith in
    let k = cache_key db firm_id key in
    let gone : Dict.get k (drop_firm firm_id e.cache) ≡ none =
      get-drop_firm firm_id k e.cache (starts_with-append (firm_prefix firm_id) key) in
    elim (Bool-cases (str_eq firm_id "")) [
      | inl nobody ↦
          rw (same, nobody) (unfold Dict.get in keep-eq db k now _ (fetch db firm_id key settings))
      | inr somebody ↦
          rw (same, somebody, resolve, gone) (keep-eq db k now _ (fetch db firm_id key settings))
    ]
