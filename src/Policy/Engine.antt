-- ===== src/Policy/Engine.antt =====
-- src/policy/engine.ts, the class `PolicyEngine`: the resolution of a policy, and the caches. The
-- answers of the database are parameters; the time is an argument, in milliseconds.
pub mod Caching
use Prim.Native.String.{◌++◌ as append}
use vibe_ai_router.Common.{
  ℕ, ◌+◌, min, String, Bool, true, false, not, Option, none, some, List, [], ◌∷◌, ◌++◌, ltb, str_eq,
  ◌or_else◌, if◌then◌else◌,
}
use vibe_ai_router.Common.Dict
use vibe_ai_router.Common.Dict.{Dict}
use vibe_ai_router.Db.{ModelRow, ProviderKind, ProviderRow, TaskClassRow, PolicyRow}
use vibe_ai_router.Gateway.Errors.{Result, ok, err, router_error, policy_blocked}
use vibe_ai_router.Gateway.Envelope.{UserRole}
use vibe_ai_router.Policy.Violation.{FirmSettings, EffectivePolicy}
use vibe_ai_router.Policy.Select.{distinct}
use vibe_ai_router.Ssrf.{codes, starts_with}

pub record Database : Type 0 where
  pub find_firm : String → Option FirmSettings
  pub find_provider : String → ProviderKind → Option ProviderRow
  pub find_task_class : String → Option TaskClassRow
  pub find_policy : String → String → Option PolicyRow
  pub find_models : List String → List ModelRow
  pub find_roles : String → UserRole → Option Bool
  pub kind_name : ProviderKind → String

pub record Cached {ℓ} (A : Type ℓ) : Type ℓ where
  pub value : A
  pub expires : ℕ

pub record PolicyEngine : Type 0 where
  pub cache : Dict (Cached EffectivePolicy)
  pub firm_cache : Dict (Cached FirmSettings)
  pub provider_cache : Dict (Cached (Option ProviderRow))
  pub ttl_ms : ℕ

abbrev pub new_engine : ℕ → PolicyEngine
new_engine ttl_ms = record { cache = []; firm_cache = []; provider_cache = []; ttl_ms = ttl_ms }

-- `${firmId}:`
abbrev pub firm_prefix : String → String
firm_prefix firm_id = append firm_id ":"

-- Deletes the entries of a firm.
unfoldable pub drop_firm : String → Dict (Cached EffectivePolicy) → Dict (Cached EffectivePolicy)
drop_firm firm_id [] = []
drop_firm firm_id ((key, v) ∷ m) =
    let rest = drop_firm firm_id m in
    if starts_with (codes key) (codes (firm_prefix firm_id)) then rest else (key, v) ∷ rest

abbrev kept_cache : Option String → Dict (Cached EffectivePolicy) → Dict (Cached EffectivePolicy)
kept_cache none m = []
kept_cache (some firm_id) m = if str_eq firm_id "" then [] else drop_firm firm_id m

unfoldable pub invalidate : Option String → PolicyEngine → PolicyEngine
invalidate firm_id e = record e {
  cache = kept_cache firm_id e.cache;
  firm_cache = [];
  provider_cache = [];
}

-- A hit that has not expired.
unfoldable pub live {ℓ} : {A : Type ℓ} → ℕ → Option (Cached A) → Option A
live now none = none
live now (some c) = if ltb now c.expires then some c.value else none

-- `new Map(rows.map((m) => [m.id, m]))`
unfoldable pub by_id : List ModelRow → Dict ModelRow → Dict ModelRow
by_id [] m = m
by_id (row ∷ rows) m = by_id rows (Dict.put row.id row m)

module _ (db : Database) where
  open db use {
    find_firm, find_provider, find_task_class, find_policy, find_models, find_roles, kind_name,
  }

  abbrev no_settings : FirmSettings
  no_settings = record {
    scrubber_mode = none;
    banned_provider_kinds = [];
    banned_model_patterns = [];
    global_temperature_max = none;
  }

  unfoldable pub firm_settings : String → ℕ → PolicyEngine → PolicyEngine × FirmSettings
  firm_settings firm_id now e = elim (live now (Dict.get firm_id e.firm_cache)) [
    | some settings ↦ (e, settings)
    | none ↦
        let settings = find_firm firm_id or_else no_settings in
        (
          record e {
            firm_cache =
                Dict.put firm_id (record { value = settings; expires = now + min e.ttl_ms 10000 })
                  e.firm_cache;
          },
          settings,
        )
  ]

  abbrev provider_key : String → ProviderKind → String
  provider_key firm_id kind = append (firm_prefix firm_id) (kind_name kind)

  unfoldable pub provider_for :
      String → ProviderKind → ℕ → PolicyEngine → PolicyEngine × Option ProviderRow
  provider_for firm_id kind now e =
      elim (live now (Dict.get (provider_key firm_id kind) e.provider_cache)) [
        | some row ↦ (e, row)
        | none ↦
            let row = find_provider firm_id kind in
            (
              record e {
                provider_cache =
                    Dict.put (provider_key firm_id kind)
                      (record { value = row; expires = now + min e.ttl_ms 10000 }) e.provider_cache;
              },
              row,
            )
      ]

  abbrev with_default :
      TaskClassRow
      → PolicyRow
      → FirmSettings
      → Dict ModelRow
      → Option ModelRow
      → Result EffectivePolicy
  with_default tc policy settings models none = err (router_error policy_blocked)
  with_default tc policy settings models (some default_model) = ok (record {
    task_class = tc;
    policy = policy;
    default_model = default_model;
    models_by_id = models;
    role_rules = find_roles policy.id;
    firm_settings = settings;
  })

  unfoldable pub of_policy : TaskClassRow → FirmSettings → Option PolicyRow → Result EffectivePolicy
  of_policy tc settings none = err (router_error policy_blocked)
  of_policy tc settings (some policy) =
      if not policy.enabled
      then err (router_error policy_blocked)
      else let models =
          by_id
            (find_models (
              distinct []
                (policy.default_model_id ∷ (policy.allowed_model_ids ++ policy.fallback_chain))))
            [] in
        with_default tc policy settings models (Dict.get policy.default_model_id models)

  unfoldable pub of_task_class :
      String → FirmSettings → Option TaskClassRow → Result EffectivePolicy
  of_task_class firm_id settings none = err (router_error policy_blocked)
  of_task_class firm_id settings (some tc) = of_policy tc settings (find_policy firm_id tc.id)

  -- What `resolve` reads from the database.
  unfoldable pub fetch : String → String → FirmSettings → Result EffectivePolicy
  fetch firm_id task_class_key settings =
      of_task_class firm_id settings (find_task_class task_class_key)

  abbrev pub cache_key : String → String → String
  cache_key firm_id task_class_key = append (firm_prefix firm_id) task_class_key

  abbrev keep :
      String → ℕ → PolicyEngine → Result EffectivePolicy → PolicyEngine × Result EffectivePolicy
  keep key now e (err x) = (e, err x)
  keep key now e (ok value) = (
    record e { cache = Dict.put key (record { value = value; expires = now + e.ttl_ms }) e.cache },
    ok value,
  )

  unfoldable pub resolve :
      String → String → FirmSettings → ℕ → PolicyEngine → PolicyEngine × Result EffectivePolicy
  resolve firm_id task_class_key settings now e =
      elim (live now (Dict.get (cache_key firm_id task_class_key) e.cache)) [
        | some value ↦ (e, ok value)
        | none ↦
            keep (cache_key firm_id task_class_key) now e (fetch firm_id task_class_key settings)
      ]
