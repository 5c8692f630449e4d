-- ===== src/Tests/Engine.antt =====
-- The resolution of a policy.
use vibe_ai_router.Common.{◌≡◌, refl, none, some, [], ◌∷◌, str_eq, inr, true, if◌then◌else◌}
use vibe_ai_router.Common.Dict
use vibe_ai_router.Db.{cloud_allowed}
use vibe_ai_router.Policy.Violation.{EffectivePolicy}
use vibe_ai_router.Policy.Select.{distinct}
use vibe_ai_router.Policy.Select.Soundness.{IsResolved}
use vibe_ai_router.Policy.Engine.{
  Database, PolicyEngine, new_engine, live, by_id, of_policy, of_task_class, fetch, resolve,
  invalidate,
}
use vibe_ai_router.Policy.Engine.Caching.{AllResolved, resolve-IsResolved, resolve-invalidate}
use vibe_ai_router.Tests.Sample.{llama, gpt, pixtral, effective}

abbrev sample : EffectivePolicy
sample = effective cloud_allowed true

abbrev db : Database
db = record {
  find_firm = λ firm_id. some sample.firm_settings;
  find_provider = λ firm_id kind. none;
  find_task_class = λ key. if str_eq key "file_rename" then some sample.task_class else none;
  find_policy = λ firm_id class_id. some sample.policy;
  find_models = λ ids. llama ∷ gpt ∷ pixtral ∷ [];
  find_roles = λ policy_id role. none;
  kind_name = λ kind. "";
}

resolve-IsResolved_example :
    IsResolved sample
    × AllResolved db (resolve db "f1" "file_rename" sample.firm_settings 0 (new_engine 30000)).0
unfolding resolve live fetch of_task_class of_policy by_id distinct Dict.get Dict.put
resolve-IsResolved_example =
    resolve-IsResolved db "f1" "file_rename" sample.firm_settings 0 (new_engine 30000) sample tt
      refl

abbrev warm : PolicyEngine
warm = (resolve db "f1" "file_rename" sample.firm_settings 0 (new_engine 30000)).0

resolve-invalidate_example :
    (resolve db "f1" "file_rename" sample.firm_settings 10 (invalidate (some "f1") warm)).1
    ≡ fetch db "f1" "file_rename" sample.firm_settings
resolve-invalidate_example =
    resolve-invalidate db "f1" "file_rename" sample.firm_settings 10 (some "f1") warm (inr refl)
