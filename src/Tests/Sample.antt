-- ===== src/Tests/Sample.antt =====
-- A firm with a local and a cloud model, its platform, and the world around a request.
use vibe_ai_router.Common.{
  ℕ, String, Bool, true, false, Option, none, some, [], ◌∷◌, ◌||◌, str_eq, if◌then◌else◌,
}
use vibe_ai_router.Db.{
  ProviderKind, openai_compat, local, anthropic, CapabilityKey, vision, active, ModelRow,
  ProviderRow, api_key, no_auth, Sensitivity,
}
use vibe_ai_router.Gateway.Errors.{router_error, Result, ok, err, provider_unavailable, Result}
use vibe_ai_router.Gateway.Envelope.{AiRequest, plain, user}
use vibe_ai_router.Gateway.Route.{RouteDecision, PipelineCtx, RouteDeps}
use vibe_ai_router.Policy.Violation.{EffectivePolicy}
use vibe_ai_router.Ssrf.{Url, Platform, codes, same_text}
use vibe_ai_router.Resilience.Breaker.{new_breaker, default_options}
use vibe_ai_router.Resilience.Shed.{new_guard}
use vibe_ai_router.Resilience.Executor.{Outside, Exec}

abbrev can_see : CapabilityKey → Option Bool
can_see vision = some true
can_see _ = none

abbrev can_nothing : CapabilityKey → Option Bool
can_nothing _ = none

abbrev pub llama : ModelRow
llama = record {
  id = "m1";
  canonical_id = "llama";
  provider_kind = local;
  max_output = some 500;
  capabilities = can_nothing;
  capability_overrides = can_nothing;
  status = active;
}

abbrev pub gpt : ModelRow
gpt = record {
  id = "m2";
  canonical_id = "gpt";
  provider_kind = openai_compat;
  max_output = some 2000;
  capabilities = can_see;
  capability_overrides = can_nothing;
  status = active;
}

abbrev pub pixtral : ModelRow
pixtral = record gpt { id = "m3"; canonical_id = "pixtral"; provider_kind = anthropic }

abbrev pub effective : Sensitivity → Bool → EffectivePolicy
effective sensitivity needs_vision = record {
  task_class = record {
    id = "t1";
    key = "file_rename";
    sensitivity = sensitivity;
    requires = record {
      needs_tools = false;
      needs_json_schema = false;
      needs_vision = needs_vision;
      cache_ttl_s = 0;
      cache_cloud = false;
    };
    default_max_tokens = 1000;
  };
  policy = record {
    id = "p1";
    default_model_id = "m1";
    allowed_model_ids = "m2" ∷ [];
    fallback_chain = "m2" ∷ "m3" ∷ [];
    max_tokens_override = none;
    temperature_min = some 1;
    temperature_max = some 9;
    monthly_budget_cents = none;
    enabled = true;
  };
  default_model = llama;
  models_by_id = ("m1", llama) ∷ ("m2", gpt) ∷ ("m3", pixtral) ∷ [];
  role_rules = λ role. none;
  firm_settings = record {
    scrubber_mode = none;
    banned_provider_kinds = anthropic ∷ [];
    banned_model_patterns = "grok" ∷ [];
    global_temperature_max = some 7;
  };
}

abbrev pub request : String → AiRequest
request body = record {
  task_class = "file_rename";
  messages = record { role = user; content = plain body; tool_calls = [] } ∷ [];
  tools = [];
  response_format = none;
  max_tokens = some 4000;
  temperature = some 8;
  stream = false;
  model_requested = none;
  metadata = record { app = "files"; user_id = none; user_role = none };
}

abbrev pub context : Sensitivity → Option AiRequest → Bool → PipelineCtx
context sensitivity copy barred = record {
  effective = effective sensitivity false;
  envelope = request "ssn 123";
  cloud_envelope = copy;
  cloud_blocked = barred;
  cloud_block_audited = false;
  route = none;
  route_error = none;
  budget_warnings = [];
  audits = [];
}

abbrev parse_url : String → Option Url
parse_url s =
    if str_eq s "https://api.example.com"
    then some (record { protocol = "https:"; hostname = codes "api.example.com" })
    else if str_eq s "http://10.0.0.7"
    then some (record { protocol = "http:"; hostname = codes "10.0.0.7" })
    else if str_eq s "https://[::ffff:127.0.0.1]"
    then some (record { protocol = "https:"; hostname = codes "[::ffff:7f00:1]" })
    else none

abbrev pub platform : Platform
platform = record {
  parse_url = parse_url;
  is_ip = λ s. same_text s (codes "10.0.0.7") || same_text s (codes "::ffff:7f00:1");
  to_lower_case = λ s. s;
  resolve = λ s. none;
}

abbrev pub near_provider : ProviderRow
near_provider = record {
  id = "near";
  kind = local;
  label = "ollama";
  base_url = "http://10.0.0.7";
  auth_type = no_auth;
}

abbrev pub far_provider : ProviderRow
far_provider = record {
  id = "far";
  kind = openai_compat;
  label = "openai";
  base_url = "https://api.example.com";
  auth_type = api_key;
}

abbrev provider_for : ProviderKind → Option ProviderRow
provider_for local = some near_provider
provider_for openai_compat = some far_provider
provider_for _ = none

abbrev pub deps : RouteDeps
deps = record {
  pattern_test = str_eq;
  platform = platform;
  provider_for = provider_for;
  has_adapter = λ kind. true;
  get_api_key = λ id. some "key";
  ssrf_deny_private_cloud = true;
}

-- The local provider is down, and the cloud answers.
abbrev execute : ℕ → RouteDecision → AiRequest → Result String
execute t route env =
    if str_eq route.provider.id "near" then err (router_error provider_unavailable) else ok "done"

abbrev pub out : Outside String
out = record {
  now = λ t. t;
  aborted = λ t. false;
  timed_out = λ t. false;
  execute = execute;
  verify = λ answer env. record { finding = none; soft = 0 };
  slot_given = λ t. true;
  interfere = λ t s. s;
}

abbrev pub begin : PipelineCtx → Exec
begin ctx = record {
  ctx = ctx;
  shared = record { breaker = new_breaker default_options; guard = new_guard 2 1 };
  tick = 0;
  sent = [];
}
