-- ===== src/Db.antt =====
-- db/schema.ts: the rows that routing reads, with the columns that it uses. Identifiers are texts.
-- A temperature is a natural number of a unit that the reader chooses.
use mathlib.Core.Bool.{Bool, true, false}
use vibe_ai_router.Common.{ℕ, String, Option, List}

pub data ProviderKind : Type 0 where
  openai_compat anthropic local digitalocean local_ocr : ProviderKind

pub ProviderKind-discrete : Discrete ProviderKind
ProviderKind-discrete = hlevel

-- `LOCAL_TIER_KINDS` and `isLocalKind`
abbrev pub is_local_kind : ProviderKind → Bool
is_local_kind local = true
is_local_kind local_ocr = true
is_local_kind _ = false

abbrev pub kind_eq : ProviderKind → ProviderKind → Bool
kind_eq openai_compat openai_compat = true
kind_eq anthropic anthropic = true
kind_eq local local = true
kind_eq digitalocean digitalocean = true
kind_eq local_ocr local_ocr = true
kind_eq _ _ = false

pub data CapabilityKey : Type 0 where
  tools json_schema vision caching reasoning : CapabilityKey

abbrev pub key_eq : CapabilityKey → CapabilityKey → Bool
key_eq tools tools = true
key_eq json_schema json_schema = true
key_eq vision vision = true
key_eq caching caching = true
key_eq reasoning reasoning = true
key_eq _ _ = false

pub data ModelStatus : Type 0 where
  active deprecated sunset : ModelStatus

pub record ModelRow : Type 0 where
  pub id : String
  pub canonical_id : String
  pub provider_kind : ProviderKind
  pub max_output : Option ℕ
  pub capabilities : CapabilityKey → Option Bool
  pub capability_overrides : CapabilityKey → Option Bool
  pub status : ModelStatus

pub data AuthType : Type 0 where
  api_key no_auth : AuthType

pub record ProviderRow : Type 0 where
  pub id : String
  pub kind : ProviderKind
  pub label : String
  pub base_url : String
  pub auth_type : AuthType

pub data Sensitivity : Type 0 where
  local_only cloud_deidentified cloud_allowed : Sensitivity

-- `taskClasses.requires`, read by `classRequires`
pub record TaskClassRequires : Type 0 where
  pub needs_tools : Bool
  pub needs_json_schema : Bool
  pub needs_vision : Bool
  pub cache_ttl_s : ℕ
  pub cache_cloud : Bool

pub record TaskClassRow : Type 0 where
  pub id : String
  pub key : String
  pub sensitivity : Sensitivity
  pub requires : TaskClassRequires
  pub default_max_tokens : ℕ

pub record PolicyRow : Type 0 where
  pub id : String
  pub default_model_id : String
  pub allowed_model_ids : List String
  pub fallback_chain : List String
  pub max_tokens_override : Option ℕ
  pub temperature_min : Option ℕ
  pub temperature_max : Option ℕ
  pub monthly_budget_cents : Option ℕ
  pub enabled : Bool
