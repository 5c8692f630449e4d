-- ===== src/Catalog.antt =====
-- src/catalog/service.ts: what a model can do.
use vibe_ai_router.Common.{Bool, true, false, some, ◌or_else◌, if◌then◌else◌}
use vibe_ai_router.Db.{ProviderKind, local_ocr, CapabilityKey, tools, json_schema, ModelRow}

-- `KIND_CAPABILITY_CEILING[kind]?.[key] === false`
unfoldable pub is_capped : ProviderKind → CapabilityKey → Bool
is_capped local_ocr json_schema = true
is_capped local_ocr tools = true
is_capped _ _ = false

unfoldable pub effective_capabilities : ModelRow → CapabilityKey → Bool
effective_capabilities model key =
    model.capability_overrides key
    or_else (if is_capped model.provider_kind key then some false else model.capabilities key)
    or_else false
