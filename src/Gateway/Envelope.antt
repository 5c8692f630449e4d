-- ===== src/Gateway/Envelope.antt =====
-- src/gateway/envelope.ts: the request that policy, scrubbing and execution work on.
use vibe_ai_router.Common.{ℕ, String, Bool, Option, List}
use vibe_ai_router.Gateway.Json.{Schema, SchemaValidationMode}

pub data Role : Type 0 where
  system user assistant tool : Role

pub data ContentPart : Type 0 where
  text image : String → ContentPart

-- `content: string | ContentPart[]`
pub data Content : Type 0 where
  plain : String → Content
  parts : List ContentPart → Content

pub record ToolCall : Type 0 where
  pub id : String
  pub name : String
  pub arguments : String

pub record AiMessage : Type 0 where
  pub role : Role
  pub content : Content
  pub tool_calls : List ToolCall

pub data ResponseFormat : Type 0 where
  text_format json_object : ResponseFormat
  -- The name, the schema, `strict` and the router's `validation`.
  json_schema_format : String → Schema → Option Bool → Option SchemaValidationMode → ResponseFormat

pub data UserRole : Type 0 where
  admin partner staff : UserRole

pub record AiRequestMetadata : Type 0 where
  pub app : String
  pub user_id : Option String
  pub user_role : Option UserRole

pub record AiRequest : Type 0 where
  pub task_class : String
  pub messages : List AiMessage
  pub tools : List String
  pub response_format : Option ResponseFormat
  pub max_tokens : Option ℕ
  pub temperature : Option ℕ
  pub stream : Bool
  pub model_requested : Option String
  pub metadata : AiRequestMetadata

pub data FinishReason : Type 0 where
  stop length_reached tool_calls_made content_filter error : FinishReason

-- `AIResponse`, without the usage and what tells who served it.
pub record AiResponse : Type 0 where
  pub content : String
  pub tool_calls : List ToolCall
  pub finish_reason : FinishReason

-- Of a tool call's start and of the end, what their readers use.
pub data StreamChunk : Type 0 where
  text_delta : String → StreamChunk
  tool_call_start : ℕ → String → String → StreamChunk
  tool_call_delta : ℕ → String → StreamChunk
  finish : FinishReason → StreamChunk
