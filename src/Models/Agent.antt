-- ===== src/Models/Agent.antt =====
-- models/agent.go: agents and their settings. A pointer that may be nil is an option; a status or
-- a type is its string; `notebook_ids` and `tags` are JSON texts, as the database keeps them.
use tas_agent_builder.Base.{ℕ, Bool, Str, Option, List, ℤ}
use tas_agent_builder.Floats.{Float}
use tas_agent_builder.Json.{Fields}
use tas_agent_builder.Models.Document.{ContextStrategy, MultiPassConfig}

pub record RetryConfig : Type 0 where
  pub max_attempts : ℤ
  pub backoff_type : Str
  pub base_delay : Str
  pub max_delay : Str
  pub retryable_errors : List Str

pub record FallbackConfig : Type 0 where
  pub enabled : Bool
  pub preferred_chain : List Str
  pub max_cost_increase : Option Float
  pub require_same_features : Bool

pub record AgentLlmConfig : Type 0 where
  pub provider : Str
  pub model : Str
  pub temperature : Option Float
  pub max_tokens : Option ℤ
  pub top_p : Option Float
  pub top_k : Option ℤ
  pub stop : List Str
  pub metadata : Option Fields
  pub optimize_for : Str
  pub required_features : List Str
  pub max_cost : Option Float
  pub retry_config : Option RetryConfig
  pub fallback_config : Option FallbackConfig

-- The constants of `DocumentScope`, and any other string that a request holds.
pub data DocumentScope : Type 0 where
  all_documents selected no_documents : DocumentScope
  other_scope : Str → DocumentScope

pub record DocumentContextConfig : Type 0 where
  pub strategy : ContextStrategy
  pub scope : DocumentScope
  pub default_documents : List ℕ
  pub include_sub_notebooks : Bool
  pub max_context_tokens : ℤ
  pub top_k : ℤ
  pub min_score : Float
  pub vector_weight : Float
  pub full_doc_weight : Float
  pub multi_pass : Option MultiPassConfig

pub record Agent : Type 0 where
  pub id : ℕ
  pub name : Str
  pub description : Str
  pub system_prompt : Str
  pub llm_config : AgentLlmConfig
  pub owner_id : Str
  pub space_id : Str
  pub tenant_id : Str
  pub status : Str
  pub space_type : Str
  pub kind : Str
  pub is_public : Bool
  pub is_template : Bool
  pub is_internal : Bool
  pub notebook_ids : Str
  pub enable_knowledge : Bool
  pub enable_memory : Bool
  pub document_context : Option DocumentContextConfig
  pub tags : Str
  pub total_executions : ℤ
  pub total_cost_usd : Float
  pub avg_response_time_ms : ℤ
  pub last_executed_at : Option ℤ
  pub created_at : ℤ
  pub updated_at : ℤ
  pub deleted_at : Option ℤ

pub record CreateAgentRequest : Type 0 where
  pub name : Str
  pub description : Str
  pub system_prompt : Str
  pub llm_config : AgentLlmConfig
  pub space_id : Str
  pub space_type : Str
  pub kind : Str
  pub is_public : Bool
  pub is_template : Bool
  pub is_internal : Bool
  pub notebook_ids : List ℕ
  pub tags : List Str
  pub enable_knowledge : Bool
  pub enable_memory : Bool
  pub document_context : Option DocumentContextConfig

-- A nil slice is `none`: the update leaves the field as it is.
pub record UpdateAgentRequest : Type 0 where
  pub name : Option Str
  pub description : Option Str
  pub system_prompt : Option Str
  pub llm_config : Option AgentLlmConfig
  pub status : Option Str
  pub kind : Option Str
  pub is_public : Option Bool
  pub is_template : Option Bool
  pub is_internal : Option Bool
  pub notebook_ids : Option (List ℕ)
  pub tags : Option (List Str)
  pub enable_knowledge : Option Bool
  pub enable_memory : Option Bool
  pub document_context : Option DocumentContextConfig

pub record AgentListFilter : Type 0 where
  pub owner_id : Option ℕ
  pub space_id : Option ℕ
  pub tenant_id : Option ℕ
  pub status : Option Str
  pub space_type : Option Str
  pub is_public : Option Bool
  pub is_template : Option Bool
  pub is_internal : Option Bool
  pub tags : List Str
  pub search : Str
  pub page : ℤ
  pub size : ℤ

pub record AgentListResponse : Type 0 where
  pub agents : List Agent
  pub total : ℤ
  pub page : ℤ
  pub size : ℤ
