-- ===== src/Models/Services.antt =====
-- services/agent_service.go: the messages to the router and what it returns, and the request of
-- models/document_context.go that leads to them.
use tas_agent_builder.Base.{ℕ, Bool, Str, List, Option, ℤ}
use tas_agent_builder.Floats.{Float}
use tas_agent_builder.Json.{Fields}

pub record Message : Type 0 where
  pub role : Str
  pub content : Str

pub record RouterResponse : Type 0 where
  pub content : Str
  pub provider : Str
  pub model : Str
  pub routing_strategy : Str
  pub token_usage : ℤ
  pub cost_usd : Float
  pub response_time_ms : ℤ
  pub metadata : Fields

pub record Provider : Type 0 where
  pub name : Str
  pub display_name : Str
  pub models : List Str
  pub features : List Str

pub record Model : Type 0 where
  pub name : Str
  pub display_name : Str
  pub provider : Str
  pub max_tokens : ℤ
  pub cost_per_1000 : Float
  pub features : List Str

-- models.ExecutionContextRequest; its history has the fields of `Message` too.
pub record ExecutionContextRequest : Type 0 where
  pub input : Str
  pub history : List Message
  pub session_id : Option Str
  pub notebook_ids : List ℕ
  pub selected_documents : List ℕ
  pub include_sub_notebooks : Bool
  pub disable_knowledge : Bool
  pub tenant_id : Str
  pub auth_token : Str
