-- ===== src/Models/Execution.antt =====
-- models/execution.go: the executions of agents. JSON columns are their texts.
use tas_agent_builder.Base.{ℕ, Bool, Str, List, Option, ℤ}
use tas_agent_builder.Floats.{Float}
use tas_agent_builder.Json.{Fields}

-- The constants of `ExecutionStatus`, and any other string.
pub data ExecutionStatus : Type 0 where
  queued running completed failed timeout cancelled : ExecutionStatus
  other_status : Str → ExecutionStatus

pub record ExecutionStep : Type 0 where
  pub step : Str
  pub started_at : ℤ
  pub completed_at : Option ℤ
  pub status : ExecutionStatus
  pub output : Str
  pub error : Str
  pub metadata : Option Fields

pub record RouterResponse : Type 0 where
  pub provider : Str
  pub model : Str
  pub routing_strategy : Str
  pub token_usage : ℤ
  pub cost_usd : Float
  pub response_time_ms : ℤ
  pub metadata : Option Fields

pub record AgentExecution : Type 0 where
  pub id : ℕ
  pub agent_id : ℕ
  pub user_id : ℕ
  pub session_id : Option Str
  pub input_data : Str
  pub output_data : Option Str
  pub status : ExecutionStatus
  pub router_response : Option RouterResponse
  pub execution_steps : List ExecutionStep
  pub token_usage : Option ℤ
  pub cost_usd : Option Float
  pub total_duration_ms : Option ℤ
  pub retry_attempts : ℤ
  pub fallback_used : Bool
  pub failed_providers : Str
  pub total_retry_time_ms : ℤ
  pub provider_latency_ms : Option ℤ
  pub routing_reason : Str
  pub actual_cost_usd : Option Float
  pub estimated_cost_usd : Option Float
  pub error_message : Option Str
  pub error_details : Option Str
  pub started_at : Option ℤ
  pub completed_at : Option ℤ
  pub created_at : ℤ
  pub updated_at : ℤ
  pub deleted_at : Option ℤ

pub record ExecutionListFilter : Type 0 where
  pub agent_id : Option ℕ
  pub user_id : Option ℕ
  pub session_id : Option Str
  pub status : Option ExecutionStatus
  pub start_date : Option ℤ
  pub end_date : Option ℤ
  pub with_retries : Option Bool
  pub with_fallback : Option Bool
  pub min_reliability : Option Float
  pub page : ℤ
  pub size : ℤ

pub record ExecutionListResponse : Type 0 where
  pub executions : List AgentExecution
  pub total : ℤ
  pub page : ℤ
  pub size : ℤ
