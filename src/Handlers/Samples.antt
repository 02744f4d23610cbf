-- ===== src/Handlers/Samples.antt =====
-- Agents and services at which the theorems about handlers/agent_handlers.go are instantiated.
use tas_agent_builder.Base.{
  ℕ, refl, true, false, Str, codes, [], ◌∷◌, none, some, pos, Result, ok, err,
}
use tas_agent_builder.External.Database.{Table}
use tas_agent_builder.External.Samples.{sample_redis, sample_uuid}
use tas_agent_builder.External.Tables.{sample_table}
use tas_agent_builder.Json.{end}
use tas_agent_builder.Memory.Samples.{
  sample_floats, sample_printer, sample_lake, small, talk_json, desk_json, time_json,
}
use tas_agent_builder.Models.Agent.{Agent, AgentLlmConfig}
use tas_agent_builder.Models.Execution.{AgentExecution}
use tas_agent_builder.Models.Services.{RouterResponse, ExecutionContextRequest}
use tas_agent_builder.Handlers.Http.{RouterService}
use tas_agent_builder.Handlers.Prompt.{DocumentContextService}
use tas_agent_builder.Handlers.Messages.{MemoryService}
use tas_agent_builder.Handlers.Services.{memory_service}

abbrev pub llm : AgentLlmConfig
llm = record {
  provider = codes "openai";
  model = codes "gpt-4o";
  temperature = none;
  max_tokens = none;
  top_p = none;
  top_k = none;
  stop = [];
  metadata = none;
  optimize_for = [];
  required_features = [];
  max_cost = none;
  retry_config = some (record {
    max_attempts = pos 5;
    backoff_type = codes "linear";
    base_delay = codes "1s";
    max_delay = [];
    retryable_errors = [];
  });
  fallback_config = none;
}

abbrev pub helper : Agent
helper = record {
  id = 1;
  name = codes "helper";
  description = [];
  system_prompt = codes "Help.";
  llm_config = llm;
  owner_id = codes "ann";
  space_id = codes "space";
  tenant_id = codes "t";
  status = codes "draft";
  space_type = codes "personal";
  kind = codes "producer";
  is_public = false;
  is_template = false;
  is_internal = true;
  notebook_ids = codes "[1]";
  enable_knowledge = true;
  enable_memory = true;
  document_context = none;
  tags = codes "[]";
  total_executions = pos 0;
  total_cost_usd = record { bits = 0 };
  avg_response_time_ms = pos 0;
  last_executed_at = none;
  created_at = pos 1;
  updated_at = pos 1;
  deleted_at = none;
}

abbrev pub answer : RouterResponse
answer = record {
  content = codes "hello";
  provider = codes "openai";
  model = codes "gpt-4o";
  routing_strategy = [];
  token_usage = pos 3;
  cost_usd = record { bits = 0 };
  response_time_ms = pos 1;
  metadata = end;
}

abbrev pub router : RouterService
router = record {
  validate_config = λ config. ok tt;
  get_available_providers = ok [];
  send_request = λ config messages user_id. ok answer;
}

abbrev pub agents : Table Agent
agents = sample_table (λ (a : Agent). a.id)

abbrev pub executions : Table AgentExecution
executions = sample_table (λ (e : AgentExecution). e.id)

abbrev pub one : agents.Store
one = (helper ∷ [], refl)

abbrev pub none_yet : executions.Store
none_yet = ([], refl)

abbrev pub docs : DocumentContextService
docs = record {
  retrieve_vector_context = λ req. ok none;
  retrieve_full_documents = λ req. ok none;
  retrieve_hybrid_context = λ query req v w. ok none;
  format_context_for_injection = λ result limit. err [];
}

abbrev pub memory : MemoryService
memory =
    memory_service sample_redis talk_json desk_json time_json sample_lake 0 sample_uuid
      sample_floats sample_printer small (pos 5) (codes "fresh") (codes "unused")

abbrev pub parse : Str → Result ℕ
parse s = ok 3

abbrev pub question : ExecutionContextRequest
question = record {
  input = codes "What?";
  history = [];
  session_id = some (codes "s1");
  notebook_ids = [];
  selected_documents = [];
  include_sub_notebooks = false;
  disable_knowledge = false;
  tenant_id = [];
  auth_token = [];
}
