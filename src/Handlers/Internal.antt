-- ===== src/Handlers/Internal.antt =====
-- `ExecuteInternalAgent` of handlers/agent_handlers.go, which reads its request from any JSON object, and
-- the handlers that reply with fixed values.
use tas_agent_builder.Base.{
  ℕ, ◌==◌, if◌then◌else◌, ◌&&◌, ◌||◌, not, false, Str, codes, is_nil, List, [], ◌∷◌, ◌++◌, Option,
  none, some, length, ℤ, pos, Result, ok, err, panic,
}
use mathlib.Core.Option.{get_or}
use tas_agent_builder.External.Database.{Table}
use tas_agent_builder.Floats.{Float, FloatOps}
use tas_agent_builder.Json.{
  Items, Fields, nil, cons, end, field, text, boolean, array, object, get_field, as_text,
}
use tas_agent_builder.Models.Agent.{Agent}
use tas_agent_builder.Models.Services.{Message, RouterResponse, ExecutionContextRequest}
use tas_agent_builder.Agents.Service
use tas_agent_builder.Handlers.Http.{
  Claim, Reply, go, refuse, ◌>>=◌, or_refuse, or_only, RouterService,
}
use tas_agent_builder.Handlers.Crud.{path_id, bound, user_of}
use tas_agent_builder.Handlers.Prompt.{DocumentContextService, build_system_prompt_with_context}
use tas_agent_builder.Handlers.Execute.{or_crash}

-- The ids among the items: the strings that `uuid.Parse` reads.
unfoldable pub uuids_of : (Str → Result ℕ) → Items → List ℕ
uuids_of parse nil = []
uuids_of parse (cons v items) =
    let rest = uuids_of parse items in
    elim (as_text (some v)) [
      | none ↦ rest
      | some s ↦ elim (parse s) [ ok id ↦ id ∷ rest | err e ↦ rest | panic ↦ rest ]
    ]

-- `if slice, ok := m[key].([]interface{}); ok { … }`
unfoldable pub items_at : Str → Fields → Items
unfolding get_field
items_at key m = elim (get_field key m) [ some (array items) ↦ items | _ ↦ nil ]

unfoldable pub text_at : Str → Fields → Str
unfolding get_field as_text
text_at key m = get_or (as_text (get_field key m)) []

-- The messages of a history: objects with a role and a content that are not empty.
unfoldable pub history_of : Items → List Message
unfolding text_at
history_of nil = []
history_of (cons v items) =
    let rest = history_of items in
    elim v [
      | object m ↦
          let role = text_at (codes "role") m in
          let content = text_at (codes "content") m in
          if is_nil role || is_nil content
          then rest
          else record { role = role; content = content } ∷ rest
      | _ ↦ rest
    ]

-- `strings.TrimPrefix` where `strings.HasPrefix` holds.
unfoldable pub after_prefix : Str → Str → Option Str
after_prefix [] s = some s
after_prefix (c ∷ p) [] = none
after_prefix (c ∷ p) (d ∷ s) = let rest = after_prefix p s in if c == d then rest else none

unfoldable pub token_of : Str → Str
unfolding after_prefix
token_of header = get_or (after_prefix (codes "Bearer ") header) []

unfoldable pub context_request : (Str → Result ℕ) → Str → Fields → Str → ExecutionContextRequest
unfolding uuids_of items_at text_at token_of
context_request parse header raw input = record {
  input = input;
  history = [];
  session_id = none;
  notebook_ids = uuids_of parse (items_at (codes "notebook_ids") raw);
  selected_documents = uuids_of parse (items_at (codes "selected_documents") raw);
  include_sub_notebooks = false;
  disable_knowledge = false;
  tenant_id = text_at (codes "tenant_id") raw;
  auth_token = token_of header;
}

pub record InternalReply : Type 0 where
  pub execution_id : ℕ
  pub output : Str
  pub tokens_used : ℤ
  pub cost_usd : Float
  pub model : Str
  pub provider : Str
  pub routing_strategy : Str
  pub response_time_ms : ℤ
  pub total_time_ms : ℤ
  pub context_metadata : Fields
  pub conversation_id : Str

unfoldable pub internal_messages : Str → Fields → Str → List Message
unfolding history_of items_at
internal_messages prompt raw input =
    record { role = codes "system"; content = prompt }
    ∷ (history_of (items_at (codes "history") raw)
        ++ (record { role = codes "user"; content = input } ∷ []))

unfoldable pub check_internal_input : Fields → Reply Str
unfolding text_at
check_internal_input raw =
    let input = text_at (codes "input") raw in
    if is_nil input then refuse 400 (codes "Input is required") none else go input

module _ (docs : DocumentContextService) (f : FloatOps) (ids_of_json : Str → Result (List ℕ)) where
  -- Documents are looked up only for notebooks and a tenant of the request.
  unfoldable pub internal_prompt : Agent → ExecutionContextRequest → Result (Str × Fields)
  unfolding build_system_prompt_with_context
  internal_prompt agent req =
      if not (length req.notebook_ids == 0) && not (is_nil req.tenant_id)
      then build_system_prompt_with_context docs f ids_of_json agent req
      else ok (
        agent.system_prompt,
        field (codes "knowledge_enabled") (boolean false)
            (field (codes "reason") (text (codes "no notebook_ids or tenant_id provided")) end),
      )

unfoldable pub internal_reply : ℕ → Str → ℤ → Fields → RouterResponse → Fields → InternalReply
unfolding text_at
internal_reply execution_id fresh_session took raw r metadata =
    let session_id = text_at (codes "session_id") raw in
    record {
      execution_id = execution_id;
      output = r.content;
      tokens_used = r.token_usage;
      cost_usd = r.cost_usd;
      model = r.model;
      provider = r.provider;
      routing_strategy = r.routing_strategy;
      response_time_ms = r.response_time_ms;
      total_time_ms = took;
      context_metadata = metadata;
      conversation_id = if is_nil session_id then fresh_session else session_id;
    }

module _ (agents : Table Agent) (docs : DocumentContextService) (router : RouterService)
    (f : FloatOps) (ids_of_json : Str → Result (List ℕ)) (parse_uuid : Str → Result ℕ) where
  unfoldable pub internal_of :
      agents.Store → Result ℕ → Claim → Result Fields → Reply (Agent × (Str × Fields))
  unfolding user_of
  internal_of s id user body = path_id "Invalid agent ID" id >>= λ agent_id.
      user_of user >>= λ user_id. bound body >>= λ raw.
      or_only 404 "Internal agent not found" (Service.get_internal_agent agents s agent_id)
      >>= λ agent. go (agent, (user_id, raw))

  -- The input and the prompt come before the id of the user is read.
  unfoldable pub run_internal :
      Str → ℕ → Str → ℤ → Agent × (Str × Fields) → Reply (ℕ × InternalReply)
  unfolding check_internal_input context_request internal_prompt internal_messages internal_reply
  run_internal header fresh fresh_session took (agent, (user_id, raw)) =
      check_internal_input raw >>= λ input.
      or_crash
        (internal_prompt docs f ids_of_json agent (context_request parse_uuid header raw input))
      >>= λ built. or_only 400 "Invalid user ID format" (parse_uuid user_id) >>= λ user_uuid.
          or_refuse 500 "Execution failed"
            (router.send_request agent.llm_config (internal_messages built.0 raw input) user_uuid)
          >>= λ r. go (200, internal_reply fresh fresh_session took raw r built.1)

  unfoldable pub execute_internal_agent :
      agents.Store
      → Result ℕ
      → Claim
      → Result Fields
      → Str
      → ℕ
      → Str
      → ℤ
      → Reply (ℕ × InternalReply)
  unfolding internal_of run_internal
  execute_internal_agent s id user body header fresh fresh_session took =
      internal_of s id user body >>= run_internal header fresh fresh_session took

pub record Last30Days : Type 0 where
  pub executions : ℤ
  pub success_rate : Float
  pub avg_cost_usd : Float

-- The metrics are the same for every agent, whatever its executions were.
pub record ReliabilityMetrics : Type 0 where
  pub agent_id : ℕ
  pub reliability_score : Float
  pub total_executions : ℤ
  pub successful_executions : ℤ
  pub failed_executions : ℤ
  pub avg_retry_attempts : Float
  pub fallback_usage_rate : Float
  pub avg_response_time_ms : ℤ
  pub last_30_days : Last30Days

unfoldable pub get_agent_reliability_metrics :
    (agents : Table Agent)
    → FloatOps
    → agents.Store
    → Result ℕ
    → Claim
    → Reply (ℕ × ReliabilityMetrics)
unfolding user_of
get_agent_reliability_metrics agents f s id user = path_id "Invalid agent ID" id >>= λ agent_id.
    user_of user >>= λ user_id.
    or_only 404 "Agent not found" (Service.get_agent agents s agent_id user_id) >>= λ agent. go (
      200,
      record {
        agent_id = agent_id;
        reliability_score = f.ratio 95 100;
        total_executions = pos 100;
        successful_executions = pos 95;
        failed_executions = pos 5;
        avg_retry_attempts = f.ratio 2 10;
        fallback_usage_rate = f.ratio 5 100;
        avg_response_time_ms = pos 250;
        last_30_days = record {
          executions = pos 75;
          success_rate = f.ratio 96 100;
          avg_cost_usd = f.ratio 2 1000;
        };
      },
    )
