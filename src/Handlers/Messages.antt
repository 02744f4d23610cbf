-- ===== src/Handlers/Messages.antt =====
-- The messages and records of `ExecuteAgent` in handlers/agent_handlers.go, with the memory of the
-- session.
use tas_agent_builder.Base.{
  ℕ, if◌then◌else◌, ◌&&◌, Bool, true, Str, codes, is_nil, List, [], ◌∷◌, ◌++◌, Option, none, some,
  ℤ, pos, Result, ok, err, panic,
}
use tas_agent_builder.Floats.{Float, FloatOps}
use tas_agent_builder.Json.{Fields, end, field, set_field, text, number, boolean}
use tas_agent_builder.Models.Agent.{Agent}
use tas_agent_builder.Models.Memory.{AddMemoryRequest, GetMemoryRequest, MemoryContext}
use tas_agent_builder.Models.Services.{Message, RouterResponse, ExecutionContextRequest}
use tas_agent_builder.Executions.Service.{
  GoMap, whole, real, words, structured, conversation, StartExecutionRequest,
}
use tas_agent_builder.Handlers.Http.{Claim, Reply, go, crash, ◌>>=◌, serve}

-- memory.MemoryServiceImpl, as the handler uses it.
pub record MemoryService : Type 1 where
  pub State : Type 0
  pub get_formatted_memory : State → GetMemoryRequest → ℤ → State × Result MemoryContext
  pub add_memory : State → AddMemoryRequest → State × Result {0} Unit

pub record ExecutionReply : Type 0 where
  pub execution_id : ℕ
  pub output : Str
  pub tokens_used : ℤ
  pub cost_usd : Float
  pub model : Str
  pub provider : Str
  pub routing_strategy : Str
  pub response_time_ms : ℤ
  pub context_metadata : Fields

-- What the checks of the handler leave: the agent, the request and who asks.
pub record Asked : Type 0 where
  pub agent_id : ℕ
  pub agent : Agent
  pub user_id : Str
  pub tenant_id : Str
  pub req : ExecutionContextRequest

-- `tenantStr, _ := tenantID.(string)`
unfoldable pub text_of_claim : Claim → Str
text_of_claim Claim.missing = []
text_of_claim Claim.not_text = []
text_of_claim (Claim.claimed s) = s

-- The session whose memory is used: `has_memory` is `h.memoryService != nil`.
unfoldable pub session_of : Bool → Asked → Option Str
session_of has_memory a =
    if a.agent.enable_memory && has_memory
    then (elim a.req.session_id [ none ↦ none | some s ↦ if is_nil s then none else some s ])
    else none

-- The messages that the memory of the session adds.
unfoldable pub memory_messages : MemoryContext → List Message
memory_messages m =
    (if is_nil m.formatted_long_term
      then []
      else record { role = codes "system"; content = m.formatted_long_term } ∷ [])
    ++ (if is_nil m.formatted_short_term
        then []
        else record {
          role = codes "system";
          content = codes "Recent conversation context:" ++ (10 ∷ m.formatted_short_term);
        }
          ∷ [])

-- The history of the request stands in for a memory that was not read.
unfoldable pub messages_of : Str → Option MemoryContext → ExecutionContextRequest → List Message
unfolding memory_messages
messages_of prompt remembered req =
    record { role = codes "system"; content = prompt }
    ∷ ((elim remembered [ some m ↦ memory_messages m | none ↦ req.history ])
        ++ (record { role = codes "user"; content = req.input } ∷ []))

unfoldable pub output_data : RouterResponse → Fields → GoMap
output_data r metadata =
    (codes "content", words r.content)
    ∷ (codes "tokens_used", whole r.token_usage)
    ∷ (codes "cost_usd", real r.cost_usd)
    ∷ (codes "model", words r.model)
    ∷ (codes "provider", words r.provider)
    ∷ (codes "routing_strategy", words r.routing_strategy)
    ∷ (codes "response_time_ms", whole r.response_time_ms)
    ∷ (codes "context_metadata", structured metadata)
    ∷ []

unfoldable pub reply_of : ℕ → RouterResponse → Fields → ExecutionReply
reply_of id r metadata = record {
  execution_id = id;
  output = r.content;
  tokens_used = r.token_usage;
  cost_usd = r.cost_usd;
  model = r.model;
  provider = r.provider;
  routing_strategy = r.routing_strategy;
  response_time_ms = r.response_time_ms;
  context_metadata = metadata;
}

-- A call whose error is only logged.
abbrev pub logged {ℓ} : {A : Type ℓ} → Result A → Reply (Option A)
logged (ok a) = go (some a)
logged (err e) = go none
logged panic = crash

unfoldable pub memory_metadata : FloatOps → Option MemoryContext → Fields → Fields
memory_metadata f none metadata = metadata
memory_metadata f (some m) metadata =
    set_field (codes "memory_tokens") (number (f.of_int m.total_tokens))
      (set_field (codes "memory_enabled") (boolean true) metadata)

module _ (memory : MemoryService) where
  unfoldable pub load_memory :
      memory.State → Option Str → Asked → memory.State × Reply (Option MemoryContext)
  load_memory m none a = (m, go none)
  load_memory m (some session_id) a =
      let (m', got) =
        memory.get_formatted_memory m
          (record {
            session_id = session_id;
            agent_id = a.agent_id;
            tenant_id = a.tenant_id;
            user_id = a.user_id;
            max_tokens = pos 0;
            include_types = [];
            query = a.req.input;
          })
          (pos 4000) in
      (m', logged got)

  unfoldable pub memory_request : Str → Asked → Str → Str → Option Fields → AddMemoryRequest
  memory_request session_id a role content metadata = record {
    session_id = session_id;
    agent_id = a.agent_id;
    tenant_id = a.tenant_id;
    user_id = a.user_id;
    role = role;
    content = content;
    metadata = metadata;
  }

  unfoldable pub answer_metadata : FloatOps → RouterResponse → Fields
  answer_metadata f r = field (codes "model") (text r.model) (
      field (codes "provider") (text r.provider) (
        field (codes "tokens") (number (f.of_int r.token_usage))
          (field (codes "cost_usd") (number r.cost_usd) end)))

  unfoldable pub store_answer :
      FloatOps → Str → Asked → RouterResponse → memory.State → memory.State × Reply {0} Unit
  unfolding memory_request answer_metadata
  store_answer f session_id a r m =
      let (m', answered) =
        memory.add_memory m (
          memory_request session_id a (codes "assistant") r.content (some (answer_metadata f r))) in
      (m', logged answered >>= λ u. go tt)

  -- The input and the answer are added to the memory of the session.
  unfoldable pub store_interaction :
      FloatOps → memory.State → Option Str → Asked → RouterResponse → memory.State × Reply {0} Unit
  unfolding memory_request store_answer
  store_interaction f m none a r = (m, go tt)
  store_interaction f m (some session_id) a r =
      let (m', asked) =
        memory.add_memory m (memory_request session_id a (codes "user") a.req.input none) in
      serve m' (logged asked) (λ u. store_answer f session_id a r m')

unfoldable pub start_request : Asked → Fields → List Message → StartExecutionRequest
start_request a metadata messages = record {
  agent_id = a.agent_id;
  session_id = a.req.session_id;
  input_data =
      (codes "input", words a.req.input)
      ∷ (codes "messages", conversation messages)
      ∷ (codes "context_metadata", structured metadata)
      ∷ [];
}
