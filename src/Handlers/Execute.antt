-- ===== src/Handlers/Execute.antt =====
-- `ExecuteAgent` of handlers/agent_handlers.go: the prompt, the memory of the session, the record of the
-- execution, the request to the router and what is stored of its answer. `took` is the duration.
use tas_agent_builder.Base.{
  ℕ, if◌then◌else◌, Bool, Str, codes, is_nil, List, Option, none, some, ℤ, Result, ok, err, panic,
}
use tas_agent_builder.External.Database.{Table}
use tas_agent_builder.Floats.{FloatOps}
use tas_agent_builder.Json.{Fields}
use tas_agent_builder.Models.Agent.{Agent}
use tas_agent_builder.Models.Execution.{ExecutionStatus, completed, failed, AgentExecution}
use tas_agent_builder.Models.Memory.{MemoryContext}
use tas_agent_builder.Models.Services.{Message, RouterResponse, ExecutionContextRequest}
use tas_agent_builder.Agents.Service
use tas_agent_builder.Executions.Service.{GoMap, start_execution, complete_execution}
use tas_agent_builder.Handlers.Http.{
  Claim, Reply, go, refuse, crash, ◌>>=◌, or_only, serve, RouterService,
}
use tas_agent_builder.Handlers.Crud.{path_id, bound, user_of}
use tas_agent_builder.Handlers.Prompt.{DocumentContextService, build_system_prompt_with_context}
use tas_agent_builder.Handlers.Messages.{
  MemoryService, ExecutionReply, Asked, text_of_claim, session_of, messages_of, output_data,
  reply_of, logged, memory_metadata, load_memory, store_interaction, start_request,
}

unfoldable pub check_input : ExecutionContextRequest → Reply {0} Unit
check_input req = if is_nil req.input then refuse 400 (codes "Input is required") none else go tt

unfoldable pub check_execute :
    (agents : Table Agent)
    → agents.Store
    → Result ℕ
    → Claim
    → Claim
    → Result ExecutionContextRequest
    → Reply Asked
unfolding user_of text_of_claim check_input
check_execute agents s id user tenant body = path_id "Invalid agent ID" id >>= λ agent_id.
    user_of user >>= λ user_id. bound body >>= λ req.
    or_only 404 "Agent not found" (Service.get_agent agents s agent_id user_id) >>= λ agent.
    check_input req >>= λ u. go (record {
      agent_id = agent_id;
      agent = agent;
      user_id = user_id;
      tenant_id = text_of_claim tenant;
      req = req;
    })

abbrev pub or_crash {ℓ} : {A : Type ℓ} → Result A → Reply A
or_crash (ok a) = go a
or_crash (err e) = crash
or_crash panic = crash

module _ (executions : Table AgentExecution) (marshal : GoMap → Result Str) (memory : MemoryService)
    (f : FloatOps) (now took : ℤ) where
  abbrev pub State : Type 0
  State = executions.Store × memory.State

  -- `if execution != nil { … CompleteExecution(…) }`, whose error is not read.
  unfoldable pub close :
      executions.Store
      → Option AgentExecution
      → ExecutionStatus
      → Option GoMap
      → Option Str
      → executions.Store × Reply {0} Unit
  unfolding complete_execution
  close y none status output message = (y, go tt)
  close y (some e) status output message =
      let (z, done) = complete_execution executions marshal y now e.id status output message took in
      (z, logged done >>= λ u. go tt)

  -- From the answer of the router on.
  unfoldable pub finish :
      State
      → Option Str
      → Asked
      → Fields
      → ℕ
      → Option AgentExecution
      → Result RouterResponse
      → State × Reply (ℕ × ExecutionReply)
  unfolding close output_data store_interaction reply_of
  finish (y, m) session a metadata fresh execution (ok r) =
      let (z, done) = close y execution completed (some (output_data r metadata)) none in
      serve (z, m) done
        (λ u.
          let (m', stored) = store_interaction memory f m session a r in
          (
            (z, m'),
            stored >>= λ v.
                go (200, reply_of (elim execution [ some e ↦ e.id | none ↦ fresh ]) r metadata),
          ))
  finish (y, m) session a metadata fresh execution (err x) =
      let (z, done) = close y execution failed none (some x) in
      ((z, m), done >>= λ u. refuse 500 (codes "Execution failed") (some x))
  finish (y, m) session a metadata fresh execution panic = ((y, m), crash)

  unfoldable pub start_and_send :
      RouterService
      → State
      → ℕ
      → ℕ
      → Option Str
      → Asked
      → Fields
      → List Message
      → ℕ
      → State × Reply (ℕ × ExecutionReply)
  unfolding start_execution finish start_request
  start_and_send router (x, m) new_id fresh session a metadata messages user_uuid =
      let (y, started) =
        start_execution executions marshal x now new_id (start_request a metadata messages)
          user_uuid in
      serve (y, m) (logged started)
        (λ execution.
          finish (y, m) session a metadata fresh execution
            (router.send_request a.agent.llm_config messages user_uuid))

  -- The id of the user is read after the memory and before the record is made.
  unfoldable pub send_as_user :
      RouterService
      → (Str → Result ℕ)
      → State
      → ℕ
      → ℕ
      → Option Str
      → Asked
      → Str × Fields
      → Option MemoryContext
      → State × Reply (ℕ × ExecutionReply)
  unfolding messages_of memory_metadata start_and_send
  send_as_user router parse_uuid state new_id fresh session a (prompt, metadata) remembered =
      serve state (or_only 400 "Invalid user ID format" (parse_uuid a.user_id)) (
        start_and_send router state new_id fresh session a (memory_metadata f remembered metadata)
          (messages_of prompt remembered a.req))

  unfoldable pub send_remembering :
      RouterService
      → (Str → Result ℕ)
      → State
      → ℕ
      → ℕ
      → Option Str
      → Asked
      → Str × Fields
      → State × Reply (ℕ × ExecutionReply)
  unfolding load_memory send_as_user
  send_remembering router parse_uuid (x, m) new_id fresh session a built =
      let (m', loaded) = load_memory memory m session a in
      serve (x, m') loaded (send_as_user router parse_uuid (x, m') new_id fresh session a built)

  -- After the checks. The prompt is built without an error, or there is a panic.
  unfoldable pub execute_asked :
      DocumentContextService
      → RouterService
      → (Str → Result (List ℕ))
      → (Str → Result ℕ)
      → Bool
      → State
      → ℕ
      → ℕ
      → Asked
      → State × Reply (ℕ × ExecutionReply)
  unfolding build_system_prompt_with_context session_of send_remembering
  execute_asked docs router ids_of_json parse_uuid has_memory state new_id fresh a =
      serve state (or_crash (build_system_prompt_with_context docs f ids_of_json a.agent a.req))
        (send_remembering router parse_uuid state new_id fresh (session_of has_memory a) a)

  unfoldable pub execute_agent :
      (agents : Table Agent)
      → DocumentContextService
      → RouterService
      → (Str → Result (List ℕ))
      → (Str → Result ℕ)
      → Bool
      → agents.Store
      → State
      → ℕ
      → ℕ
      → Result ℕ
      → Claim
      → Claim
      → Result ExecutionContextRequest
      → State × Reply (ℕ × ExecutionReply)
  unfolding check_execute execute_asked
  execute_agent agents docs router ids_of_json parse_uuid has_memory s state new_id fresh id user
        tenant body =
      serve state (check_execute agents s id user tenant body)
        (execute_asked docs router ids_of_json parse_uuid has_memory state new_id fresh)
