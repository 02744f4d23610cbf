-- ===== src/Handlers/Recorded.antt =====
-- What `ExecuteAgent` of handlers/agent_handlers.go leaves of an execution in the database.
use mathlib.Core.Path.{subst}
use tas_agent_builder.Base.{
  ℕ, ◌==◌, ==_iff, ◌≡◌, refl, sym, ap, ◌∙◌, inr, Bool, Str, codes, str_eq, List, Option, none, some,
  ℤ, Result, ok, err, panic,
}
use tas_agent_builder.External.Database.{Table}
use tas_agent_builder.Floats.{FloatOps}
use tas_agent_builder.Hybrid.Score.{lookup}
use tas_agent_builder.Json.{Fields}
use tas_agent_builder.Models.Agent.{Agent}
use tas_agent_builder.Models.Execution.{ExecutionStatus, queued, completed, failed, AgentExecution}
use tas_agent_builder.Models.Memory.{MemoryContext}
use tas_agent_builder.Models.Services.{Message, RouterResponse, ExecutionContextRequest}
use tas_agent_builder.Executions.Service.{
  GoMap, missing_column, words_at, new_execution, with_completion, with_output, start_execution,
  complete_execution,
}
use tas_agent_builder.Executions.Status.{status_of}
use tas_agent_builder.Executions.Lifecycle.{next_status, start-refines, complete-refines}
use tas_agent_builder.Handlers.Http.{Claim, Reply, go, RouterService, or_only}
use tas_agent_builder.Handlers.Prompt.{DocumentContextService, build_system_prompt_with_context}
use tas_agent_builder.Handlers.Execute.{
  check_execute, close, finish, start_and_send, send_as_user, send_remembering, or_crash,
  execute_asked, execute_agent,
}
use tas_agent_builder.Handlers.Messages.{
  MemoryService, Asked, start_request, memory_metadata, messages_of, output_data, reply_of,
  session_of, load_memory, store_interaction,
}
use tas_agent_builder.Handlers.Endings.{
  Ended, serve-Ended, served-Ended, replied-Ended, store_interaction-quiet,
}

module _ (executions : Table AgentExecution) (marshal : GoMap → Result Str) (memory : MemoryService)
    (f : FloatOps) (now took : ℤ) (keyed : (e : AgentExecution) → executions.key e ≡ e.id)
    (marshals : (a : Asked) (metadata : Fields) (messages : List Message)
      → (s : Str) × (marshal (start_request a metadata messages).input_data ≡ ok s))
    (updates : (s : executions.Store) (p : AgentExecution → Bool)
        (g : AgentExecution → AgentExecution)
      → ((e : AgentExecution) → (g e).id ≡ e.id)
      → (n : ℕ) × ((executions.update s p g).1 ≡ ok n)) where
  completion-id :
      (status : ExecutionStatus) (output : Option GoMap) (message : Option Str) (e : AgentExecution)
      → (with_completion marshal now status output message took e).id ≡ e.id
  unfolding with_completion with_output
  completion-id status none message e = refl
  completion-id status (some output) message e = refl

  -- The end of a queued execution that failed.
  close-failed :
      (y : executions.Store) (e : AgentExecution) (message : Str)
      → status_of e.id (executions.rows y) ≡ some queued
      → let (z, done) =
          close executions marshal memory f now took y (some e) failed none (some message) in
        (done ≡ go tt) × (status_of e.id (executions.rows z) ≡ some failed)
  unfolding close complete_execution missing_column next_status
  close-failed y e message h =
      let (n, done) =
        updates y (λ b. b.id == e.id) (with_completion marshal now failed none (some message) took)
          (completion-id failed none (some message)) in
      let lem =
        complete-refines executions marshal keyed y e.id now e.id failed none (some message) took in
      (rw (done) refl, lem ∙ rw (done, (==_iff e.id e.id).1 refl, h) refl)

  -- The output of an execution names the model, and so a column that is missing.
  output_data-missing :
      (r : RouterResponse) (metadata : Fields)
      → missing_column (some (output_data r metadata)) ≡ some (codes "router_model")
  unfolding missing_column output_data words_at lookup str_eq
  output_data-missing r metadata = refl

  -- The end of an execution that was answered changes nothing.
  close-answered :
      (y : executions.Store) (e : AgentExecution) (r : RouterResponse) (metadata : Fields)
      → close executions marshal memory f now took y
          (some e)
          completed
          (some (output_data r metadata))
          none
        ≡ (y, go tt)
  unfolding close complete_execution
  close-answered y e r metadata = rw (output_data-missing r metadata, complete_execution) refl

  start-status :
      (x : executions.Store) (new_id : ℕ) (a : Asked) (metadata : Fields) (messages : List Message)
      (user_uuid : ℕ)
      → ((e : AgentExecution) → e.id ≡ new_id → (executions.insert x e).1 ≡ none)
      → let req = start_request a metadata messages in
        let (y, started) = start_execution executions marshal x now new_id req user_uuid in
        (e : AgentExecution) × (started ≡ ok e)
        × (e.id ≡ new_id)
        × (status_of new_id (executions.rows y) ≡ some queued)
  unfolding start_execution new_execution next_status
  start-status x new_id a metadata messages user_uuid inserts =
      let req = start_request a metadata messages in
      let (input, m) = marshals a metadata messages in
      let e = new_execution marshal now new_id req user_uuid input in
      let lem = start-refines executions marshal keyed x new_id now new_id req user_uuid in
      let done = inserts e refl in
      (
        e,
        rw (m, start_execution, done) refl,
        refl,
        lem ∙ rw (m, start_execution, done, (==_iff new_id new_id).1 refl) refl,
      )

  module _ (router : RouterService) (checked : Reply Asked) (a : Asked) (asked : checked ≡ go a)
      (x : executions.Store) where
    finish-Ended :
        (y : executions.Store) (m : memory.State) (session : Option Str) (metadata : Fields)
        (fresh : ℕ) (e : AgentExecution) (messages : List Message) (user_uuid : ℕ)
        (sent : Result RouterResponse)
        → router.send_request a.agent.llm_config messages user_uuid ≡ sent
        → status_of e.id (executions.rows y) ≡ some queued
        → Ended executions router checked e.id x (
            finish executions marshal memory f now took
              (y, m)
              session
              a
              metadata
              fresh
              (some e)
              sent)
    unfolding finish reply_of Ended
    finish-Ended y m session metadata fresh e messages user_uuid (ok r) h q =
        let (m', stored) = store_interaction memory f m session a r in
        let answered = close-answered y e r metadata in
        served-Ended executions router checked e.id x _ _ _ (ap (λ p. p.1) answered) (
          replied-Ended executions router checked e.id x {M = memory.State}
            (
              (close executions marshal memory f now took y (some e) completed
                  (some (output_data r metadata)) none).0,
              m',
            )
            stored (reply_of e.id r metadata) (store_interaction-quiet memory f m session a r)
            (
              refl,
              (
                ap (λ p. status_of e.id (executions.rows p.0)) answered ∙ q,
                (
                  refl,
                  record {
                    a = a;
                    asked = asked;
                    messages = messages;
                    user_uuid = user_uuid;
                    response = r;
                    sent = h;
                    same_output = refl;
                    same_tokens = refl;
                  },
                ),
              ),
            ))
    finish-Ended y m session metadata fresh e messages user_uuid (err message) h q =
        let (done, status) = close-failed y e message q in rw (done) (inr (refl, status))
    finish-Ended y m session metadata fresh e messages user_uuid panic h q = tt

    start_and_send-Ended :
        (m : memory.State) (new_id fresh : ℕ) (session : Option Str) (metadata : Fields)
        (messages : List Message) (user_uuid : ℕ)
        → ((e : AgentExecution) → e.id ≡ new_id → (executions.insert x e).1 ≡ none)
        → Ended executions router checked new_id x (
            start_and_send executions marshal memory f now took router
              (x, m)
              new_id
              fresh
              session
              a
              metadata
              messages
              user_uuid)
    unfolding start_and_send
    start_and_send-Ended m new_id fresh session metadata messages user_uuid inserts =
        let (e, started, same, status) =
          start-status x new_id a metadata messages user_uuid inserts in
        let y =
          (start_execution executions marshal x now new_id (start_request a metadata messages)
            user_uuid).0 in
        rw (started) (
          subst
            (λ k. Ended executions router checked k x (
              finish executions marshal memory f now took (y, m) session a metadata fresh (some e)
                (router.send_request a.agent.llm_config messages user_uuid)))
            same
            (finish-Ended y m session metadata fresh e messages user_uuid _ refl
              (subst (λ k. status_of k (executions.rows y) ≡ some queued) (sym same) status)))

    send_as_user-Ended :
        (parse_uuid : Str → Result ℕ) (m : memory.State) (new_id fresh : ℕ) (session : Option Str)
        (built : Str × Fields) (remembered : Option MemoryContext)
        → ((e : AgentExecution) → e.id ≡ new_id → (executions.insert x e).1 ≡ none)
        → Ended executions router checked new_id x (
            send_as_user executions marshal memory f now took router parse_uuid
              (x, m)
              new_id
              fresh
              session
              a
              built
              remembered)
    unfolding send_as_user
    send_as_user-Ended parse_uuid m new_id fresh session (prompt, metadata) remembered inserts =
        let messages = messages_of prompt remembered a.req in
        let told = memory_metadata f remembered metadata in
        serve-Ended executions router checked new_id x m
          (or_only 400 "Invalid user ID format" (parse_uuid a.user_id))
          (start_and_send executions marshal memory f now took router (x, m) new_id fresh session a
            told messages)
          (λ user_uuid u.
            start_and_send-Ended m new_id fresh session told messages user_uuid inserts)

    send_remembering-Ended :
        (parse_uuid : Str → Result ℕ) (m : memory.State) (new_id fresh : ℕ) (session : Option Str)
        (built : Str × Fields)
        → ((e : AgentExecution) → e.id ≡ new_id → (executions.insert x e).1 ≡ none)
        → Ended executions router checked new_id x (
            send_remembering executions marshal memory f now took router parse_uuid
              (x, m)
              new_id
              fresh
              session
              a
              built)
    unfolding send_remembering
    send_remembering-Ended parse_uuid m new_id fresh session built inserts =
        let (m', loaded) = load_memory memory m session a in
        serve-Ended executions router checked new_id x m' loaded
          (send_as_user executions marshal memory f now took router parse_uuid (x, m') new_id fresh
            session a built)
          (λ remembered l.
            send_as_user-Ended parse_uuid m' new_id fresh session built remembered inserts)

    execute_asked-Ended :
        (docs : DocumentContextService) (ids_of_json : Str → Result (List ℕ))
        (parse_uuid : Str → Result ℕ) (has_memory : Bool) (m : memory.State) (new_id fresh : ℕ)
        → ((e : AgentExecution) → e.id ≡ new_id → (executions.insert x e).1 ≡ none)
        → Ended executions router checked new_id x (
            execute_asked executions marshal memory f now took docs router ids_of_json parse_uuid
              has_memory
              (x, m)
              new_id
              fresh
              a)
    unfolding execute_asked
    execute_asked-Ended docs ids_of_json parse_uuid has_memory m new_id fresh inserts =
        let session = session_of has_memory a in
        serve-Ended executions router checked new_id x m
          (or_crash (build_system_prompt_with_context docs f ids_of_json a.agent a.req))
          (send_remembering executions marshal memory f now took router parse_uuid (x, m) new_id
            fresh session a)
          (λ built b. send_remembering-Ended parse_uuid m new_id fresh session built inserts)

  -- When the input of an execution can be written as JSON, the row with the new id can be inserted and
  -- updates of columns that exist, which keep the ids, do not fail, `ExecuteAgent` never completes
  -- the record of its execution: with a reply, which is the router's answer, the record is still
  -- queued, since its completion names columns that the table does not have; with a refusal no
  -- record was made, or it is failed. A panic can leave it as it is.
  pub execute_agent-Ended :
      (agents : Table Agent) (docs : DocumentContextService) (router : RouterService)
      (ids_of_json : Str → Result (List ℕ)) (parse_uuid : Str → Result ℕ) (has_memory : Bool)
      (s : agents.Store) (x : executions.Store) (m : memory.State) (new_id fresh : ℕ)
      (id : Result ℕ) (user tenant : Claim) (body : Result ExecutionContextRequest)
      → ((e : AgentExecution) → e.id ≡ new_id → (executions.insert x e).1 ≡ none)
      → Ended executions router (check_execute agents s id user tenant body) new_id x (
          execute_agent executions marshal memory f now took agents docs router ids_of_json
            parse_uuid has_memory s
            (x, m)
            new_id
            fresh
            id
            user
            tenant
            body)
  unfolding execute_agent
  execute_agent-Ended agents docs router ids_of_json parse_uuid has_memory s x m new_id fresh id
        user tenant body inserts =
      let checked = check_execute agents s id user tenant body in
      serve-Ended executions router checked new_id x m checked
        (execute_asked executions marshal memory f now took docs router ids_of_json parse_uuid
          has_memory (x, m) new_id fresh)
        (λ a asked.
          execute_asked-Ended router checked a asked x docs ids_of_json parse_uuid has_memory m
            new_id fresh inserts)
