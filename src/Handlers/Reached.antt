-- ===== src/Handlers/Reached.antt =====
-- Which agents `ExecuteInternalAgent` of handlers/agent_handlers.go runs.
use Prim.Native.String.{String}
use tas_agent_builder.Base.{
  ℕ, ◌==◌, ==_iff, ◌≡◌, refl, ap, ◌&&◌, Bool, true, false, Str, List, Option, none, some, ℤ, Result,
  ok, err, panic, Among,
}
use tas_agent_builder.External.Database.{Table, first-some}
use tas_agent_builder.Floats.{FloatOps}
use tas_agent_builder.Json.{Fields}
use tas_agent_builder.Models.Agent.{Agent}
use tas_agent_builder.Models.Services.{Message, RouterResponse}
use tas_agent_builder.Agents.Service
use tas_agent_builder.Agents.Access.{and_left, and_right, found_or-ok}
use tas_agent_builder.Handlers.Http.{Claim, go, >>=-go, or_refuse, or_only, RouterService}
use tas_agent_builder.Handlers.Crud.{bound, user_of}
use tas_agent_builder.Handlers.Prompt.{DocumentContextService}
use tas_agent_builder.Handlers.Execute.{or_crash}
use tas_agent_builder.Handlers.Internal.{
  InternalReply, context_request, internal_prompt, internal_messages, check_internal_input,
  internal_reply, internal_of, run_internal, execute_internal_agent,
}

or_only-ok :
    {A : Type 0} (code : ℕ) (what : String) (r : Result A) (a : A)
    → or_only code what r ≡ go a
    → r ≡ ok a
or_only-ok code what (ok b) a h = cc
or_only-ok code what (err e) a h = cc
or_only-ok code what panic a h = cc

or_refuse-ok :
    {A : Type 0} (code : ℕ) (what : String) (r : Result A) (a : A)
    → or_refuse code what r ≡ go a
    → r ≡ ok a
or_refuse-ok code what (ok b) a h = cc
or_refuse-ok code what (err e) a h = cc
or_refuse-ok code what panic a h = cc

module _ (agents : Table Agent) (s : agents.Store) where
  -- An internal agent of the table that is not deleted.
  pub record IsInternal (id : ℕ) (agent : Agent) : Type 0 where
    pub there : Among agent (agents.rows s)
    pub same_id : agent.id ≡ id
    pub internal : agent.is_internal ≡ true
    pub kept : agent.deleted_at ≡ none

  abbrev undeleted : Agent → Bool
  undeleted agent = elim agent.deleted_at [ none ↦ true | some t ↦ false ]

  kept_of : (o : Option ℤ) → (elim o [ none ↦ true | some t ↦ false ]) ≡ true → o ≡ none
  kept_of none h = refl
  kept_of (some t) h = cc

  get_internal_agent-IsInternal :
      (id : ℕ) (agent : Agent)
      → Service.get_internal_agent agents s id ≡ ok agent
      → IsInternal id agent
  unfolding Service.get_internal_agent
  get_internal_agent-IsInternal id agent h =
      let (there, holds) =
        first-some agents s _ agent
          (found_or-ok "internal agent not found" "failed to get internal agent" _ agent h) in
      let both = and_left ((agent.id == id) && agent.is_internal) (undeleted agent) holds in
      record {
        there = there;
        same_id = (==_iff agent.id id).0 (and_left (agent.id == id) agent.is_internal both);
        internal = and_right (agent.id == id) agent.is_internal both;
        kept =
            kept_of agent.deleted_at
              (and_right ((agent.id == id) && agent.is_internal) (undeleted agent) holds);
      }

  -- The router's answer to a request with the settings of an internal agent.
  pub record IsRun (router : RouterService) (id : ℕ) (out : InternalReply) : Type 0 where
    pub agent : Agent
    pub allowed : IsInternal id agent
    pub messages : List Message
    pub user_uuid : ℕ
    pub response : RouterResponse
    pub sent : router.send_request agent.llm_config messages user_uuid ≡ ok response
    pub same_output : out.output ≡ response.content

  module _ (docs : DocumentContextService) (router : RouterService) (f : FloatOps)
      (ids_of_json : Str → Result (List ℕ)) (parse_uuid : Str → Result ℕ) where
    internal_of-IsInternal :
        (id : ℕ) (user : Claim) (body : Result Fields) (checked : Agent × (Str × Fields))
        → internal_of agents docs router f ids_of_json parse_uuid s (ok id) user body ≡ go checked
        → IsInternal id checked.0
    unfolding internal_of
    internal_of-IsInternal id user body checked h =
        let (user_id, _, h1) = >>=-go (user_of user) _ checked h in
        let (raw, _, h2) = >>=-go (bound body) _ checked h1 in
        let (agent, found, h3) =
          >>=-go (or_only 404 "Internal agent not found" (Service.get_internal_agent agents s id)) _
            checked h2 in
        let same : checked.0 ≡ agent = cc (h3) in
        rw (same) (
          get_internal_agent-IsInternal id agent (
            or_only-ok 404 "Internal agent not found" (Service.get_internal_agent agents s id) agent
              found))

    run_internal-IsRun :
        (id : ℕ) (header : Str) (fresh : ℕ) (fresh_session : Str) (took : ℤ) (agent : Agent)
        (user_id : Str) (raw : Fields) (reply : ℕ × InternalReply)
        → IsInternal id agent
        → run_internal agents docs router f ids_of_json parse_uuid header fresh fresh_session took
            (agent, (user_id, raw))
          ≡ go reply
        → IsRun router id reply.1
    unfolding run_internal internal_reply
    run_internal-IsRun id header fresh fresh_session took agent user_id raw reply allowed h =
        let (input, _, h1) = >>=-go (check_internal_input raw) _ reply h in
        let (built, _, h2) =
          >>=-go
            (or_crash (
              internal_prompt docs f ids_of_json agent
                (context_request parse_uuid header raw input)))
            _ reply h1 in
        let (user_uuid, _, h3) =
          >>=-go (or_only 400 "Invalid user ID format" (parse_uuid user_id)) _ reply h2 in
        let messages = internal_messages built.0 raw input in
        let (response, sent, h4) =
          >>=-go
            (or_refuse 500 "Execution failed"
              (router.send_request agent.llm_config messages user_uuid))
            _ reply h3 in
        let same : reply ≡ (200, internal_reply fresh fresh_session took raw response built.1) =
          cc (h4) in
        record {
          agent = agent;
          allowed = allowed;
          messages = messages;
          user_uuid = user_uuid;
          response = response;
          sent =
              or_refuse-ok 500 "Execution failed"
                (router.send_request agent.llm_config messages user_uuid) response sent;
          same_output = ap (λ (r : ℕ × InternalReply). r.1.output) same;
        }

    -- When the handler replies with an output, the id in the path is that of an internal agent that is not
    -- deleted, and the output is the router's answer with the settings of that agent.
    pub execute_internal_agent-IsRun :
        (id : ℕ) (user : Claim) (body : Result Fields) (header : Str) (fresh : ℕ)
        (fresh_session : Str) (took : ℤ) (code : ℕ) (out : InternalReply)
        → execute_internal_agent agents docs router f ids_of_json parse_uuid s
            (ok id)
            user
            body
            header
            fresh
            fresh_session
            took
          ≡ go (code, out)
        → IsRun router id out
    unfolding execute_internal_agent
    execute_internal_agent-IsRun id user body header fresh fresh_session took code out h =
        let reply : ℕ × InternalReply = (code, out) in
        let (checked, got, run) =
          >>=-go (internal_of agents docs router f ids_of_json parse_uuid s (ok id) user body) _
            reply h in
        run_internal-IsRun id header fresh fresh_session took checked.0 checked.1.0 checked.1.1
          reply (internal_of-IsInternal id user body checked got) run
