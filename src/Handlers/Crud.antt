-- ===== src/Handlers/Crud.antt =====
-- The handlers of handlers/agent_handlers.go that pass a request to the agent service. `id` is what
-- `uuid.Parse` made of the path and `body` what decoding the body came to.
use Prim.Native.String.{String}
use tas_agent_builder.Base.{ℕ, Str, codes, List, length, ℤ, Result}
use tas_agent_builder.External.Database.{Table}
use tas_agent_builder.Models.Agent.{Agent, CreateAgentRequest, UpdateAgentRequest}
use tas_agent_builder.Models.Execution.{AgentExecution}
use tas_agent_builder.Models.Services.{Provider}
use tas_agent_builder.Agents.Service
use tas_agent_builder.Agents.Requests.{Outside}
use tas_agent_builder.Agents.Listing
use tas_agent_builder.Handlers.Http.{
  Claim, Reply, go, ◌>>=◌, or_refuse, or_only, or_error, claim_text, claim_present, serve,
  RouterService,
}
use tas_agent_builder.Handlers.Config.{
  Durations, Recommendations, validate_llm_config, generate_config_recommendations,
}

-- `uuid.Parse(c.Param("id"))`
abbrev pub path_id : String → Result ℕ → Reply ℕ
path_id what id = or_only 400 what id

abbrev pub bound {ℓ} : {A : Type ℓ} → Result A → Reply A
bound body = or_refuse 400 "Invalid request body" body

-- The owner, from a handler that names him so.
unfoldable pub owner_of : Claim → Reply Str
unfolding claim_text
owner_of = claim_text "User ID not found in context" "Invalid owner ID"

unfoldable pub user_of : Claim → Reply Str
unfolding claim_text
user_of = claim_text "User ID not found in context" "Invalid user ID"

-- Both claims are there before the text of either is read.
unfoldable pub user_and_tenant : String → Claim → Claim → Reply (Str × Str)
unfolding claim_text claim_present
user_and_tenant bad user tenant = claim_present "User ID not found in context" user >>= λ u.
    claim_present "Tenant ID not found in context" tenant >>= λ v.
    claim_text "User ID not found in context" bad user >>= λ user_id.
    claim_text "Tenant ID not found in context" "Invalid tenant ID" tenant >>= λ tenant_id.
    go (user_id, tenant_id)

-- An agent with the configurations that the handler recommends for it.
pub record AgentReply : Type 0 where
  pub agent : Agent
  pub recommendations : Recommendations

module _ (agents : Table Agent) (out : Outside) (router : RouterService) (parse : Durations) where
  unfoldable pub check_create :
      Result CreateAgentRequest → Claim → Claim → Reply (CreateAgentRequest × (Str × Str))
  unfolding validate_llm_config user_and_tenant
  check_create body owner tenant = bound body >>= λ req.
      or_refuse 400 "Invalid LLM configuration"
        (validate_llm_config router out.floats parse req.llm_config)
      >>= λ u. user_and_tenant "Invalid owner ID" owner tenant >>= λ ids. go (req, ids)

  unfoldable pub create_agent :
      agents.Store
      → ℤ
      → ℕ
      → Result CreateAgentRequest
      → Claim
      → Claim
      → agents.Store × Reply (ℕ × AgentReply)
  unfolding check_create generate_config_recommendations
  create_agent s now new_id body owner tenant = serve s (check_create body owner tenant) (λ checked.
      let (req, (owner_id, tenant_id)) = checked in
      let (t, created) = Service.create_agent agents out s now new_id req owner_id tenant_id in
      (
        t,
        or_refuse 500 "Failed to create agent" created >>= λ agent. go (
          201,
          record {
            agent = agent;
            recommendations = generate_config_recommendations out.floats req.llm_config;
          },
        ),
      ))

  unfoldable pub validate_agent_config :
      Result CreateAgentRequest → Reply (ℕ × (Recommendations × List Provider))
  unfolding validate_llm_config generate_config_recommendations
  validate_agent_config body = bound body >>= λ req.
      or_error 400 (validate_llm_config router out.floats parse req.llm_config) >>= λ u.
      or_only 500 "Failed to check provider availability" router.get_available_providers
      >>= λ providers.
          go (200, (generate_config_recommendations out.floats req.llm_config, providers))

  unfoldable pub duplicate_agent :
      agents.Store
      → ℤ
      → ℕ
      → Result ℕ
      → Result Str
      → Claim
      → Claim
      → agents.Store × Reply (ℕ × AgentReply)
  unfolding user_and_tenant generate_config_recommendations
  duplicate_agent s now new_id id body user tenant =
      serve s
        (path_id "Invalid source agent ID" id >>= λ source_id. bound body >>= λ name.
          user_and_tenant "Invalid user ID" user tenant >>= λ ids. go (source_id, (name, ids)))
        (λ checked.
          let (source_id, (name, (user_id, tenant_id))) = checked in
          let (t, copied) =
            Service.duplicate_agent agents out.floats s now new_id source_id name user_id
              tenant_id in
          (
            t,
            or_refuse 500 "Failed to duplicate agent" copied >>= λ agent. go (
              201,
              record {
                agent = agent;
                recommendations = generate_config_recommendations out.floats agent.llm_config;
              },
            ),
          ))

  unfoldable pub update_agent :
      agents.Store
      → ℤ
      → Result ℕ
      → Result UpdateAgentRequest
      → Claim
      → agents.Store × Reply (ℕ × Agent)
  unfolding owner_of
  update_agent s now id body owner =
      serve s
        (path_id "Invalid agent ID" id >>= λ agent_id.
          bound body >>= λ req. owner_of owner >>= λ owner_id. go (agent_id, (req, owner_id)))
        (λ checked.
          let (agent_id, (req, owner_id)) = checked in
          let (t, updated) = Service.update_agent agents out s now agent_id req owner_id in
          (t, or_refuse 500 "Failed to update agent" updated >>= λ agent. go (200, agent)))

module _ (agents : Table Agent) where
  unfoldable pub get_agent : agents.Store → Result ℕ → Claim → Reply (ℕ × Agent)
  unfolding user_of
  get_agent s id user = path_id "Invalid agent ID" id >>= λ agent_id. user_of user >>= λ user_id.
      or_error 404 (Service.get_agent agents s agent_id user_id) >>= λ agent. go (200, agent)

  unfoldable pub get_internal_agents : Outside → agents.Store → Reply (ℕ × (List Agent × ℕ))
  get_internal_agents out s =
      or_refuse 500 "Failed to fetch internal agents" (Listing.get_internal_agents agents out s)
      >>= λ found. go (200, (found, length found))

  unfoldable pub get_internal_agent : agents.Store → Result ℕ → Reply (ℕ × Agent)
  get_internal_agent s id = path_id "Invalid agent ID" id >>= λ agent_id.
      or_error 404 (Service.get_internal_agent agents s agent_id) >>= λ agent. go (200, agent)

  -- The check of an id and an owner that three handlers share.
  unfoldable pub owned_path : Result ℕ → Claim → Reply (ℕ × Str)
  unfolding owner_of
  owned_path id owner = path_id "Invalid agent ID" id >>= λ agent_id.
      owner_of owner >>= λ owner_id. go (agent_id, owner_id)

  unfoldable pub delete_agent :
      (executions : Table AgentExecution)
      → agents.Store
      → executions.Store
      → Result ℕ
      → Claim
      → (agents.Store × executions.Store) × Reply ℕ
  unfolding owned_path
  delete_agent executions s x id owner =
      serve (s, x) (owned_path id owner)
        (λ checked.
          let (agent_id, owner_id) = checked in
          let (t, (y, deleted)) = Service.delete_agent agents executions s x agent_id owner_id in
          ((t, y), or_refuse 500 "Failed to delete agent" deleted >>= λ u. go 204))

  unfoldable pub publish_agent :
      agents.Store → ℤ → Result ℕ → Claim → agents.Store × Reply (ℕ × Str)
  unfolding owned_path
  publish_agent s now id owner = serve s (owned_path id owner) (λ checked.
      let (agent_id, owner_id) = checked in
      let (t, done) = Service.publish_agent agents s now agent_id owner_id in
      (
        t,
        or_refuse 500 "Failed to publish agent" done >>= λ u.
            go (200, codes "Agent published successfully"),
      ))

  unfoldable pub unpublish_agent :
      agents.Store → ℤ → Result ℕ → Claim → agents.Store × Reply (ℕ × Str)
  unfolding owned_path
  unpublish_agent s now id owner = serve s (owned_path id owner) (λ checked.
      let (agent_id, owner_id) = checked in
      let (t, done) = Service.unpublish_agent agents s now agent_id owner_id in
      (
        t,
        or_refuse 500 "Failed to unpublish agent" done >>= λ u.
            go (200, codes "Agent unpublished successfully"),
      ))
